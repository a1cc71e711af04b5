-- ===== src/Credential.antt =====
-- portauth-engine/src/services/credentialVerifier.js, the plain JWT profile: signature, issuer
-- trust, audience, revocation, subject and proof of possession in this order, then the normalized
-- payload. The signature checks, the table of trusted issuers, the hash of a request and the clock
-- are arguments. Credential/VcJose.antt and Credential/X509.antt have the other two profiles.
pub mod Laws
pub mod VcJose
pub mod Certificates
pub mod X509
pub mod Profiles
use aiagent_portable_authori.Base.{
  ℕ, String, Bool, true, false, not, ◌&&◌, ◌||◌, Option, none, some, List, [], ◌∷◌, ◌++◌, map,
  filter, any, every, includes, is_empty, if◌then◌else◌, str_eq,
}
use aiagent_portable_authori.Base.Int.{ℤ, eqb_ℤ}
use aiagent_portable_authori.Base.Num.{Num, fin, add_num, ltb_num}
use aiagent_portable_authori.Base.Text.{split}
use aiagent_portable_authori.Codes.{
  ErrorCode, signature_invalid, credential_expired, credential_revoked, issuer_untrusted,
  audience_mismatch, subject_binding_mismatch, proof_of_possession_failed,
  tier1_revocation_unavailable,
}
use aiagent_portable_authori.Value.{
  Value, Fields, nil, field, undefined, null, str, arr, num, Runtime, to_number, is_truthy,
  is_blank, includes_value, or_default, elements, is_text,
}
use aiagent_portable_authori.Payload.{Constraint, Payload}
use aiagent_portable_authori.Delegation.Chain.{Verification, verified, rejected}
use aiagent_portable_authori.Revocation.{
  RevocationOutcome, skipped, active, revoked, unavailable, RevocationConfig,
}

-- `listFromClaim`
unfoldable pub list_from_claim : Value → List Value
list_from_claim undefined = []
list_from_claim null = []
list_from_claim (arr fs) = elements fs
list_from_claim v = v ∷ []

-- `getEvaluatorAudiences` on the text that is configured, if any.
unfoldable pub get_evaluator_audiences : (String → String) → String → List String
unfolding split
get_evaluator_audiences trim configured =
    if is_blank configured
    then []
    else filter (λ s. not (is_blank s)) (map trim (split b',' configured))

-- `validateAudience`: does the audience claim let this evaluator in?
unfoldable pub validate_audience : Value → List String → Bool
validate_audience claim expected =
    if is_empty (list_from_claim claim)
    then true
    else if is_empty expected
    then false
    else any (includes_value expected) (list_from_claim claim)

-- The payload of a verified proof.
pub record ProofClaims : Type 0 where
  pub credential_id : Value
  pub presenter_id : Value
  pub request_hash : Value
  pub iat : Value

-- `===` on identifiers; objects and arrays of different texts are never the same.
abbrev pub same_id : Value → Value → Bool
same_id (str t) (str s) = str_eq t s
same_id (num n) (num m) = eqb_ℤ n m
same_id undefined undefined = true
same_id null null = true
same_id _ _ = false

-- A text that may be absent.
abbrev pub id_value : String → Value
id_value s = if is_blank s then undefined else str s

-- What a proof is checked against.
pub record ProofTarget : Type 0 where
  pub credential_id : Value
  pub presenter_id : String
  pub request_hash : String
  pub max_age_seconds : ℤ
  pub now_seconds : ℤ

unfoldable pub is_fresh : Runtime → ProofTarget → Value → Bool
is_fresh rt t iat =
    is_truthy iat
    && not (ltb_num (add_num (fin t.max_age_seconds) (to_number rt iat)) (fin t.now_seconds))

unfoldable pub check_possession : Runtime → ProofTarget → ProofClaims → Bool
check_possession rt t p =
    same_id p.credential_id t.credential_id
    && is_text t.presenter_id p.presenter_id
    && is_text t.request_hash p.request_hash
    && is_fresh rt t p.iat

-- `verifyProofOfPossession`, given whether to skip it, whether the credential has a confirmation
-- key, whether a proof is required anyway, and the payload of the proof if one verifies with the key.
unfoldable pub verify_proof_of_possession :
    Runtime → Bool → Bool → Bool → ProofTarget → Option ProofClaims → Bool
unfolding check_possession
verify_proof_of_possession rt skip has_key required target proof =
    if skip
    then true
    else if has_key || required
    then (if has_key
        then elim proof [ none ↦ false | some p ↦ check_possession rt target p ]
        else false)
    else true

-- An entry of `constraints` or `termsOfUse`: a constraint, or a group of constraints.
pub data RawConstraint : Type 0 where
  plain : Constraint → RawConstraint
  policy_group obligation : List Constraint → RawConstraint

unfoldable pub normalize_constraints : List RawConstraint → List Constraint
normalize_constraints [] = []
normalize_constraints (plain c ∷ rs) = c ∷ normalize_constraints rs
normalize_constraints (policy_group cs ∷ rs) = cs ++ normalize_constraints rs
normalize_constraints (obligation cs ∷ rs) = cs ++ normalize_constraints rs

pub record Claims : Type 0 where
  pub iss : String
  pub sub : String
  pub jti : String
  pub aud : Value
  pub permissions : List String
  pub constraints : List RawConstraint
  pub valid_from : Option String
  pub valid_until : Option String
  pub delegated_from : String
  pub has_confirmation_key : Bool

-- How `jwtVerify` fails.
pub data JwtError : Type 0 where
  no_matching_key signature_failed jwks_fetch_failed expired not_yet_valid other_jwt_error :
      JwtError

unfoldable pub jwt_error_code : JwtError → ErrorCode
jwt_error_code no_matching_key = signature_invalid
jwt_error_code signature_failed = signature_invalid
jwt_error_code jwks_fetch_failed = signature_invalid
jwt_error_code expired = credential_expired
jwt_error_code not_yet_valid = credential_expired
jwt_error_code other_jwt_error = signature_invalid

-- The row of portauth_trusted_issuers, and the configuration that its overrides give.
pub record TrustedIssuer : Type 0 where
  pub trusted_for_permissions : List String
  pub revocation_mechanism : String
  pub revocation_config : RevocationConfig

-- What verification reads besides the credential.
pub record Receiver : Type 0 where
  pub runtime : Runtime
  pub audiences : List String
  pub jwt_error : String → Option JwtError
  pub trusted_issuer : String → Option TrustedIssuer
  pub skip_revocation : Bool
  pub introspection_url : String → String
  pub introspect : String → RevocationConfig → String → RevocationOutcome
  pub require_proof : Bool
  pub proof : Option ProofClaims
  pub request_hash : String
  pub max_age_seconds : ℤ
  pub now_seconds : ℤ

module _ (r : Receiver) (credential : String) (presenter : Option String) (skip_proof : Bool)
    (claims : Claims) where
  abbrev pub proof_target : ProofTarget
  proof_target = record {
    credential_id = id_value claims.jti;
    presenter_id = elim presenter [ none ↦ "" | some p ↦ p ];
    request_hash = r.request_hash;
    max_age_seconds = r.max_age_seconds;
    now_seconds = r.now_seconds;
  }

  abbrev pub normalized : Payload
  normalized = record {
    issuer_id = claims.iss;
    agent_id = claims.sub;
    credential_id = claims.jti;
    permissions = claims.permissions;
    constraints = normalize_constraints claims.constraints;
    valid_from = claims.valid_from;
    valid_until = claims.valid_until;
    trust_tier = 1;
    delegated_from = claims.delegated_from;
    audience = if is_truthy claims.aud then claims.aud else null;
  }

  unfoldable pub proof_step : Verification
  unfolding normalize_constraints verify_proof_of_possession
  proof_step =
      if verify_proof_of_possession r.runtime skip_proof claims.has_confirmation_key r.require_proof
        proof_target r.proof
      then verified normalized
      else rejected proof_of_possession_failed

  -- `presenterId && claims.sub !== presenterId`
  abbrev pub bound : Option String → Bool
  bound none = true
  bound (some p) = is_blank p || str_eq claims.sub p

  unfoldable pub subject_step : Verification
  unfolding proof_step
  subject_step = if bound presenter then proof_step else rejected subject_binding_mismatch

  unfoldable pub after_introspection : String → RevocationOutcome → Verification
  unfolding subject_step
  after_introspection failure_mode revoked = rejected credential_revoked
  after_introspection failure_mode unavailable =
      if str_eq failure_mode "closed" then rejected tier1_revocation_unavailable else subject_step
  after_introspection failure_mode active = subject_step
  after_introspection failure_mode skipped = subject_step

  -- Introspection is asked only where the issuer's mechanism is introspection and an endpoint is known.
  unfoldable pub introspects : TrustedIssuer → Bool
  introspects issuer =
      not r.skip_revocation
      && str_eq (or_default issuer.revocation_mechanism "introspection") "introspection"
      && not (is_blank (r.introspection_url claims.iss))

  unfoldable pub revocation_step : TrustedIssuer → Verification
  unfolding after_introspection introspects
  revocation_step issuer =
      if introspects issuer
      then after_introspection issuer.revocation_config.failure_mode
          (r.introspect (r.introspection_url claims.iss) issuer.revocation_config claims.jti)
      else subject_step

  unfoldable pub audience_step : TrustedIssuer → Verification
  unfolding revocation_step
  audience_step issuer =
      if validate_audience claims.aud r.audiences
      then revocation_step issuer
      else rejected audience_mismatch

  unfoldable pub issuer_step : Option TrustedIssuer → Verification
  unfolding audience_step
  issuer_step none = rejected issuer_untrusted
  issuer_step (some issuer) =
      if every (includes issuer.trusted_for_permissions) claims.permissions
      then audience_step issuer
      else rejected issuer_untrusted

  unfoldable pub signature_step : Option JwtError → Verification
  unfolding issuer_step jwt_error_code
  signature_step (some error) = rejected (jwt_error_code error)
  signature_step none = issuer_step (r.trusted_issuer claims.iss)

  -- `verifyCredential` on the decoded claims of a plain JWT.
  unfoldable pub verify_plain_jwt : Verification
  unfolding signature_step
  verify_plain_jwt = signature_step (r.jwt_error credential)
