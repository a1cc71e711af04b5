-- ===== src/Credential/X509.antt =====
-- portauth-engine/src/services/credentialVerifier.js, `verifyX509Jwt` and `checkX509Revocation`: a
-- JWT whose header carries the certificate chain of its issuer. The signature check, the tables of
-- trusted issuers and of revoked certificates, and the certificates themselves are arguments. An
-- exception gives none, and a claim that should be a text and is not stands in the normalized payload
-- as the empty text.
pub mod Laws
use aiagent_portable_authori.Base.{
  String, Bool, true, false, not, ◌&&◌, ◌||◌, Option, none, some, List, [], ◌∷◌, map, every,
  is_empty, if◌then◌else◌, str_eq, ◌⊎◌, inl, inr,
}
use aiagent_portable_authori.Base.Int.{ℤ}
use aiagent_portable_authori.Codes.{
  ErrorCode, credential_revoked, issuer_untrusted, audience_mismatch, subject_binding_mismatch,
  proof_of_possession_failed, x509_revocation_unavailable, x509_subject_mismatch,
}
use aiagent_portable_authori.Value.{
  Value, null, Runtime, get, member, items, is_array, is_text, is_truthy, is_blank, or_default,
  or_value, text_in, includes_value,
}
use aiagent_portable_authori.Payload.{Payload}
use aiagent_portable_authori.Delegation.Chain.{Verification, verified, rejected}
use aiagent_portable_authori.Credential.{
  JwtError, jwt_error_code, ProofClaims, ProofTarget, RawConstraint, normalize_constraints,
  validate_audience, verify_proof_of_possession,
}
use aiagent_portable_authori.Credential.VcJose.Claims.{extract_confirmation_jwk}
use aiagent_portable_authori.Credential.Certificates.{
  Certificate, X509Platform, AnchorOptions, ChainCheck, chain_pass, chain_fail,
  certificate_fingerprint_sha256, verify_x509_chain_from_header,
}
use aiagent_portable_authori.Credential.Certificates.Identity.{
  X509Issuer, IdentityCheck, validate_certificate_identity,
}

-- A look at portauth_x509_revoked_certificates.
pub data RevokedRow : Type 0 where
  query_failed not_listed listed : RevokedRow

-- What verification reads besides the credential. The policies are those of the options and of the
-- environment, and `proof` is the payload of the presented proof if it verifies under a key.
pub record X509Receiver : Type 0 where
  pub runtime : Runtime
  pub platform : X509Platform
  pub audiences : List String
  pub jwt_verify : String → String → String → JwtError ⊎ Value
  pub x509_issuer : String → Option X509Issuer
  pub trust_anchors_pem : String
  pub trust_anchor_sha256 : String
  pub other_pems : List String
  pub other_fingerprints : List String
  pub enforce_key_usage : Bool
  pub skip_revocation : Bool
  pub revoked_certificate : String → RevokedRow
  pub option_policy : String
  pub environment_policy : String
  pub require_proof : Bool
  pub proof : Value → Option ProofClaims
  pub request_hash : String
  pub max_age_seconds : ℤ
  pub now_seconds : ℤ
  pub iso_string : Value → String
  pub read_constraints : List Value → List RawConstraint

module _ (r : X509Receiver) where
  abbrev pub policy_of : X509Issuer → String
  policy_of issuer =
      or_default r.option_policy
        (or_default issuer.revocation_policy (or_default r.environment_policy "soft-fail"))

  -- `checkX509Revocation`: none where it passes.
  abbrev pub row_error : X509Issuer → RevokedRow → Option ErrorCode
  row_error issuer listed = some credential_revoked
  row_error issuer not_listed = none
  row_error issuer query_failed =
      if str_eq (policy_of issuer) "hard-fail" then some x509_revocation_unavailable else none

  unfoldable pub check_x509_revocation : String → X509Issuer → Option ErrorCode
  check_x509_revocation fingerprint issuer =
      if r.skip_revocation then none else row_error issuer (r.revoked_certificate fingerprint)

  abbrev pub anchor_options : X509Issuer → AnchorOptions
  anchor_options issuer = record {
    pem_sources = or_default issuer.trust_anchor_pem r.trust_anchors_pem ∷ r.other_pems;
    fingerprint_sources =
        or_default issuer.trust_anchor_sha256 r.trust_anchor_sha256 ∷ r.other_fingerprints;
    enforce_key_usage = r.enforce_key_usage;
  }

module _ (r : X509Receiver) (presenter : Option String) (skip_proof : Bool)
    (permissions constraints payload : Value) where
  abbrev pub verified_permissions : Value
  unfolding is_truthy get
  verified_permissions = or_value (member "permissions" payload) permissions

  abbrev pub verified_constraints : Value
  unfolding is_truthy get
  verified_constraints = or_value (member "constraints" payload) constraints

  abbrev x509_time_of : Value → Option String
  x509_time_of v = if is_truthy v then some (r.iso_string v) else none

  abbrev pub x509_normalized : Payload
  x509_normalized = record {
    issuer_id = text_in (member "iss" payload);
    agent_id = text_in (member "sub" payload);
    credential_id = text_in (member "jti" payload);
    permissions = map text_in (items verified_permissions);
    constraints = normalize_constraints (r.read_constraints (items verified_constraints));
    valid_from = x509_time_of (member "nbf" payload);
    valid_until = x509_time_of (member "exp" payload);
    trust_tier = 2;
    delegated_from = text_in (or_value (member "delegatedFrom" payload) null);
    audience = or_value (member "aud" payload) null;
  }

  abbrev pub x509_proof_target : ProofTarget
  x509_proof_target = record {
    credential_id = member "jti" payload;
    presenter_id = elim presenter [ none ↦ "" | some p ↦ p ];
    request_hash = r.request_hash;
    max_age_seconds = r.max_age_seconds;
    now_seconds = r.now_seconds;
  }

  abbrev pub x509_possession : Bool
  x509_possession =
      let key = extract_confirmation_jwk payload null in
      verify_proof_of_possession r.runtime skip_proof (is_truthy key) r.require_proof
        x509_proof_target (r.proof key)

  -- Constraints that are no array throw in `normalizeConstraints`.
  unfoldable pub x509_proof_step : Option Verification
  unfolding verify_proof_of_possession extract_confirmation_jwk normalize_constraints
      verified_permissions verified_constraints is_truthy get
  x509_proof_step =
      if not x509_possession
      then some (rejected proof_of_possession_failed)
      else if is_array verified_constraints
      then some (verified x509_normalized)
      else none

  -- `presenterId && verifiedPayload.sub !== presenterId`
  abbrev pub x509_bound : Option String → Bool
  x509_bound none = true
  x509_bound (some p) = is_blank p || is_text p (member "sub" payload)

  unfoldable pub x509_subject_step : Option Verification
  unfolding x509_proof_step get
  x509_subject_step =
      if x509_bound presenter then x509_proof_step else some (rejected subject_binding_mismatch)

  abbrev pub x509_revocation_step : Option ErrorCode → Option Verification
  unfolding x509_subject_step
  x509_revocation_step (some code) = some (rejected code)
  x509_revocation_step none = x509_subject_step

  -- Permissions that are no array throw at `filter`.
  unfoldable pub x509_trust_step : X509Issuer → Certificate → Option Verification
  unfolding x509_revocation_step check_x509_revocation certificate_fingerprint_sha256
      verified_permissions includes_value validate_audience get
  x509_trust_step issuer leaf =
      if not (is_array verified_permissions)
      then none
      else if not
          (every (includes_value issuer.trusted_for_permissions) (items verified_permissions))
      then some (rejected issuer_untrusted)
      else if not (validate_audience (member "aud" payload) r.audiences)
      then some (rejected audience_mismatch)
      else x509_revocation_step
          (check_x509_revocation r (certificate_fingerprint_sha256 r.platform leaf) issuer)

module _ (r : X509Receiver) (credential : String) (presenter : Option String) (skip_proof : Bool)
    (permissions constraints : Value) (iss : String) where
  abbrev pub x509_signed_step : X509Issuer → Certificate → JwtError ⊎ Value → Option Verification
  unfolding jwt_error_code x509_trust_step
  x509_signed_step issuer leaf (inl error) = some (rejected (jwt_error_code error))
  x509_signed_step issuer leaf (inr payload) =
      x509_trust_step r presenter skip_proof permissions constraints payload issuer leaf

  abbrev pub x509_identity_step :
      X509Issuer → Certificate → Option (Option IdentityCheck) → Option Verification
  unfolding x509_signed_step
  x509_identity_step issuer leaf none = none
  x509_identity_step issuer leaf (some none) = some (rejected x509_subject_mismatch)
  x509_identity_step issuer leaf (some (some check)) =
      x509_signed_step issuer leaf (r.jwt_verify credential leaf.public_key iss)

  unfoldable pub x509_chain_step : X509Issuer → ChainCheck → Option Verification
  unfolding x509_identity_step validate_certificate_identity
  x509_chain_step issuer (chain_fail code) = some (rejected code)
  x509_chain_step issuer (chain_pass leaf fingerprint) =
      x509_identity_step issuer leaf (validate_certificate_identity r.platform leaf iss issuer)

  unfoldable pub x509_issuer_step : Value → Option X509Issuer → Option Verification
  unfolding x509_chain_step verify_x509_chain_from_header
  x509_issuer_step header none = some (rejected issuer_untrusted)
  x509_issuer_step header (some issuer) =
      x509_chain_step issuer
        (verify_x509_chain_from_header r.platform header (anchor_options r issuer))

  unfoldable pub verify_x509_jwt : Value → Option Verification
  unfolding x509_issuer_step
  verify_x509_jwt header = x509_issuer_step header (r.x509_issuer iss)
