-- ===== src/Credential/VcJose.antt =====
-- portauth-engine/src/services/credentialVerifier.js, `verifyVcJose`: a verifiable credential that is
-- secured with JOSE under the key of a DID. The resolution of DIDs, the signature check, the table of
-- trusted issuers and the net of the status list are arguments. An exception gives none, and a claim
-- that should be a text and is not stands in the normalized payload as the empty text.
pub mod Claims
pub mod Laws
use aiagent_portable_authori.Base.{
  String, Bool, true, false, not, ◌&&◌, ◌||◌, Option, none, some, List, [], ◌∷◌, map, any, every,
  is_empty, if◌then◌else◌, str_eq, ◌⊎◌, inl, inr,
}
use aiagent_portable_authori.Base.Int.{ℤ}
use aiagent_portable_authori.Base.Text.{codes, contains}
use aiagent_portable_authori.Codes.{
  ErrorCode, signature_invalid, credential_revoked, credential_incomplete, issuer_untrusted,
  audience_mismatch, subject_binding_mismatch, proof_of_possession_failed, unsupported_did_method,
  did_resolution_failed,
}
use aiagent_portable_authori.Value.{
  Value, null, str, arr, Runtime, get, member, elements, items, is_array, is_object, is_string,
  is_text, is_truthy, is_blank, or_value, text_in, includes_value,
}
use aiagent_portable_authori.Payload.{Payload}
use aiagent_portable_authori.Credential.VcJose.Claims.{
  extract_confirmation_jwk, agent_of, permissions_of, constraints_of, credential_id_of,
  delegated_from_of, status_entry_of, has_credential_type,
}
use aiagent_portable_authori.Delegation.Chain.{Verification, verified, rejected}
use aiagent_portable_authori.StatusList.Check.{StatusNet, Cache, Status, check_bitstring_status}
use aiagent_portable_authori.Credential.{
  JwtError, jwt_error_code, ProofClaims, ProofTarget, RawConstraint, normalize_constraints,
  validate_audience, verify_proof_of_possession,
}

-- How the resolution of a DID, the extraction of its key, and `jwtVerify` fail.
pub data DidError : Type 0 where
  unsupported_method resolution_failed no_verification_method key_extraction_failed : DidError
  jws_error : JwtError → DidError

unfoldable pub did_error_code : DidError → ErrorCode
unfolding jwt_error_code
did_error_code unsupported_method = unsupported_did_method
did_error_code resolution_failed = did_resolution_failed
did_error_code no_verification_method = signature_invalid
did_error_code key_extraction_failed = signature_invalid
did_error_code (jws_error error) = jwt_error_code error

-- The row of portauth_trusted_issuers at tier 3.
pub record VcIssuer : Type 0 where
  pub trusted_for_permissions : List String
  pub governance_status : String

-- What verification reads besides the credential. `proof` is the payload of the presented proof if it
-- verifies under a key.
pub record VcReceiver : Type 0 where
  pub runtime : Runtime
  pub audiences : List String
  pub resolve_did : String → DidError ⊎ Value
  pub extract_verification_key : Value → Value → DidError ⊎ Value
  pub jwt_verify : String → Value → String → DidError ⊎ Value
  pub vc_issuer : String → Option VcIssuer
  pub skip_revocation : Bool
  pub status_net : StatusNet
  pub require_proof : Bool
  pub proof : Value → Option ProofClaims
  pub request_hash : String
  pub max_age_seconds : ℤ
  pub now_seconds : ℤ
  pub iso_string : Value → String
  pub read_constraints : List Value → List RawConstraint

-- The status list cache afterwards, and the result.
abbrev pub Verified : Type 0
Verified = Cache × Option Verification

-- `!permissions || !Array.isArray(permissions) || permissions.length === 0`, negated.
abbrev pub is_filled_array : Value → Bool
is_filled_array v = is_array v && not (is_empty (items v))

module _ (r : VcReceiver) (credential : String) (presenter : Option String) (skip_proof : Bool)
    (did : String) (payload vc : Value) (cache : Cache) where
  abbrev reject : ErrorCode → Verified
  reject code = (cache, some (rejected code))

  abbrev pub vc_proof_target : ProofTarget
  vc_proof_target = record {
    credential_id = credential_id_of payload vc;
    presenter_id = elim presenter [ none ↦ "" | some p ↦ p ];
    request_hash = r.request_hash;
    max_age_seconds = r.max_age_seconds;
    now_seconds = r.now_seconds;
  }

  abbrev pub time_of : Value → Option String
  time_of v = if is_truthy v then some (r.iso_string v) else none

  abbrev pub vc_normalized : Payload
  vc_normalized = record {
    issuer_id = did;
    agent_id = text_in (agent_of payload vc);
    credential_id = text_in (credential_id_of payload vc);
    permissions = map text_in (items (permissions_of payload vc));
    constraints = normalize_constraints (r.read_constraints (items (constraints_of payload vc)));
    valid_from = time_of (member "nbf" payload);
    valid_until = time_of (member "exp" payload);
    trust_tier = 3;
    delegated_from = text_in (delegated_from_of payload vc);
    audience = or_value (member "aud" payload) null;
  }

  abbrev pub vc_possession : Bool
  vc_possession =
      let key = extract_confirmation_jwk payload vc in
      verify_proof_of_possession r.runtime skip_proof (is_truthy key) r.require_proof
        vc_proof_target (r.proof key)

  unfoldable pub vc_proof_step : Cache → Verified
  unfolding normalize_constraints verify_proof_of_possession extract_confirmation_jwk agent_of
      credential_id_of permissions_of constraints_of delegated_from_of is_truthy get
  vc_proof_step later =
      if vc_possession
      then (later, some (verified vc_normalized))
      else (later, some (rejected proof_of_possession_failed))

  -- `presenterId && agentId !== presenterId`
  abbrev pub vc_bound : Option String → Bool
  vc_bound none = true
  vc_bound (some p) = is_blank p || is_text p (agent_of payload vc)

  unfoldable pub vc_subject_step : Cache → Verified
  unfolding vc_proof_step agent_of
  vc_subject_step later =
      if vc_bound presenter
      then vc_proof_step later
      else (later, some (rejected subject_binding_mismatch))

  unfoldable pub listed_step : Cache × Status → Verified
  unfolding vc_subject_step
  listed_step (later, status) =
      if status.revoked || status.suspended
      then (later, some (rejected credential_revoked))
      else vc_subject_step later

  unfoldable pub vc_status_step : Verified
  unfolding listed_step check_bitstring_status status_entry_of is_truthy
  vc_status_step =
      if r.skip_revocation || not (is_truthy (status_entry_of payload vc))
      then vc_subject_step cache
      else listed_step (check_bitstring_status r.status_net (status_entry_of payload vc) cache)

  unfoldable pub vc_audience_step : Verified
  unfolding vc_status_step validate_audience get
  vc_audience_step =
      if validate_audience (member "aud" payload) r.audiences
      then vc_status_step
      else reject audience_mismatch

  unfoldable pub vc_issuer_step : Option VcIssuer → Verified
  unfolding vc_audience_step permissions_of includes_value
  vc_issuer_step none = reject issuer_untrusted
  vc_issuer_step (some issuer) =
      if not (str_eq issuer.governance_status "active")
      then reject issuer_untrusted
      else if every (includes_value issuer.trusted_for_permissions)
          (items (permissions_of payload vc))
      then vc_audience_step
      else reject issuer_untrusted

  unfoldable pub components_step : Verified
  unfolding vc_issuer_step agent_of permissions_of constraints_of is_truthy
  components_step =
      if not (is_truthy (agent_of payload vc))
      then reject credential_incomplete
      else if not (is_filled_array (permissions_of payload vc))
      then reject credential_incomplete
      else if not (is_array (constraints_of payload vc))
      then reject credential_incomplete
      else vc_issuer_step (r.vc_issuer did)

  unfoldable pub type_step : Option Bool → Verified
  unfolding components_step
  type_step none = (cache, none)
  type_step (some false) = reject credential_incomplete
  type_step (some true) = components_step

  unfoldable pub vc_step : Verified
  unfolding type_step has_credential_type is_truthy get
  vc_step =
      if is_truthy vc && is_object vc
      then type_step (has_credential_type (member "type" vc))
      else reject credential_incomplete

module _ (r : VcReceiver) (credential : String) (header : Value) (did : String) where
  abbrev key_step : DidError ⊎ Value → DidError ⊎ Value
  key_step (inl error) = inl error
  key_step (inr key) = r.jwt_verify credential key did

  abbrev document_step : DidError ⊎ Value → DidError ⊎ Value
  unfolding get is_truthy
  document_step (inl error) = inl error
  document_step (inr document) =
      key_step (r.extract_verification_key document (or_value (member "kid" header) null))

  -- The payload under a key of the DID's document, the one that `kid` names if there is one.
  unfoldable pub verify_did_jws : DidError ⊎ Value
  unfolding document_step
  verify_did_jws = document_step (r.resolve_did did)

module _ (r : VcReceiver) (credential : String) (presenter : Option String) (skip_proof : Bool)
    (did : String) (cache : Cache) where
  unfoldable pub signed_step : DidError ⊎ Value → Verified
  unfolding vc_step did_error_code get
  signed_step (inl error) = (cache, some (rejected (did_error_code error)))
  signed_step (inr payload) =
      vc_step r credential presenter skip_proof did payload (member "vc" payload) cache

  unfoldable pub verify_vc_jose : Value → Verified
  unfolding signed_step verify_did_jws
  verify_vc_jose header = signed_step (verify_did_jws r credential header did)
