-- ===== src/Codes.antt =====
-- The error codes that the engine's services return (`errorCode`, `error`), as one enumeration.
use aiagent_portable_authori.Base.{String, Option, none, some}

pub data ErrorCode : Type 0 where
  validation_error internal_error audit_signing_failed : ErrorCode
  constraint_unknown constraint_failed context_field_missing : ErrorCode
  semantic_identifier_unknown semantic_alias_missing semantic_type_mismatch : ErrorCode
  semantic_alias_conflict mapping_profile_invalid : ErrorCode
  permission_denied local_policy_denied stateful_limit_exceeded : ErrorCode
  delegation_depth_exceeded delegation_chain_broken delegation_widened : ErrorCode
  issuer_untrusted signature_invalid credential_expired credential_revoked : ErrorCode
  credential_incomplete subject_binding_mismatch audience_mismatch : ErrorCode
  proof_of_possession_failed tier1_revocation_unavailable x509_revocation_unavailable : ErrorCode
  state_authority_untrusted state_authority_unreachable state_authority_proof_invalid : ErrorCode
  workflow_policy_unknown workflow_role_mismatch workflow_denied : ErrorCode
  unsupported_did_method did_resolution_failed : ErrorCode
  x509_chain_missing x509_chain_invalid x509_chain_untrusted : ErrorCode
  x509_certificate_invalid x509_certificate_expired x509_key_usage_invalid : ErrorCode
  x509_trust_anchor_missing x509_subject_mismatch : ErrorCode
  -- The code of an error that Node throws.
  thrown_code : String → ErrorCode

-- `a || b` where `a` is an error code or nothing.
abbrev pub or_code : Option ErrorCode → ErrorCode → ErrorCode
or_code none e = e
or_code (some c) _ = c
