-- ===== src/A2a/Status.antt =====
-- extensions/a2a/sdk/src/index.js: error bodies and tasks (`buildGoogleRpcStatus`,
-- `mapEngineDecisionToA2aError`, `buildCompletedTask`), with the tables of codes. The texts of
-- messages are left out.
pub mod Laws
use aiagent_portable_authori.Base.{
  ℕ, String, Bool, true, false, Option, none, some, List, [], ◌∷◌, if◌then◌else◌, ◌==◌,
}
use aiagent_portable_authori.Base.Assoc.{lookup}
use aiagent_portable_authori.Value.{
  Value, Fields, nil, field, str, arr, obj, get, member, spread, is_truthy, if_truthy, or_value,
}
use aiagent_portable_authori.A2a.{extension_uri}

-- `grpcCodeByHttpStatus.get(httpStatus) || "UNKNOWN"`
abbrev grpc_codes : List (ℕ × String)
grpc_codes =
    (400, "INVALID_ARGUMENT")
    ∷ (401, "UNAUTHENTICATED")
    ∷ (403, "PERMISSION_DENIED")
    ∷ (404, "NOT_FOUND")
    ∷ (409, "ALREADY_EXISTS")
    ∷ (412, "FAILED_PRECONDITION")
    ∷ (422, "INVALID_ARGUMENT")
    ∷ (500, "INTERNAL")
    ∷ (503, "UNAVAILABLE")
    ∷ []

unfoldable grpc_code_in : List (ℕ × String) → ℕ → String
grpc_code_in [] status = "UNKNOWN"
grpc_code_in (entry ∷ entries) status =
    if entry.0 == status then entry.1 else grpc_code_in entries status

unfoldable pub grpc_code : ℕ → String
unfolding grpc_code_in
grpc_code status = grpc_code_in grpc_codes status

-- A status and a reason.
pub record Mapped : Type 0 where
  pub http_status : ℕ
  pub reason : String

abbrev mapped : ℕ → String → Mapped
mapped status reason = record { http_status = status; reason = reason }

abbrev pub engine_error_map : List (String × Mapped)
engine_error_map =
    ("authorization_denied", mapped 403 "PORTAUTH_AUTHORIZATION_DENIED")
    ∷ ("validation_error", mapped 400 "PORTAUTH_INVALID_REQUEST")
    ∷ ("credential_incomplete", mapped 422 "PORTAUTH_CREDENTIAL_INCOMPLETE")
    ∷ ("signature_invalid", mapped 401 "PORTAUTH_SIGNATURE_INVALID")
    ∷ ("credential_expired", mapped 401 "PORTAUTH_CREDENTIAL_EXPIRED")
    ∷ ("issuer_untrusted", mapped 401 "PORTAUTH_ISSUER_UNTRUSTED")
    ∷ ("audience_mismatch", mapped 401 "PORTAUTH_AUDIENCE_MISMATCH")
    ∷ ("proof_of_possession_failed", mapped 401 "PORTAUTH_PROOF_OF_POSSESSION_FAILED")
    ∷ ("subject_binding_mismatch", mapped 401 "PORTAUTH_SUBJECT_BINDING_MISMATCH")
    ∷ ("credential_revoked", mapped 401 "PORTAUTH_CREDENTIAL_REVOKED")
    ∷ ("tier1_revocation_unavailable", mapped 503 "PORTAUTH_REVOCATION_UNAVAILABLE")
    ∷ ("x509_revocation_unavailable", mapped 503 "PORTAUTH_REVOCATION_UNAVAILABLE")
    ∷ ("permission_denied", mapped 403 "PORTAUTH_PERMISSION_DENIED")
    ∷ ("constraint_failed", mapped 403 "PORTAUTH_CONSTRAINT_FAILED")
    ∷ ("context_field_missing", mapped 400 "PORTAUTH_CONTEXT_FIELD_MISSING")
    ∷ ("numeric_limit_exceeded", mapped 403 "PORTAUTH_NUMERIC_LIMIT_EXCEEDED")
    ∷ ("semantic_identifier_unknown", mapped 403 "PORTAUTH_SEMANTIC_IDENTIFIER_UNKNOWN")
    ∷ ("temporal_window_violated", mapped 403 "PORTAUTH_TEMPORAL_WINDOW_VIOLATED")
    ∷ ("enumerated_list_violated", mapped 403 "PORTAUTH_ENUMERATED_LIST_VIOLATED")
    ∷ ("pattern_violated", mapped 403 "PORTAUTH_PATTERN_VIOLATED")
    ∷ ("cumulative_limit_exceeded", mapped 403 "PORTAUTH_CUMULATIVE_LIMIT_EXCEEDED")
    ∷ ("usage_limit_exceeded", mapped 403 "PORTAUTH_USAGE_LIMIT_EXCEEDED")
    ∷ ("stateful_limit_exceeded", mapped 403 "PORTAUTH_STATEFUL_LIMIT_EXCEEDED")
    ∷ ("local_policy_denied", mapped 403 "PORTAUTH_LOCAL_POLICY_DENIED")
    ∷ ("delegation_widened", mapped 403 "PORTAUTH_DELEGATION_WIDENED")
    ∷ ("delegation_chain_broken", mapped 401 "PORTAUTH_DELEGATION_CHAIN_BROKEN")
    ∷ ("delegation_depth_exceeded", mapped 403 "PORTAUTH_DELEGATION_DEPTH_EXCEEDED")
    ∷ ("audit_signing_failed", mapped 500 "PORTAUTH_AUDIT_SIGNING_FAILED")
    ∷ []

-- `buildGoogleRpcStatus`, with `engineError`, `auditRecordId` and `metadata`.
unfoldable pub build_google_rpc_status : ℕ → String → Value → Value → Fields → Value
unfolding grpc_code spread is_truthy
build_google_rpc_status status reason engine_error audit_record_id metadata =
    let info = obj (
      field "@type" (str "type.googleapis.com/google.rpc.ErrorInfo") (
        field "reason" (str reason) (
          field "domain" (str "aiagent-portable-authorization") (
            field "metadata"
              (obj (
                spread
                  (if_truthy "engineError" engine_error
                    (if_truthy "auditRecordId" audit_record_id nil))
                  metadata))
              nil)))) in
    obj (
      field "error"
        (obj
          (field "code" (str (grpc_code status)) (field "details" (arr (field "0" info nil)) nil)))
        nil)

-- `engineErrorMap.get(engineError)`: only a text is found.
unfoldable pub find_error : Value → Option Mapped
unfolding lookup
find_error (str s) = lookup s engine_error_map
find_error _ = none

abbrev or_mapped : Option Mapped → ℕ → Mapped
or_mapped (some m) status = m
or_mapped none status = mapped status "PORTAUTH_AUTHORIZATION_DENIED"

-- `engineBody.error || "authorization_denied"`
abbrev pub engine_error_of : Value → Value
unfolding is_truthy get
engine_error_of body = or_value (member "error" body) (str "authorization_denied")

-- The status and the body.
unfoldable pub map_engine_decision_to_a2a_error : Value → ℕ → ℕ × Value
unfolding find_error build_google_rpc_status get
map_engine_decision_to_a2a_error body fallback =
    let m = or_mapped (find_error (engine_error_of body)) fallback in
    (
      m.http_status,
      build_google_rpc_status m.http_status m.reason (engine_error_of body)
          (member "auditRecordId" body) nil,
    )

-- The message in a task's status.
unfoldable pub status_message : Value → Value → String → Fields → Fields
status_message task_id context_id message_id metadata = field "messageId" (str message_id) (
    field "contextId" context_id (
      field "taskId" task_id (
        field "role" (str "ROLE_AGENT") (
          field "extensions" (arr (field "0" (str extension_uri) nil))
            (field "metadata" (obj metadata) nil)))))

unfoldable pub task_of : Value → Value → String → Fields → Fields → Value
task_of task_id context_id state message metadata = obj (
    field "id" task_id (
      field "contextId" context_id (
        field "status" (obj (field "state" (str state) (field "message" (obj message) nil)))
          (field "metadata" (obj metadata) nil))))

-- `buildCompletedTask` for a message that has a `taskId` and a `contextId`, and its `decision`
-- "allow".
unfoldable pub build_completed_task : Value → Value → String → Value → Fields → Value
unfolding task_of status_message spread is_truthy
build_completed_task task_id context_id message_id audit_record_id metadata =
    let decision =
      field "portauthDecision" (str "allow") (if_truthy "auditRecordId" audit_record_id nil) in
    task_of task_id context_id "TASK_STATE_COMPLETED"
      (status_message task_id context_id message_id decision) (spread decision metadata)
