-- ===== src/Evaluate/Batch.antt =====
-- POST /evaluate/batch: a delegation chain is verified, and its leaf is judged.
pub mod Laws
use aiagent_portable_authori.Base.{
  ℕ, String, Bool, Option, none, some, List, [], ◌∷◌, if◌then◌else◌, is_empty,
}
use aiagent_portable_authori.Codes.{ErrorCode, delegation_widened, internal_error}
use aiagent_portable_authori.Value.{is_blank}
use aiagent_portable_authori.Payload.{Payload}
use aiagent_portable_authori.Delegation.Chain.{
  Verifier, ChainResult, chain_ok, chain_error, DelegationConfig, verify_delegation_chain,
}
use aiagent_portable_authori.Evaluate.{
  Store, Response, Engine, Body, Route, batch, AuditRecord, respond, unverified, judge,
  invalid_request, is_complete, permission_step, request_idempotency_key,
}

-- A chain that widens authority is a decision; one that does not verify is a request in error.
abbrev pub chain_status : ErrorCode → ℕ
chain_status delegation_widened = 200
chain_status _ = 422

abbrev depth_or_zero : Option ℕ → ℕ
depth_or_zero none = 0
depth_or_zero (some n) = n

-- A chain without credentials has no payload, and the code that reads it throws.
unfoldable pub chain_step : Engine → Body → Store → ChainResult → Store × Response
unfolding permission_step request_idempotency_key respond
chain_step e body s (chain_error code depth) =
    respond e.signs s
      (unverified body.request_context (depth_or_zero depth) code (chain_status code))
chain_step e body s (chain_ok none depth) =
    (s, record { status = 500; decision = none; error = some internal_error })
chain_step e body s (chain_ok (some payload) depth) = judge e (batch depth) body s payload

-- POST /evaluate/batch
unfoldable pub evaluate_batch :
    Engine → Verifier → DelegationConfig → List String → Body → Store → Store × Response
unfolding chain_step is_complete verify_delegation_chain
evaluate_batch e verify config credentials body s =
    if is_empty credentials
    then (s, invalid_request)
    else if is_complete body.request_context
    then (if is_blank body.presenter_id
        then (s, invalid_request)
        else chain_step e body s
            (verify_delegation_chain e.runtime verify config credentials body.presenter_id))
    else (s, invalid_request)
