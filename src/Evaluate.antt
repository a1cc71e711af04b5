-- ===== src/Evaluate.antt =====
-- portauth-engine/src/routes/evaluate.js, POST /evaluate and POST /evaluate/batch: verification,
-- permission, constraints, local policy and stateful authorization in this order, with the audit
-- records that they write. Verification of a credential, the signature of an audit record, the
-- mappings, the policies and the authorities are arguments; message texts are left out, and so are
-- errors that a service throws itself.
pub mod Laws
pub mod Batch
pub mod Workflows
use aiagent_portable_authori.Base.{
  ℕ, String, Bool, true, false, Option, none, some, List, [], ◌∷◌, ◌++◌, if◌then◌else◌, is_empty,
  str_eq,
}
use aiagent_portable_authori.Codes.{
  ErrorCode, validation_error, audit_signing_failed, permission_denied, local_policy_denied,
}
use aiagent_portable_authori.Value.{
  fields_of, Value, Fields, nil, undefined, str, arr, obj, get, is_truthy, is_blank, or_default,
  Runtime, includes_value,
}
use aiagent_portable_authori.Payload.{Payload}
use aiagent_portable_authori.Semantic.{Mappings}
use aiagent_portable_authori.Context.{Envelope, enrich_request_context}
use aiagent_portable_authori.Evaluator.{CheckResult, Evaluation, evaluate_constraints}
use aiagent_portable_authori.LocalPolicy.{
  Policy, Detail, no_detail, Merge, apply_local_policy_merge,
}
use aiagent_portable_authori.Workflow.{Decision, allow, deny}
use aiagent_portable_authori.Delegation.Chain.{Verification, verified, rejected}
use aiagent_portable_authori.Stateful.{Platform}
use aiagent_portable_authori.Stateful.Authority.{AuthorityNet}
use aiagent_portable_authori.Stateful.Postgres.{Tables}
use aiagent_portable_authori.Stateful.Authorize.Results.{stateful_results}
use aiagent_portable_authori.Stateful.Authorize.{
  Outcome, allowed, refused, evaluate_stateful_constraints,
}

-- A row of portauth_audit_records, without its identifier, times and signature; `subject` gives
-- the four columns that name the credential.
pub record AuditRecord : Type 0 where
  pub subject : Option Payload
  pub request_context : Value
  pub valid : Option Bool
  pub permission_matched : Option Bool
  pub constraint_results : List CheckResult
  pub local_policy_applied : Bool
  pub local_policy_detail : Detail
  pub delegation_depth : ℕ
  pub decision : Decision
  pub error_code : Option ErrorCode
  pub http_status : ℕ
  -- the empty text for all but the record of a workflow
  pub workflow_policy_id : String

-- What the engine keeps in its database: the counters and the audit records, newest first.
pub record Store : Type 0 where
  pub tables : Tables
  pub audit : List AuditRecord

pub record Response : Type 0 where
  pub status : ℕ
  pub decision : Option Decision
  pub error : Option ErrorCode

pub record Engine : Type 0 where
  pub runtime : Runtime
  pub platform : Platform
  pub mappings : Mappings
  pub authorities : AuthorityNet
  pub policies : List Policy
  pub time : ℕ
  -- does the audit key sign the record
  pub signs : AuditRecord → Bool
  -- how the database reads a value as a key, the empty text for one that is falsy
  pub key_text : Value → String

-- The body of a request; a credential, a presenter or a key that is missing is the empty text.
pub record Body : Type 0 where
  pub presenter_id : String
  pub request_context : Value
  pub idempotency_key : String
  pub idempotency_header : String
  pub envelope : Envelope

-- Which endpoint asks, and the depth of the chain.
pub data Route : Type 0 where
  single : Route
  batch : ℕ → Route

abbrev pub depth_of : Route → ℕ
depth_of single = 0
depth_of (batch n) = n

-- A single evaluation records that the credential is valid and what it is worth; a batch records a
-- permission only when it is missing.
abbrev pub recorded : Route → Bool → Option Bool
recorded single b = some b
recorded (batch _) b = none

abbrev pub recorded_detail : Route → Detail → Detail
recorded_detail single d = d
recorded_detail (batch _) d = no_detail

-- `createAuditRecord`, then the response that says the same; a record that cannot be signed is not
-- written, and the response is an error without a decision.
unfoldable pub respond : (AuditRecord → Bool) → Store → AuditRecord → Store × Response
respond signs s r =
    if signs r
    then (
      record s { audit = r ∷ s.audit },
      record { status = r.http_status; decision = some r.decision; error = r.error_code },
    )
    else (s, record { status = 500; decision = none; error = some audit_signing_failed })

abbrev pub invalid_request : Response
invalid_request = record { status = 400; decision = none; error = some validation_error }

-- An action that a permission matches is a text.
abbrev pub action_text : Value → String
action_text (str s) = s
action_text _ = ""

-- `body.idempotencyKey || header || requestContext.idempotencyKey || null`
unfoldable pub request_idempotency_key : (Value → String) → Body → Fields → String
request_idempotency_key key_text body ctx =
    or_default body.idempotency_key
      (or_default body.idempotency_header (key_text (get "idempotencyKey" ctx)))

-- `requestContext && requestContext.action && requestContext.resource`
unfoldable pub is_complete : Value → Bool
is_complete ctx =
    if is_truthy (get "action" (fields_of ctx))
    then is_truthy (get "resource" (fields_of ctx))
    else false

module _ (e : Engine) (route : Route) (payload : Payload) (ctx : Fields) (key : String) where
  -- A denial or an allowance after verification, with the results so far.
  abbrev pub judged : List CheckResult → Bool → Detail → Decision → Option ErrorCode → AuditRecord
  judged results applied detail decision code = record {
    subject = some payload;
    request_context = obj ctx;
    valid = recorded route true;
    permission_matched = recorded route true;
    constraint_results = results;
    local_policy_applied = applied;
    local_policy_detail = detail;
    delegation_depth = depth_of route;
    decision = decision;
    error_code = code;
    http_status = 200;
    workflow_policy_id = "";
  }

  unfoldable pub finish : Store → List CheckResult → Merge → Tables × Outcome → Store × Response
  unfolding respond
  finish s results merge (t, refused code) =
      respond e.signs (record s { tables = t })
        (judged results merge.applied merge.detail deny (some code))
  finish s results merge (t, allowed) =
      respond e.signs (record s { tables = t })
        (judged results merge.applied (recorded_detail route merge.detail) allow none)

  -- Stateful authorization, the last step: its results come after the others.
  abbrev pub all_results : Store → List CheckResult → List CheckResult
  unfolding stateful_results
  all_results s results =
      results
      ++ stateful_results e.runtime e.platform e.mappings e.authorities s.tables payload.constraints
          (obj ctx) payload e.time key

  unfoldable pub stateful_step : Store → List CheckResult → Merge → Store × Response
  unfolding finish all_results
  stateful_step s results merge = finish s (all_results s results) merge (
      evaluate_stateful_constraints e.runtime e.platform e.mappings e.authorities s.tables
        payload.constraints (obj ctx) payload e.time key)

  unfoldable pub policy_step : Store → List CheckResult → Merge → Store × Response
  unfolding stateful_step
  policy_step s results merge =
      if merge.denied
      then respond e.signs s (judged results true merge.detail deny (some local_policy_denied))
      else stateful_step s results merge

  unfoldable pub constraint_step : Store → Evaluation → Store × Response
  unfolding policy_step
  constraint_step s evaluation =
      if evaluation.pass
      then policy_step s evaluation.results (
          apply_local_policy_merge e.runtime e.mappings (obj ctx) payload
            (action_text (get "action" ctx)) e.policies)
      else respond e.signs s (judged evaluation.results false no_detail deny evaluation.error)

  -- A verified payload against the enriched context.
  unfoldable pub permission_step : Store → Value → Store × Response
  unfolding constraint_step
  permission_step s action =
      if includes_value payload.permissions action
      then constraint_step s
          (evaluate_constraints e.runtime e.mappings payload.constraints (obj ctx))
      else respond e.signs s (record (judged [] false no_detail deny (some permission_denied)) {
        permission_matched = some false;
      })

-- What verification rejects: a record that names no credential.
abbrev pub unverified : Value → ℕ → ErrorCode → ℕ → AuditRecord
unverified ctx depth code status = record {
  subject = none;
  request_context = ctx;
  valid = some false;
  permission_matched = none;
  constraint_results = [];
  local_policy_applied = false;
  local_policy_detail = no_detail;
  delegation_depth = depth;
  decision = deny;
  error_code = some code;
  http_status = status;
  workflow_policy_id = "";
}

-- The context that a verified payload is judged in.
abbrev pub enriched : Body → Payload → Fields
enriched body payload =
    enrich_request_context (fields_of body.request_context) payload body.presenter_id body.envelope

abbrev pub judge : Engine → Route → Body → Store → Payload → Store × Response
judge e route body s payload =
    permission_step e route payload (enriched body payload)
      (request_idempotency_key e.key_text body (enriched body payload)) s
      (get "action" (enriched body payload))

unfoldable pub verify_step : Engine → Body → Store → Verification → Store × Response
unfolding permission_step request_idempotency_key
verify_step e body s (rejected code) =
    respond e.signs s (unverified body.request_context 0 code 422)
verify_step e body s (verified payload) = judge e single body s payload

-- POST /evaluate
unfoldable pub evaluate : Engine → Verification → String → Body → Store → Store × Response
unfolding verify_step is_complete
evaluate e verification credential body s =
    if is_blank credential
    then (s, invalid_request)
    else if is_complete body.request_context
    then (if is_blank body.presenter_id
        then (s, invalid_request)
        else verify_step e body s verification)
    else (s, invalid_request)
