-- ===== src/Evaluate/Workflows.antt =====
-- POST /evaluate/workflow of portauth-engine/src/routes/evaluate.js: every credential of a workflow
-- is judged, and a combinator makes one decision of these. A record that cannot be signed is not
-- caught there: the handler throws, and gives no response (none).
pub mod Laws
pub mod Policies
use aiagent_portable_authori.Base.{
  ℕ, String, Bool, true, false, ◌||◌, not, ◌&&◌, Option, none, some, List, [], ◌∷◌, map,
  if◌then◌else◌, is_empty, str_eq, includes, find?,
}
use aiagent_portable_authori.Codes.{
  ErrorCode, validation_error, internal_error, permission_denied, workflow_policy_unknown,
  workflow_role_mismatch, workflow_denied,
}
use aiagent_portable_authori.Value.{fields_of, Value, obj, get, is_blank, includes_value}
use aiagent_portable_authori.Payload.{Payload}
use aiagent_portable_authori.Context.{Envelope, enrich_request_context}
use aiagent_portable_authori.Evaluator.{CheckResult, Evaluation, evaluate_constraints}
use aiagent_portable_authori.LocalPolicy.{no_detail}
use aiagent_portable_authori.Delegation.Chain.{Verification, verified, rejected}
use aiagent_portable_authori.Workflow.{
  Decision, allow, deny, RequiredRole, WorkflowPolicy, Coverage, covered, missing_roles,
  unexpected_roles, validate_role_coverage, combine_sub_decisions,
}
use aiagent_portable_authori.Evaluate.{
  AuditRecord, Store, Response, Engine, is_complete, invalid_request,
}

-- An element of `credentials`; what is missing is the empty text.
pub record Entry : Type 0 where
  pub credential : String
  pub presenter_id : String
  pub role : String

pub record SubDecision : Type 0 where
  pub role : String
  pub decision : Decision
  pub error : Option ErrorCode

-- What the query for the policy gives.
pub data Loaded : Type 0 where
  found : WorkflowPolicy → Loaded
  not_found not_loaded : Loaded

-- A row of portauth_workflow_policies.
pub record PolicyRow : Type 0 where
  pub id : String
  pub policy : WorkflowPolicy
  pub active : Bool

-- `WHERE id = $1 AND active = TRUE`
abbrev pub is_active_row : String → PolicyRow → Bool
is_active_row policy_id row = str_eq row.id policy_id && row.active

abbrev pub loaded_row : Option PolicyRow → Loaded
loaded_row none = not_found
loaded_row (some row) = found row.policy

-- The query for the policy over the rows of its table, or none when the query throws.
unfoldable pub load_policy : Option (List PolicyRow) → String → Loaded
load_policy none policy_id = not_loaded
load_policy (some rows) policy_id = loaded_row (find? (is_active_row policy_id) rows)

-- `(required_roles.find((r) => r.role === role) || {}).permission`
abbrev pub permission_of : Option RequiredRole → String
permission_of none = ""
permission_of (some r) = r.permission

unfoldable pub declared_permission : WorkflowPolicy → String → String
declared_permission policy role =
    permission_of (find? (λ r. str_eq r.role role) policy.required_roles)

abbrev pub denied : String → ErrorCode → SubDecision
denied role code = record { role = role; decision = deny; error = some code }

-- `createAuditRecord` outside of a try block.
unfoldable pub write_record : (AuditRecord → Bool) → Store → AuditRecord → Option Store
write_record signs s r = if signs r then some (record s { audit = r ∷ s.audit }) else none

abbrev pub Judged : Type 0
Judged = Option (Store × SubDecision)

module _ (e : Engine) (verify : Entry → Verification) (policy : WorkflowPolicy) (ctx : Value)
    (env : Envelope) where
  abbrev pub context_for : Entry → Payload → Value
  context_for entry p = obj (enrich_request_context (fields_of ctx) p entry.presenter_id env)

  abbrev pub sub_record : Entry → Payload → List CheckResult → AuditRecord
  sub_record entry p results = record {
    subject = some p;
    request_context = context_for entry p;
    valid = some true;
    permission_matched = some true;
    constraint_results = results;
    local_policy_applied = false;
    local_policy_detail = no_detail;
    delegation_depth = 0;
    decision = allow;
    error_code = none;
    http_status = 200;
    workflow_policy_id = "";
  }

  abbrev pub allowed_entry : Entry → Option Store → Judged
  allowed_entry entry none = none
  allowed_entry entry (some s) =
      some (s, record { role = entry.role; decision = allow; error = none })

  unfoldable pub entry_constraints : Store → Entry → Payload → Evaluation → Judged
  entry_constraints s entry p evaluation =
      if evaluation.pass
      then allowed_entry entry (write_record e.signs s (sub_record entry p evaluation.results))
      else some (s, record { role = entry.role; decision = deny; error = evaluation.error })

  -- The role's declared permission, the requested action, then the constraints.
  unfoldable pub entry_payload : Store → Entry → Payload → Judged
  unfolding entry_constraints write_record declared_permission
  entry_payload s entry p =
      if not (is_blank (declared_permission policy entry.role))
        && not (includes p.permissions (declared_permission policy entry.role))
      then some (s, denied entry.role permission_denied)
      else if includes_value p.permissions (get "action" (fields_of ctx))
      then entry_constraints s entry p
          (evaluate_constraints e.runtime e.mappings p.constraints (context_for entry p))
      else some (s, denied entry.role permission_denied)

  unfoldable pub entry_verified : Store → Entry → Verification → Judged
  unfolding entry_payload
  entry_verified s entry (rejected code) = some (s, denied entry.role code)
  entry_verified s entry (verified p) = entry_payload s entry p

  unfoldable pub judge_entry : Store → Entry → Judged
  unfolding entry_verified
  judge_entry s entry =
      if is_blank entry.credential || is_blank entry.presenter_id || is_blank entry.role
      then some (s, denied entry.role validation_error)
      else entry_verified s entry (verify entry)

  abbrev pub and_decision :
      SubDecision → Option (Store × List SubDecision) → Option (Store × List SubDecision)
  and_decision d none = none
  and_decision d (some (s, ds)) = some (s, d ∷ ds)

  -- The loop over the credentials.
  unfoldable pub judge_entries : Store → List Entry → Option (Store × List SubDecision)
  judge_entries s [] = some (s, [])
  judge_entries s (entry ∷ entries) = elim (judge_entry s entry) [
    | none ↦ none
    | some r ↦ and_decision r.1 (judge_entries r.0 entries)
  ]

  abbrev pub code_of : Decision → Option ErrorCode
  code_of allow = none
  code_of deny = some workflow_denied

  abbrev pub wrapping_record : Decision → AuditRecord
  wrapping_record decision = record {
    subject = none;
    request_context = ctx;
    valid = none;
    permission_matched = none;
    constraint_results = [];
    local_policy_applied = false;
    local_policy_detail = no_detail;
    delegation_depth = 0;
    decision = decision;
    error_code = code_of decision;
    http_status = 200;
    workflow_policy_id = policy.id;
  }

  abbrev pub answered : Decision → Option Store → Option (Store × Response)
  answered decision none = none
  answered decision (some s) =
      some (s, record { status = 200; decision = some decision; error = none })

  unfoldable pub conclude : Option (Store × List SubDecision) → Option (Store × Response)
  unfolding write_record
  conclude none = none
  conclude (some (s, ds)) =
      let decision = combine_sub_decisions policy (map (λ d. d.decision) ds) in
      answered decision (write_record e.signs s (wrapping_record decision))

  unfoldable pub covered_step : Store → List Entry → Coverage → Option (Store × Response)
  unfolding conclude judge_entries judge_entry
  covered_step s entries covered = conclude (judge_entries s entries)
  covered_step s entries (missing_roles _) =
      some (s, record { status = 200; decision = some deny; error = some workflow_role_mismatch })
  covered_step s entries (unexpected_roles _) =
      some (s, record { status = 200; decision = some deny; error = some workflow_role_mismatch })

unfoldable pub policy_loaded :
    Engine
    → (Entry → Verification)
    → Value
    → Envelope
    → List Entry
    → Store
    → Loaded
    → Option (Store × Response)
unfolding covered_step validate_role_coverage
policy_loaded e verify ctx env entries s not_found =
    some (s, record { status = 404; decision = none; error = some workflow_policy_unknown })
policy_loaded e verify ctx env entries s not_loaded =
    some (s, record { status = 500; decision = none; error = some internal_error })
policy_loaded e verify ctx env entries s (found policy) =
    covered_step e verify policy ctx env s entries
      (validate_role_coverage policy (map (λ c. c.role) entries))

-- POST /evaluate/workflow
unfoldable pub evaluate_workflow :
    Engine
    → (Entry → Verification)
    → Option (List PolicyRow)
    → String
    → List Entry
    → Value
    → Envelope
    → Store
    → Option (Store × Response)
unfolding policy_loaded is_complete
evaluate_workflow e verify rows policy_id entries ctx env s =
    if is_blank policy_id
    then some (s, invalid_request)
    else if is_empty entries
    then some (s, invalid_request)
    else if is_complete ctx
    then policy_loaded e verify ctx env entries s (load_policy rows policy_id)
    else some (s, invalid_request)
