-- ===== src/Evaluate/Laws.antt =====
-- Laws of the steps that the evaluation endpoints share.
pub mod Single
pub mod Trust
pub mod Profiles
use aiagent_portable_authori.Base.{
  ℕ, String, Bool, true, false, ◌≡◌, refl, sym, ◌∙◌, ap, Option, none, some, List, [], ◌∷◌, arith,
  All, filter, if_holds, if◌then◌else◌,
}
use aiagent_portable_authori.Codes.{ErrorCode}
use aiagent_portable_authori.Value.{Value, Fields, obj, get, includes_value}
use aiagent_portable_authori.Payload.{Payload}
use aiagent_portable_authori.Evaluator.{CheckResult, Evaluation, evaluate_constraints}
use aiagent_portable_authori.Evaluator.Laws.{Holds, evaluate_constraints_iff}
use aiagent_portable_authori.LocalPolicy.{
  Merge, apply_local_policy_merge, apply_local_policy_merge_iff, PolicyHolds, applies,
}
use aiagent_portable_authori.Workflow.{Decision, allow, deny}
use aiagent_portable_authori.Stateful.Postgres.{Tables}
use aiagent_portable_authori.Stateful.Authorize.{
  Outcome, allowed, refused, evaluate_stateful_constraints,
}
use aiagent_portable_authori.Stateful.Authorize.Laws.{evaluate_stateful_constraints-refused}
use aiagent_portable_authori.Evaluate.{
  AuditRecord, Store, Response, Engine, Route, respond, finish, stateful_step, policy_step,
  constraint_step, permission_step, action_text,
}

-- One record of the very decision, or no decision and no record.
abbrev pub AuditedAs : Store → Store → Response → Option Decision → Type 0
AuditedAs before after r none = after.audit ≡ before.audit
AuditedAs before after r (some d) =
    (record_ : AuditRecord) × (after.audit ≡ record_ ∷ before.audit)
    × (record_.decision ≡ d)
    × (record_.error_code ≡ r.error)
    × (record_.http_status ≡ r.status)

abbrev pub Audited : Store → Store × Response → Type 0
Audited before out = AuditedAs before out.0 out.1 out.1.decision

pub respond-Audited :
    (signs : AuditRecord → Bool) (before s : Store) (r : AuditRecord)
    → s.audit ≡ before.audit
    → Audited before (respond signs s r)
unfolding respond
respond-Audited signs before s r same =
    if_holds (Audited before) (signs r) (λ _. (r, ap (λ rs. r ∷ rs) same, refl, refl, refl))
      (λ _. same)

pub respond-decision :
    (signs : AuditRecord → Bool) (s : Store) (r : AuditRecord) (d : Decision)
    → (respond signs s r).1.decision ≡ some d
    → r.decision ≡ d
unfolding respond
respond-decision signs s r d h = ground arith

pub respond-tables :
    (signs : AuditRecord → Bool) (s : Store) (r : AuditRecord)
    → (respond signs s r).0.tables ≡ s.tables
unfolding respond
respond-tables signs s r = ground arith

module _ (e : Engine) (route : Route) (payload : Payload) (ctx : Fields) (key : String) where
  abbrev pub reservation : Tables → Tables × Outcome
  reservation t =
      evaluate_stateful_constraints e.runtime e.platform e.mappings e.authorities t
        payload.constraints (obj ctx) payload e.time key

  -- All that an allowance rests on: the permission, every constraint of the credential, every
  -- constraint of every policy that applies, and the reservation.
  abbrev pub Granted : Tables → Value → Type 0
  Granted t action =
      (includes_value payload.permissions action ≡ true)
      × All (Holds e.runtime e.mappings (obj ctx)) payload.constraints
      × All (PolicyHolds e.runtime e.mappings (obj ctx))
          (filter (applies (action_text (get "action" ctx)) payload.permissions) e.policies)
      × ((reservation t).1 ≡ allowed)

  abbrev merged : Merge
  merged =
      apply_local_policy_merge e.runtime e.mappings (obj ctx) payload
        (action_text (get "action" ctx)) e.policies

  finish-Audited :
      (s : Store) (results : List CheckResult) (merge : Merge) (r : Tables × Outcome)
      → Audited s (finish e route payload ctx key s results merge r)
  unfolding finish
  finish-Audited s results merge (t, refused code) = respond-Audited e.signs s _ _ refl
  finish-Audited s results merge (t, allowed) = respond-Audited e.signs s _ _ refl

  -- Every decision about a verified credential stands in one new audit record, with its error code
  -- and its status; an answer without a decision leaves the audit records as they were.
  pub permission_step-Audited :
      (s : Store) (action : Value) → Audited s (permission_step e route payload ctx key s action)
  unfolding permission_step constraint_step policy_step stateful_step
  permission_step-Audited s action =
      let evaluation = evaluate_constraints e.runtime e.mappings payload.constraints (obj ctx) in
      if_holds (Audited s) (includes_value payload.permissions action)
        (λ _.
          if_holds (Audited s) evaluation.pass
            (λ _.
              if_holds (Audited s) merged.denied (λ _. respond-Audited e.signs s s _ refl)
                (λ _. finish-Audited s _ merged (reservation s.tables)))
            (λ _. respond-Audited e.signs s s _ refl))
        (λ _. respond-Audited e.signs s s _ refl)

  abbrev KeptOnDenial : Store → Store × Response → Type 0
  KeptOnDenial s out = out.1.decision ≡ some deny → out.0.tables ≡ s.tables

  finish-tables :
      (s : Store) (results : List CheckResult) (merge : Merge) (r : Tables × Outcome)
      → (finish e route payload ctx key s results merge r).0.tables ≡ r.0
  unfolding finish
  finish-tables s results merge (t, refused code) = respond-tables e.signs _ _
  finish-tables s results merge (t, allowed) = respond-tables e.signs _ _

  finish-deny :
      (s : Store) (results : List CheckResult) (merge : Merge) (r : Tables × Outcome)
      → (finish e route payload ctx key s results merge r).1.decision ≡ some deny
      → (code : ErrorCode) × (r.1 ≡ refused code)
  unfolding finish
  finish-deny s results merge (t, refused code) h = (code, refl)
  finish-deny s results merge (t, allowed) h =
      let bad : allow ≡ deny = respond-decision e.signs _ _ deny h in cc

  finish-kept :
      (s : Store) (results : List CheckResult) (merge : Merge)
      → KeptOnDenial s (finish e route payload ctx key s results merge (reservation s.tables))
  finish-kept s results merge h =
      let (code, e_refused) = finish-deny s results merge (reservation s.tables) h in
      finish-tables s results merge (reservation s.tables)
      ∙ evaluate_stateful_constraints-refused e.runtime e.platform e.mappings e.authorities s.tables
          payload.constraints (obj ctx) payload e.time key code e_refused

  pub permission_step-kept :
      (s : Store) (action : Value)
      → (permission_step e route payload ctx key s action).1.decision ≡ some deny
      → (permission_step e route payload ctx key s action).0.tables ≡ s.tables
  unfolding permission_step constraint_step policy_step stateful_step
  permission_step-kept s action =
      let evaluation = evaluate_constraints e.runtime e.mappings payload.constraints (obj ctx) in
      if_holds (KeptOnDenial s) (includes_value payload.permissions action)
        (λ _.
          if_holds (KeptOnDenial s) evaluation.pass
            (λ _.
              if_holds (KeptOnDenial s) merged.denied (λ _ _. respond-tables e.signs s _)
                (λ _. finish-kept s _ merged))
            (λ _ _. respond-tables e.signs s _))
        (λ _ _. respond-tables e.signs s _)

  finish-allow :
      (s : Store) (results : List CheckResult) (merge : Merge) (r : Tables × Outcome)
      → (finish e route payload ctx key s results merge r).1.decision ≡ some allow
      → r.1 ≡ allowed
  unfolding finish
  finish-allow s results merge (t, allowed) h = refl
  finish-allow s results merge (t, refused code) h =
      let bad : deny ≡ allow = respond-decision e.signs _ _ allow h in cc

  abbrev GrantedOnAllow : Store → Value → Store × Response → Type 0
  GrantedOnAllow s action out = out.1.decision ≡ some allow → Granted s.tables action

  denied :
      (s : Store) (action : Value) (r : AuditRecord)
      → r.decision ≡ deny
      → GrantedOnAllow s action (respond e.signs s r)
  denied s action r d h =
      let bad : deny ≡ allow = sym d ∙ respond-decision e.signs s r allow h in cc

  pub permission_step-allow :
      (s : Store) (action : Value)
      → (permission_step e route payload ctx key s action).1.decision ≡ some allow
      → Granted s.tables action
  unfolding permission_step constraint_step policy_step stateful_step
  permission_step-allow s action =
      let evaluation = evaluate_constraints e.runtime e.mappings payload.constraints (obj ctx) in
      if_holds (GrantedOnAllow s action) (includes_value payload.permissions action)
        (λ included.
          if_holds (GrantedOnAllow s action) evaluation.pass
            (λ passes.
              if_holds (GrantedOnAllow s action) merged.denied (λ _. denied s action _ refl)
                (λ undenied h. (
                  included,
                  (evaluate_constraints_iff e.runtime e.mappings (obj ctx) payload.constraints).0
                      passes,
                  (apply_local_policy_merge_iff e.runtime e.mappings (obj ctx) payload
                        (action_text (get "action" ctx)) e.policies).0
                      undenied,
                  finish-allow s _ merged (reservation s.tables) h,
                )))
            (λ _. denied s action _ refl))
        (λ _. denied s action _ refl)
