-- ===== src/Evaluate/Workflows/Policies.antt =====
-- What the policy query of POST /evaluate/workflow finds.
use aiagent_portable_authori.Base.{
  String, true, ◌≡◌, refl, Option, none, some, List, arith, str_eq, eq_iff, find?, find?-test,
}
use aiagent_portable_authori.Workflow.{WorkflowPolicy}
use aiagent_portable_authori.Evaluate.Workflows.{
  PolicyRow, found, is_active_row, loaded_row, load_policy,
}

-- A policy that stands in an active row of that identifier.
abbrev pub IsActivePolicy : String → WorkflowPolicy → Type 0
IsActivePolicy policy_id policy =
    (row : PolicyRow) × (row.id ≡ policy_id) × (row.active ≡ true) × (row.policy ≡ policy)

loaded_row-IsActivePolicy :
    (policy_id : String) (o : Option PolicyRow) (policy : WorkflowPolicy)
    → ((row : PolicyRow) → o ≡ some row → is_active_row policy_id row ≡ true)
    → loaded_row o ≡ found policy
    → IsActivePolicy policy_id policy
loaded_row-IsActivePolicy policy_id none policy active h = ground arith
loaded_row-IsActivePolicy policy_id (some row) policy active h =
    let fits = active row refl in
    let same : str_eq row.id policy_id ≡ true = ground (arith, fits) in
    (row, (eq_iff row.id policy_id).0 same, ground (arith, fits), cc)

pub load_policy-IsActivePolicy :
    (rows : Option (List PolicyRow)) (policy_id : String) (policy : WorkflowPolicy)
    → load_policy rows policy_id ≡ found policy
    → IsActivePolicy policy_id policy
unfolding load_policy
load_policy-IsActivePolicy none policy_id policy h = ground arith
load_policy-IsActivePolicy (some rows) policy_id policy h =
    loaded_row-IsActivePolicy policy_id (find? (is_active_row policy_id) rows) policy
      (find?-test (is_active_row policy_id) rows) h
