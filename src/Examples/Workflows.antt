-- ===== src/Examples/Workflows.antt =====
-- Runs of the workflow endpoint.
use aiagent_portable_authori.Base.{true, false, ◌≡◌, refl, Option, none, some, List, [], ◌∷◌}
use aiagent_portable_authori.Base.Assoc.{lookup}
use aiagent_portable_authori.Value.{obj, get, is_truthy, includes_value, to_number}
use aiagent_portable_authori.Semantic.{
  resolve_semantic_field, default_mappings, resolve_direct_path,
}
use aiagent_portable_authori.Context.{enrich_request_context}
use aiagent_portable_authori.Evaluator.{
  evaluate_constraints, evaluate_all, evaluate_constraint, evaluate_numeric_limit, on_field,
  resolve_field, numeric_test, compare_by, is_stateful_constraint,
}
use aiagent_portable_authori.Delegation.Chain.{Verification}
use aiagent_portable_authori.Workflow.{WorkflowPolicy, allow, combine_sub_decisions}
use aiagent_portable_authori.Evaluate.{Store, Response, invalid_request}
use aiagent_portable_authori.Evaluate.Workflows.{
  Entry, PolicyRow, found, load_policy, evaluate_workflow,
}
use aiagent_portable_authori.Evaluate.Workflows.Policies.{IsActivePolicy}
use aiagent_portable_authori.Evaluate.Workflows.Laws.{AllowedUnder, evaluate_workflow_allow}
use aiagent_portable_authori.Examples.{engine, request, envelope, store, verifier, roles}

abbrev check : Entry → Verification
check entry = verifier entry.credential (some entry.presenter_id) false

-- The policy, which an inactive row of the same identifier precedes.
abbrev rows : Option (List PolicyRow)
rows = some (
    record { id = "two-man-rule"; policy = record roles { required_roles = [] }; active = false }
    ∷ record { id = "two-man-rule"; policy = roles; active = true }
    ∷ [])

abbrev pair : List Entry
pair =
    record { credential = "root"; presenter_id = "agent-a"; role = "adjuster" }
    ∷ record { credential = "leaf"; presenter_id = "agent-b"; role = "manager" }
    ∷ []

abbrev answer_or_refusal : Option (Store × Response) → Store × Response
answer_or_refusal none = (store, invalid_request)
answer_or_refusal (some r) = r

abbrev answer : Store × Response
answer =
    answer_or_refusal
      (evaluate_workflow engine check rows "two-man-rule" pair (obj request) envelope store)

run_answered :
    evaluate_workflow engine check rows "two-man-rule" pair (obj request) envelope store
    ≡ some answer
unfolding evaluate_workflow combine_sub_decisions is_truthy get includes_value
    enrich_request_context evaluate_constraints evaluate_all evaluate_constraint
    evaluate_numeric_limit on_field resolve_field resolve_semantic_field lookup default_mappings
    resolve_direct_path numeric_test to_number compare_by is_stateful_constraint load_policy
run_answered = refl

run_allowed : answer.1.decision ≡ some allow
unfolding evaluate_workflow combine_sub_decisions is_truthy get includes_value
    enrich_request_context evaluate_constraints evaluate_all evaluate_constraint
    evaluate_numeric_limit on_field resolve_field resolve_semantic_field lookup default_mappings
    resolve_direct_path numeric_test to_number compare_by is_stateful_constraint load_policy
run_allowed = refl

evaluate_workflow_allow_example :
    (policy : WorkflowPolicy) × (load_policy rows "two-man-rule" ≡ found policy)
    × IsActivePolicy "two-man-rule" policy
    × AllowedUnder engine check rows "two-man-rule" pair (obj request) envelope store policy
evaluate_workflow_allow_example =
    evaluate_workflow_allow engine check rows "two-man-rule" pair (obj request) envelope store
      answer.0 answer.1 run_answered run_allowed
