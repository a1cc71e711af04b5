-- ===== src/Examples/Pipeline.antt =====
-- Runs of the evaluation endpoints and of the delegation chain.
use aiagent_portable_authori.Base.{
  ℕ, true, false, ◌≡◌, refl, none, some, List, [], ◌∷◌, All, inl, ◌↔◌,
}
use aiagent_portable_authori.Base.Assoc.{lookup}
use aiagent_portable_authori.Base.Int.{pos}
use aiagent_portable_authori.Base.Num.{fin, ltb_num}
use aiagent_portable_authori.Value.{obj, get, is_truthy, includes_value, to_number, or_default}
use aiagent_portable_authori.Payload.{Payload, same_kind}
use aiagent_portable_authori.Semantic.{
  resolve_semantic_field, default_mappings, resolve_direct_path,
}
use aiagent_portable_authori.Context.{enrich_request_context}
use aiagent_portable_authori.LocalPolicy.{applies, apply_local_policy_merge, all_local_constraints}
use aiagent_portable_authori.Stateful.{
  build_candidate, scope_material, window_for_period, read_numeric_field,
}
use aiagent_portable_authori.Stateful.Postgres.{reserve}
use aiagent_portable_authori.Stateful.Authorize.{
  stateful_of, build_candidates, authority_check, authority_checks, reserve_checked,
  authorize_candidates, evaluate_stateful_constraints,
}
use aiagent_portable_authori.Evaluator.{
  evaluate_constraints, evaluate_all, evaluate_constraint, evaluate_numeric_limit, on_field,
  resolve_field, numeric_test, compare_by, is_stateful_constraint,
}
use aiagent_portable_authori.Evaluator.Laws.{Holds}
use aiagent_portable_authori.Codes.{signature_invalid}
use aiagent_portable_authori.Workflow.{allow, deny}
use aiagent_portable_authori.Delegation.{
  uses_limit, verify_attenuation, validate_delegation_link, is_more_restrictive,
  numeric_attenuation, constraints_same_target, kept_by, restricts,
}
use aiagent_portable_authori.Delegation.Keeps.{Keeps}
use aiagent_portable_authori.Delegation.Sound.{is_more_restrictive-Holds}
use aiagent_portable_authori.Delegation.Authority.{Comparable, verify_attenuation-authority}
use aiagent_portable_authori.Delegation.Chain.{
  verified, rejected, chain_ok, verify_delegation_chain,
}
use aiagent_portable_authori.Delegation.Chain.Laws.{
  Verifies, Linked, Grants, last_of, verify_delegation_chain_iff, verify_delegation_chain-authority,
}
use aiagent_portable_authori.Evaluate.{evaluate, enriched, action_text}
use aiagent_portable_authori.Evaluate.Batch.{evaluate_batch}
use aiagent_portable_authori.Evaluate.Laws.{Audited}
use aiagent_portable_authori.Evaluate.Laws.Single.{
  GrantedTo, evaluate_allow, evaluate-Audited, evaluate_denial_keeps_tables,
}
use aiagent_portable_authori.Evaluate.Batch.Laws.{evaluate_batch-Audited, evaluate_batch_authority}
use aiagent_portable_authori.Examples.{
  runtime, engine, body, request, store, root, leaf, verifier, config, chain, amount_at_most,
}

run_allowed : (evaluate engine (verified leaf) "credential" body store).1.decision ≡ some allow
unfolding evaluate is_truthy get includes_value enrich_request_context evaluate_constraints
    evaluate_all evaluate_constraint evaluate_numeric_limit on_field resolve_field
    resolve_semantic_field lookup default_mappings resolve_direct_path numeric_test to_number
    compare_by applies evaluate_stateful_constraints apply_local_policy_merge all_local_constraints
    stateful_of build_candidates build_candidate authority_checks authority_check reserve_checked
    authorize_candidates reserve is_stateful_constraint scope_material window_for_period
    read_numeric_field uses_limit
run_allowed = refl

run_batch_allowed : (evaluate_batch engine verifier config chain body store).1.decision ≡ some allow
unfolding evaluate_batch is_truthy get includes_value enrich_request_context evaluate_constraints
    evaluate_all evaluate_constraint evaluate_numeric_limit on_field resolve_field
    resolve_semantic_field lookup default_mappings resolve_direct_path numeric_test to_number
    compare_by applies evaluate_stateful_constraints apply_local_policy_merge all_local_constraints
    stateful_of build_candidates build_candidate authority_checks authority_check reserve_checked
    authorize_candidates reserve is_stateful_constraint scope_material window_for_period
    read_numeric_field uses_limit verify_attenuation validate_delegation_link is_more_restrictive
    constraints_same_target numeric_attenuation kept_by same_kind restricts
run_batch_allowed = refl

run_denied :
    (evaluate engine (rejected signature_invalid) "credential" body store).1.decision ≡ some deny
unfolding evaluate is_truthy get
run_denied = refl

evaluate_allow_example :
    (p : Payload) × (verified leaf ≡ verified p) × GrantedTo engine (verified leaf) body store p
evaluate_allow_example = evaluate_allow engine (verified leaf) body store "credential" run_allowed

evaluate-Audited_example : Audited store (evaluate engine (verified leaf) "credential" body store)
evaluate-Audited_example = evaluate-Audited engine (verified leaf) body store "credential"

evaluate_denial_keeps_tables_example :
    (evaluate engine (rejected signature_invalid) "credential" body store).0.tables ≡ store.tables
evaluate_denial_keeps_tables_example =
    evaluate_denial_keeps_tables engine (rejected signature_invalid) body store "credential"
      run_denied

limits_keep : Keeps runtime (amount_at_most 1000) (amount_at_most 500)
limits_keep = record {
  same_type = refl;
  same_field = refl;
  same_zone = refl;
  has_value = λ _ h. cc;
  start = refl;
  end = refl;
  days = refl;
  allow_list = refl;
  deny_list = refl;
  glob = inl (λ h. cc);
}

leaf-Comparable : Comparable runtime root leaf
unfolding constraints_same_target same_kind
leaf-Comparable = ((λ _. limits_keep, (λ h. cc, tt)), tt)

chain-Verifies : Verifies verifier "agent-b" chain (root ∷ leaf ∷ [])
chain-Verifies = (refl, (refl, tt))

evaluate_batch-Audited_example :
    Audited store (evaluate_batch engine verifier config chain body store)
evaluate_batch-Audited_example = evaluate_batch-Audited engine verifier config body store chain

evaluate_batch_authority_example :
    (p : Payload) × (some p ≡ some leaf)
    × All
        (Grants runtime default_mappings
          (obj (enriched body p))
          (action_text (get "action" (enriched body p))))
        (root ∷ leaf ∷ [])
evaluate_batch_authority_example =
    evaluate_batch_authority engine verifier config body store chain (root ∷ leaf ∷ []) refl
      chain-Verifies (leaf-Comparable, tt) run_batch_allowed

abbrev two : ℕ
two = 2

verify_delegation_chain_iff_example :
    (verify_delegation_chain runtime verifier config chain "agent-b" ≡ chain_ok (some leaf) 2) ↔ (
      (ltb_num (runtime.parse_int (or_default config.max_depth "5")) (fin (pos 2)) ≡ false)
      × ((ps : List Payload) × Verifies verifier "agent-b" chain ps
          × Linked runtime true none ps
          × (some leaf ≡ last_of none ps)
          × (two ≡ two)))
verify_delegation_chain_iff_example =
    verify_delegation_chain_iff runtime verifier config chain "agent-b" (some leaf) 2

chain_verifies :
    verify_delegation_chain runtime verifier config chain "agent-b" ≡ chain_ok (some leaf) 2
unfolding verify_delegation_chain verify_attenuation validate_delegation_link is_more_restrictive
    constraints_same_target numeric_attenuation kept_by same_kind restricts
chain_verifies = refl

leaf-Grants : Grants runtime default_mappings (obj request) "claims.approve" leaf
unfolding is_truthy get includes_value evaluate_constraints evaluate_all evaluate_constraint
    evaluate_numeric_limit on_field resolve_field resolve_semantic_field lookup default_mappings
    resolve_direct_path numeric_test to_number compare_by applies evaluate_stateful_constraints
    apply_local_policy_merge all_local_constraints stateful_of build_candidates build_candidate
    authority_checks authority_check reserve_checked authorize_candidates reserve
    is_stateful_constraint scope_material window_for_period read_numeric_field uses_limit
leaf-Grants = (refl, refl)

verify_delegation_chain-authority_example :
    All (Grants runtime default_mappings (obj request) "claims.approve") (root ∷ leaf ∷ [])
verify_delegation_chain-authority_example =
    verify_delegation_chain-authority runtime default_mappings (obj request) "claims.approve"
      verifier "agent-b" config chain (root ∷ leaf ∷ []) leaf 2 refl chain_verifies chain-Verifies
      (leaf-Comparable, tt) leaf-Grants

leaf_attenuates : verify_attenuation runtime root leaf ≡ true
unfolding verify_attenuation validate_delegation_link is_more_restrictive constraints_same_target
    numeric_attenuation kept_by same_kind restricts
leaf_attenuates = refl

verify_attenuation-authority_example :
    Grants runtime default_mappings (obj request) "claims.approve" root
verify_attenuation-authority_example =
    verify_attenuation-authority runtime default_mappings (obj request) root leaf "claims.approve"
      leaf-Comparable leaf_attenuates (leaf-Grants.0) (leaf-Grants.1)

limit_attenuates : is_more_restrictive runtime (amount_at_most 1000) (amount_at_most 500) ≡ true
unfolding verify_attenuation validate_delegation_link is_more_restrictive constraints_same_target
    numeric_attenuation kept_by same_kind restricts
limit_attenuates = refl

limit-Holds : Holds runtime default_mappings (obj request) (amount_at_most 500)
unfolding evaluate_constraint evaluate_numeric_limit on_field resolve_field get
    resolve_semantic_field lookup default_mappings resolve_direct_path numeric_test to_number
    compare_by
limit-Holds = refl

is_more_restrictive-Holds_example :
    Holds runtime default_mappings (obj request) (amount_at_most 1000)
is_more_restrictive-Holds_example =
    is_more_restrictive-Holds runtime default_mappings (obj request) (amount_at_most 1000)
      (amount_at_most 500) limits_keep limit_attenuates limit-Holds
