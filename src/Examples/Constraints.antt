-- ===== src/Examples/Constraints.antt =====
-- Runs of the constraint evaluator, local policy, the semantic resolver, the enriched context,
-- the glob comparison, and the roles and combinators of a workflow.
use aiagent_portable_authori.Base.{
  String, true, false, ◌≡◌, refl, ◌↔◌, none, some, List, [], ◌∷◌, ◌&&◌, All, filter,
}
use aiagent_portable_authori.Base.Assoc.{lookup, insert}
use aiagent_portable_authori.Base.Int.{pos}
use aiagent_portable_authori.Base.Num.{nan, fin}
use aiagent_portable_authori.Codes.{context_field_missing}
use aiagent_portable_authori.Value.{Value, nil, obj, str, num, includes_value}
use aiagent_portable_authori.Semantic.{
  Row, resolved, unresolved, resolve_semantic_field, resolve_direct_path, default_mappings,
  build_mapping_cache_from_rows, load_mappings, is_invalid, mapping_of,
}
use aiagent_portable_authori.Context.{enrich_request_context}
use aiagent_portable_authori.Context.Laws.{enrich_unspoofable}
use aiagent_portable_authori.Glob.Refine.{intra_segment_subset}
use aiagent_portable_authori.Evaluator.{evaluate_constraints, from_fits, clock_minutes, denies}
use aiagent_portable_authori.Evaluator.Laws.{evaluate_constraints-append, from_fits-malformed}
use aiagent_portable_authori.LocalPolicy.{
  apply_local_policy_merge, apply_local_policy_merge_iff, PolicyHolds, applies,
}
use aiagent_portable_authori.Examples.{
  runtime, request, envelope, leaf, policy, amount_at_most, office_hours, regions, texts_apart,
}

abbrev context : Value
context = obj request

evaluate_constraints-append_example :
    (evaluate_constraints runtime default_mappings
      (amount_at_most 500 ∷ office_hours ∷ [])
      context).pass
    ≡ ((evaluate_constraints runtime default_mappings (amount_at_most 500 ∷ []) context).pass
        && (evaluate_constraints runtime default_mappings (office_hours ∷ []) context).pass)
evaluate_constraints-append_example =
    evaluate_constraints-append runtime default_mappings context (amount_at_most 500 ∷ [])
      (office_hours ∷ [])

amount_missing :
    resolve_semantic_field default_mappings "core.amount" (obj nil)
    ≡ unresolved context_field_missing
unfolding resolve_semantic_field lookup default_mappings resolve_direct_path
amount_missing = refl

seven_is_nan : clock_minutes runtime "7 am" ≡ nan
unfolding clock_minutes
seven_is_nan = refl

from_fits-malformed_example : from_fits runtime "7 am" (fin (pos 0)) ≡ true
from_fits-malformed_example = from_fits-malformed runtime "7 am" (fin (pos 0)) seven_is_nan

apply_local_policy_merge_iff_example :
    ((apply_local_policy_merge runtime default_mappings context leaf "claims.approve"
        (policy ∷ [])).denied
      ≡ false)
    ↔ All
        (PolicyHolds runtime default_mappings context)
        (filter (applies "claims.approve" leaf.permissions) (policy ∷ []))
apply_local_policy_merge_iff_example =
    apply_local_policy_merge_iff runtime default_mappings context leaf "claims.approve"
      (policy ∷ [])

amount_resolves :
    resolve_semantic_field default_mappings "core.amount" context
    ≡ resolved "claimAmount" (num (pos 300))
unfolding resolve_semantic_field lookup default_mappings resolve_direct_path
amount_resolves = refl

abbrev row : String → String → Row
row profile local = record {
  semantic_field = "core.amount";
  local_field = local;
  field_type = "number";
  profile_id = profile;
  trusted = true;
  valid_until = some 9000;
}

abbrev two_rows : List Row
two_rows = row "a" "amount" ∷ row "b" "sum" ∷ []

one_row_found :
    lookup "core.amount" (build_mapping_cache_from_rows (row "a" "amount" ∷ []) 10)
    ≡ some (mapping_of 10 (row "a" "amount"))
unfolding lookup insert build_mapping_cache_from_rows
one_row_found = refl

one_row_valid : (mapping_of 10 (row "a" "amount")).error_code ≡ none
unfolding mapping_of is_invalid
one_row_valid = refl

abbrev enriched_request : Value
enriched_request = obj (enrich_request_context request leaf "agent-b" envelope)

enrich_unspoofable_example :
    (resolve_semantic_field (load_mappings (some two_rows) 10) "core.issuer_id" enriched_request
      ≡ resolved "__credential.issuerId" (str "agent-a"))
    × (resolve_semantic_field (load_mappings (some two_rows) 10) "core.subject_id" enriched_request
        ≡ resolved "__credential.subjectId" (str "agent-b"))
    × (resolve_semantic_field
          (load_mappings (some two_rows) 10)
          "core.presenter_id"
          enriched_request
        ≡ resolved "__credential.presenterId" (str "agent-b"))
enrich_unspoofable_example =
    enrich_unspoofable (some two_rows) 10 request leaf "agent-b" envelope (refl, (refl, tt))
      (refl, (refl, tt)) (refl, (refl, tt)) (texts_apart "agent-a" "" refl)
      (texts_apart "agent-b" "" refl) (texts_apart "agent-b" "" refl)

ab_under_a_star : intra_segment_subset "a*" "ab" ≡ true
unfolding intra_segment_subset
ab_under_a_star = refl

asia_not_denied : denies regions.denied (str "Asia") ≡ false
unfolding denies includes_value
asia_not_denied = refl
