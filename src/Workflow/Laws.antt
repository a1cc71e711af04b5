-- ===== src/Workflow/Laws.antt =====
-- Laws of role coverage and of the combinators.
use aiagent_portable_authori.Base.{
  ℕ, ◌≤◌, String, Bool, true, not, ◌≡◌, refl, ◌↔◌, List, [], ◌∷◌, filter, every, any, is_empty,
  includes, length, leb, ◌==◌, arith,
}
use aiagent_portable_authori.Base.Int.{pos}
use aiagent_portable_authori.Base.Num.{Num, leb_num, fin}
use aiagent_portable_authori.Workflow.{
  Decision, allow, deny, Combinator, require_all, require_any, threshold, WorkflowPolicy, covered,
  required, validate_role_coverage, coverage_of, unexpected_of, is_allow, combine,
  combine_sub_decisions,
}

filter_empty_iff :
    (p : String → Bool) (xs : List String)
    → (is_empty (filter (λ x. not (p x)) xs) ≡ true) ↔ (every p xs ≡ true)
filter_empty_iff p [] = (λ _. refl, λ _. refl)
filter_empty_iff p (x ∷ xs) = ground (arith, filter_empty_iff p xs)

coverage_of_iff :
    (missing required presented : List String)
    → (coverage_of missing required presented ≡ covered) ↔ (
        (is_empty missing ≡ true)
        × (is_empty (filter (λ r. not (includes required r)) presented) ≡ true))
unfolding coverage_of unexpected_of
coverage_of_iff missing required presented = ground arith

-- Coverage is granted exactly when the presented roles are, as a set, those that the policy asks
-- for: none is missing and none is presented that is not asked for.
pub validate_role_coverage_iff :
    (policy : WorkflowPolicy) (presented : List String)
    → (validate_role_coverage policy presented ≡ covered) ↔ (
        (every (includes presented) (required policy) ≡ true)
        × (every (includes (required policy)) presented ≡ true))
unfolding validate_role_coverage
validate_role_coverage_iff policy presented = ground (
  arith,
  coverage_of_iff (filter (λ r. not (includes presented r)) (required policy)) (required policy)
      presented,
  filter_empty_iff (includes presented) (required policy),
  filter_empty_iff (includes (required policy)) presented,
)

abbrev allows : List Decision → ℕ
allows ds = length (filter is_allow ds)

allows_bound : (ds : List Decision) → allows ds ≤ length ds
allows_bound [] = omega arith
allows_bound (allow ∷ ds) = let ih = allows_bound ds in omega arith
allows_bound (deny ∷ ds) = let ih = allows_bound ds in omega arith

every_allow_iff :
    (ds : List Decision) → ((allows ds == length ds) ≡ true) ↔ (every is_allow ds ≡ true)
every_allow_iff [] = (λ _. refl, λ _. refl)
every_allow_iff (allow ∷ ds) = ground (arith, every_allow_iff ds)
every_allow_iff (deny ∷ ds) = ground (arith, allows_bound ds)

any_allow_iff : (ds : List Decision) → (leb 1 (allows ds) ≡ true) ↔ (any is_allow ds ≡ true)
any_allow_iff [] = ground arith
any_allow_iff (allow ∷ ds) = ground arith
any_allow_iff (deny ∷ ds) = any_allow_iff ds

-- What each combinator promises of the decisions.
abbrev pub Combined : Combinator → Num → List Decision → Type 0
Combined require_all n ds = every is_allow ds ≡ true
Combined require_any n ds = any is_allow ds ≡ true
Combined threshold n ds = leb_num n (fin (pos (allows ds))) ≡ true
Combined (Combinator.other_combinator _) n ds = ⊥

combine_iff :
    (c : Combinator) (n : Num) (ds : List Decision)
    → (combine c n (allows ds) (length ds) ≡ allow) ↔ Combined c n ds
unfolding combine
combine_iff require_all n ds = ground (arith, every_allow_iff ds)
combine_iff require_any n ds = ground (arith, any_allow_iff ds)
combine_iff threshold n ds = ground arith
combine_iff (Combinator.other_combinator _) n ds = (λ h. cc, λ h. elim h [ ])

-- A workflow is allowed exactly as its combinator says: by all decisions, by one of them, by at
-- least the threshold's number of them, and never under a combinator that is not known.
pub combine_sub_decisions_iff :
    (policy : WorkflowPolicy) (ds : List Decision)
    → (combine_sub_decisions policy ds ≡ allow) ↔ Combined policy.combinator policy.threshold_n ds
unfolding combine_sub_decisions
combine_sub_decisions_iff policy ds = combine_iff policy.combinator policy.threshold_n ds
