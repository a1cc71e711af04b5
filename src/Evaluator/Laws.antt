-- ===== src/Evaluator/Laws.antt =====
-- Laws of constraint evaluation.
use aiagent_portable_authori.Base.{
  String, true, false, ◌&&◌, ◌≡◌, refl, ◌≢◌, ◌↔◌, ◌⊎◌, none, some, List, [], ◌∷◌, ◌++◌, ap, arith,
  length, every, All, eq_iff, &&-eq-true, find?,
}
use aiagent_portable_authori.Base.Num.{Num, nan, fin}
use aiagent_portable_authori.Codes.{ErrorCode, constraint_unknown}
use aiagent_portable_authori.Value.{Value, str, Runtime}
use aiagent_portable_authori.Payload.{
  numeric_limit, temporal_window, enumerated_list, string_pattern, other_kind, Constraint,
}
use aiagent_portable_authori.Semantic.{Mappings, resolve_semantic_field, unresolved}
use aiagent_portable_authori.Evaluator.{
  Outcome, passed, failed, CheckResult, is_pass, evaluate_constraint, evaluate_constraints,
  evaluate_all, result_passes, result_fails, on_field, resolve_field, evaluate_numeric_limit,
  evaluate_temporal_window, evaluate_enumerated_list, evaluate_string_pattern, enumerated_test,
  denies, allows, from_fits, clock_minutes, temporal_test, numeric_test, string_test, first_error,
}

module _ (rt : Runtime) (mappings : Mappings) (ctx : Value) where
  -- A constraint holds in the context.
  abbrev pub Holds : Constraint → Type 0
  Holds c = is_pass (evaluate_constraint rt mappings c ctx).outcome ≡ true

  pub every-evaluate_all :
      (cs : List Constraint)
      → (every result_passes (evaluate_all rt mappings cs ctx) ≡ true) ↔ All Holds cs
  unfolding evaluate_all
  every-evaluate_all [] = (λ _. tt, λ _. refl)
  every-evaluate_all (c ∷ cs) = (
    λ h. ((&&-eq-true _ _ h).0, (every-evaluate_all cs).0 (&&-eq-true _ _ h).1),
    λ h. rw (h.0) ((every-evaluate_all cs).1 h.1),
  )

  -- Evaluation passes exactly when every single constraint of the list holds.
  pub evaluate_constraints_iff :
      (cs : List Constraint)
      → ((evaluate_constraints rt mappings cs ctx).pass ≡ true) ↔ All Holds cs
  unfolding evaluate_constraints
  evaluate_constraints_iff cs = every-evaluate_all cs

  first_error-every :
      (rs : List CheckResult)
      → (first_error (find? result_fails rs) ≡ none) ↔ (every result_passes rs ≡ true)
  first_error-every [] = (λ _. refl, λ _. refl)
  first_error-every (r ∷ rs) = ground (arith, first_error-every rs)

  length-evaluate_all :
      (cs : List Constraint) → length (evaluate_all rt mappings cs ctx) ≡ length cs
  unfolding evaluate_all
  length-evaluate_all [] = refl
  length-evaluate_all (c ∷ cs) = ap Prim.Native.Nat.suc (length-evaluate_all cs)

  -- Every constraint gets a result, and an error code stands exactly on a failure.
  pub evaluate_constraints_total :
      (cs : List Constraint)
      → (length (evaluate_constraints rt mappings cs ctx).results ≡ length cs)
        × (((evaluate_constraints rt mappings cs ctx).error ≡ none)
            ↔ ((evaluate_constraints rt mappings cs ctx).pass ≡ true))
  unfolding evaluate_constraints
  evaluate_constraints_total cs =
      (length-evaluate_all cs, first_error-every (evaluate_all rt mappings cs ctx))

  -- More constraints can only restrict: a list passes with another exactly if both pass.
  pub evaluate_constraints-append :
      (cs ds : List Constraint)
      → (evaluate_constraints rt mappings (cs ++ ds) ctx).pass ≡ (
          (evaluate_constraints rt mappings cs ctx).pass
          && (evaluate_constraints rt mappings ds ctx).pass)
  unfolding evaluate_constraints evaluate_all
  evaluate_constraints-append [] ds = refl
  evaluate_constraints-append (c ∷ cs) ds = ground (arith, evaluate_constraints-append cs ds)

  -- A constraint of unknown type fails with constraint_unknown in every context.
  pub evaluate_constraint_unknown :
      (c : Constraint) (name : String)
      → c.kind ≡ other_kind name
      → (evaluate_constraint rt mappings c ctx).outcome ≡ failed (some constraint_unknown)
  unfolding evaluate_constraint
  evaluate_constraint_unknown c name e = ground arith

  on_field-unresolved :
      (test : Value → Outcome) (name : String) (code : ErrorCode)
      → resolve_semantic_field mappings name ctx ≡ unresolved code
      → on_field test (resolve_field mappings name ctx) ≡ failed (some code)
  unfolding on_field resolve_field
  on_field-unresolved test name code e = ground arith

  -- A stateless constraint whose field does not resolve fails with the resolver's code; a temporal
  -- window reads the request's own time instead if its field is blank or "timestamp".
  pub evaluate_constraint-unresolved :
      (c : Constraint) (code : ErrorCode)
      → resolve_semantic_field mappings c.field ctx ≡ unresolved code
      → (c.kind ≡ numeric_limit)
        ⊎ (c.kind ≡ enumerated_list)
        ⊎ (c.kind ≡ string_pattern)
        ⊎ ((c.kind ≡ temporal_window) × (c.field ≢ "") × (c.field ≢ "timestamp"))
      → (evaluate_constraint rt mappings c ctx).outcome ≡ failed (some code)
  unfolding evaluate_constraint evaluate_numeric_limit evaluate_enumerated_list
      evaluate_string_pattern evaluate_temporal_window
  evaluate_constraint-unresolved c code e k = ground (
    arith,
    on_field-unresolved (numeric_test rt c) c.field code e,
    on_field-unresolved (enumerated_test c) c.field code e,
    on_field-unresolved (string_test c) c.field code e,
    on_field-unresolved (λ (v : Value). temporal_test rt c (rt.date_of v)) c.field code e,
    eq_iff c.field "",
    eq_iff c.field "timestamp",
  )

-- An enumerated list passes exactly on the texts that are not denied and, if it has a list of
-- allowed ones, are among these: deny takes precedence.
pub enumerated_test_iff :
    (c : Constraint) (s : String)
    → (enumerated_test c (str s) ≡ passed)
      ↔ ((denies c.denied (str s) ≡ false) × (allows c.allowed (str s) ≡ true))
unfolding enumerated_test
enumerated_test_iff c s = ground arith

-- The start of a window that is not a clock time (its hour is not a number) never fails a time:
-- the comparison with NaN is false, and the check is passed over.
pub from_fits-malformed :
    (rt : Runtime) (text : String) (minutes : Num)
    → clock_minutes rt text ≡ nan
    → from_fits rt text minutes ≡ true
unfolding from_fits
from_fits-malformed rt text nan e = ground arith
from_fits-malformed rt text (fin m) e = ground arith
