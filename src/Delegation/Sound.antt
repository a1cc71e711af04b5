-- ===== src/Delegation/Sound.antt =====
-- Laws of `isMoreRestrictive`: constraints of a delegate and of its parent in one context.
use mathlib.Core.Path.{subst}
use aiagent_portable_authori.Base.{true, ◌≡◌, refl, arith}
use aiagent_portable_authori.Value.{Value, Runtime}
use aiagent_portable_authori.Payload.{
  Kind, numeric_limit, temporal_window, enumerated_list, string_pattern, Constraint,
}
use aiagent_portable_authori.Semantic.{Mappings}
use aiagent_portable_authori.Codes.{ErrorCode}
use aiagent_portable_authori.Evaluator.{
  Outcome, is_pass, numeric_test, string_test, enumerated_test, temporal_test, on_field,
  evaluate_constraint, evaluate_numeric_limit, evaluate_temporal_window, evaluate_enumerated_list,
  evaluate_string_pattern, resolve_field, timestamp_of, dispatch,
}
use aiagent_portable_authori.Evaluator.Laws.{Holds}
use aiagent_portable_authori.Delegation.{temporal_attenuation, is_more_restrictive, restricts}
use aiagent_portable_authori.Delegation.Keeps.{Keeps}
use aiagent_portable_authori.Delegation.Tests.{
  numeric_attenuation_sound, temporal_test-attenuated, enumerated_test-attenuated,
  string_test-attenuated,
}

on_field-attenuated :
    (test test' : Value → Outcome) (r : Value × ErrorCode)
    → ((v : Value) → is_pass (test v) ≡ true → is_pass (test' v) ≡ true)
    → is_pass (on_field test r) ≡ true
    → is_pass (on_field test' r) ≡ true
unfolding on_field
on_field-attenuated test test' (v, code) imp h = ground (arith, imp v)

module _ (rt : Runtime) (m : Mappings) (ctx : Value) where
  -- Tests on a resolved field, when the delegate's constraint names the parent's field.
  field-attenuated :
      (test test' : Value → Outcome) (p d : Constraint)
      → d.field ≡ p.field
      → ((v : Value) → is_pass (test v) ≡ true → is_pass (test' v) ≡ true)
      → is_pass (on_field test (resolve_field m d.field ctx)) ≡ true
      → is_pass (on_field test' (resolve_field m p.field ctx)) ≡ true
  field-attenuated test test' p d e imp h =
      on_field-attenuated test test' (resolve_field m p.field ctx) imp
        (subst (λ f. is_pass (on_field test (resolve_field m f ctx)) ≡ true) e h)

  temporal-attenuated :
      (p d : Constraint)
      → Keeps rt p d
      → temporal_attenuation rt p d ≡ true
      → is_pass (evaluate_temporal_window rt m d ctx) ≡ true
      → is_pass (evaluate_temporal_window rt m p ctx) ≡ true
  unfolding evaluate_temporal_window
  temporal-attenuated p d kept h k = ground (
    arith,
    kept.same_field,
    temporal_test-attenuated rt p d (timestamp_of rt m ctx) kept h,
    field-attenuated (λ (v : Value). temporal_test rt d (rt.date_of v))
        (λ (v : Value). temporal_test rt p (rt.date_of v)) p d kept.same_field
        (λ (v : Value). temporal_test-attenuated rt p d (rt.date_of v) kept h),
  )

  dispatch-attenuated :
      (kind : Kind) (p d : Constraint)
      → p.kind ≡ kind
      → Keeps rt p d
      → restricts rt kind p d ≡ true
      → is_pass (dispatch rt m kind d ctx).outcome ≡ true
      → is_pass (dispatch rt m kind p ctx).outcome ≡ true
  unfolding dispatch restricts evaluate_numeric_limit evaluate_enumerated_list
      evaluate_string_pattern
  dispatch-attenuated numeric_limit p d e kept h k =
      field-attenuated (numeric_test rt d) (numeric_test rt p) p d kept.same_field
        (λ v. numeric_attenuation_sound rt p d v h (kept.has_value e)) k
  dispatch-attenuated temporal_window p d e kept h k = temporal-attenuated p d kept h k
  dispatch-attenuated enumerated_list p d e kept h k =
      field-attenuated (enumerated_test d) (enumerated_test p) p d kept.same_field
        (λ v. enumerated_test-attenuated rt p d v kept h) k
  dispatch-attenuated string_pattern p d e kept h k =
      field-attenuated (string_test d) (string_test p) p d kept.same_field
        (λ v. string_test-attenuated rt p d v kept h) k
  dispatch-attenuated _ p d e kept h k = k

  -- In every context, a delegate's constraint that attenuates the parent's lets through only what the
  -- parent's lets through, if the two have one type, one field and one timezone; a parent that is a
  -- numeric limit has a value; the delegate has an allowed list, a denied list and days wherever the
  -- parent has them, and a time of day that reads as finite minutes wherever the parent has a time;
  -- and a restricted glob of the parent is kept as it is.
  pub is_more_restrictive-Holds :
      (p d : Constraint)
      → Keeps rt p d
      → is_more_restrictive rt p d ≡ true
      → Holds rt m ctx d
      → Holds rt m ctx p
  unfolding is_more_restrictive evaluate_constraint
  is_more_restrictive-Holds p d kept h k =
      dispatch-attenuated p.kind p d refl kept h
        (subst (λ q. is_pass (dispatch rt m q d ctx).outcome ≡ true) kept.same_type k)
