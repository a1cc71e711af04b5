-- ===== src/Delegation/Widening.antt =====
-- Laws of `isMoreRestrictive` on constraints that leave parts of the parent out.
use aiagent_portable_authori.Base.{
  String, true, false, ◌≡◌, refl, Option, none, some, List, [], ◌∷◌, arith, every, includes, eq_iff,
}
use aiagent_portable_authori.Value.{str, Runtime, LocalParts}
use aiagent_portable_authori.Payload.{Constraint, temporal_window, enumerated_list}
use aiagent_portable_authori.Evaluator.{
  passed, enumerated_test, denies, allows, window_test, day_fits, from_fits, until_fits,
}
use aiagent_portable_authori.Delegation.{
  is_more_restrictive, restricts, enumerated_attenuation, temporal_attenuation, subset_of,
  starts_later, ends_earlier,
}

every-includes_more :
    (xs ys : List String)
    → ((s : String) → includes xs s ≡ true → includes ys s ≡ true)
    → every (includes ys) xs ≡ true
every-includes_more [] ys h = refl
every-includes_more (x ∷ xs) ys h =
    let here : includes ys x ≡ true = h x (ground (arith, eq_iff x x)) in
    rw here (every-includes_more xs ys (λ s k. h s (ground arith)))

subset_of_self : (o : Option (List String)) → subset_of o o ≡ true
unfolding subset_of
subset_of_self none = refl
subset_of_self (some xs) = every-includes_more xs xs (λ s k. k)

abbrev pub without_allowed : Constraint → Constraint
without_allowed p = record p { allowed = none }

-- Any enumerated list may be delegated without its list of allowed values: the check accepts it,
-- and it passes every text that is not denied.
pub allowed_dropped :
    (rt : Runtime) (p : Constraint) (s : String)
    → p.kind ≡ enumerated_list
    → denies p.denied (str s) ≡ false
    → (is_more_restrictive rt p (without_allowed p) ≡ true)
      × (enumerated_test (without_allowed p) (str s) ≡ passed)
unfolding is_more_restrictive restricts enumerated_attenuation enumerated_test allows subset_of
allowed_dropped rt p s kind fine = (ground (arith, subset_of_self p.denied, kind), ground arith)

abbrev pub without_window : Constraint → Constraint
without_window p = record p { valid_from = ""; valid_until = ""; days_of_week = none }

-- Any temporal window may be delegated without its times and days: the check accepts it, and it
-- passes at every local time.
pub window_dropped :
    (rt : Runtime) (p : Constraint) (parts : LocalParts)
    → p.kind ≡ temporal_window
    → (is_more_restrictive rt p (without_window p) ≡ true)
      × (window_test rt (without_window p) parts ≡ passed)
unfolding is_more_restrictive restricts temporal_attenuation starts_later ends_earlier subset_of
    window_test day_fits from_fits until_fits
window_dropped rt p parts kind = (ground (arith, kind), ground arith)
