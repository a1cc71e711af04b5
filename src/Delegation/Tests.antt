-- ===== src/Delegation/Tests.antt =====
-- The attenuation of each type of constraint, as its test on a value: what passes the delegate's
-- test passes the parent's.
use mathlib.Core.Path.{subst}
use aiagent_portable_authori.Base.{
  String, true, false, ◌≡◌, refl, ◌≢◌, ◌⊎◌, inl, inr, Option, none, some, List, [], ◌∷◌, arith,
  Bool-cases, includes, eq_iff, every-includes,
}
use aiagent_portable_authori.Base.Int.{ℤ}
use aiagent_portable_authori.Base.Num.{Num, nan, fin, num_of}
use aiagent_portable_authori.Base.Text.{codes, starts_with_trans, ends_with_trans}
use aiagent_portable_authori.Value.{
  Value, str, Runtime, LocalParts, includes_value, to_number, or_default,
}
use aiagent_portable_authori.Payload.{
  Constraint, Operator, MatchType, exact, prefix, suffix, restricted_glob, other_match,
  same_operator, eq, lt, lte, gt, gte, other_operator,
}
use aiagent_portable_authori.Evaluator.{
  is_pass, holds, compare_by, numeric_test, string_test, pattern_test, enumerated_test, denies,
  allows, temporal_test, zone_test, window_test, day_fits, from_fits, until_fits, minutes_of,
  short_day,
}
use aiagent_portable_authori.Delegation.{
  numeric_attenuation, temporal_attenuation, enumerated_attenuation, string_pattern_attenuation,
  starts_later, ends_earlier, subset_of, pattern_attenuates, value_attenuates,
}
use aiagent_portable_authori.Delegation.Keeps.{
  Keeps, keeps_list, keeps_days, keeps_clock, same_operator→eq, same_match→eq,
}

pub compare_by-attenuated :
    (op : Operator) (v : Num) (p : ℤ) (d : Option ℤ)
    → value_attenuates op (some p) d ≡ true
    → is_pass (holds (compare_by op v (num_of d))) ≡ true
    → is_pass (holds (compare_by op v (fin p))) ≡ true
unfolding compare_by
compare_by-attenuated eq v p d h k = ground arith
compare_by-attenuated lt v p d h k = ground arith
compare_by-attenuated lte v p d h k = ground arith
compare_by-attenuated gt v p d h k = ground arith
compare_by-attenuated gte v p d h k = ground arith
compare_by-attenuated (other_operator _) v p d h k = ground arith

pub compare_by-kept :
    (op op' : Operator) (p d : Option ℤ) (v : Num)
    → same_operator op op' ≡ true
    → value_attenuates op p d ≡ true
    → p ≢ none
    → is_pass (holds (compare_by op' v (num_of d))) ≡ true
    → is_pass (holds (compare_by op v (num_of p))) ≡ true
compare_by-kept op op' none d v same h given k = absurd (given refl)
compare_by-kept op op' (some p) d v same h given k =
    compare_by-attenuated op v p d h (rw (← same_operator→eq op op' same) at k)

pub numeric_attenuation_sound :
    (rt : Runtime) (p d : Constraint) (v : Value)
    → numeric_attenuation p d ≡ true
    → p.value ≢ none
    → is_pass (numeric_test rt d v) ≡ true
    → is_pass (numeric_test rt p v) ≡ true
unfolding numeric_attenuation numeric_test
numeric_attenuation_sound rt p d v h given k =
    ground (arith, compare_by-kept p.operator d.operator p.value d.value (to_number rt v))

pub from_fits-attenuated :
    (rt : Runtime) (p d : String) (m : Num)
    → keeps_clock rt p d ≡ true
    → starts_later rt p d ≡ true
    → from_fits rt d m ≡ true
    → from_fits rt p m ≡ true
unfolding starts_later from_fits
from_fits-attenuated rt p d (fin m) k s h = ground arith
from_fits-attenuated rt p d nan k s h = ground arith

pub until_fits-attenuated :
    (rt : Runtime) (p d : String) (m : Num)
    → keeps_clock rt p d ≡ true
    → ends_earlier rt p d ≡ true
    → until_fits rt d m ≡ true
    → until_fits rt p m ≡ true
unfolding ends_earlier until_fits
until_fits-attenuated rt p d (fin m) k s h = ground arith
until_fits-attenuated rt p d nan k s h = ground arith

pub day_fits-attenuated :
    (p d : Option (List String)) (day : String)
    → keeps_days p d ≡ true
    → subset_of p d ≡ true
    → day_fits d day ≡ true
    → day_fits p day ≡ true
unfolding subset_of day_fits
day_fits-attenuated none d day k s h = refl
day_fits-attenuated (some []) d day k s h = refl
day_fits-attenuated (some (x ∷ xs)) none day k s h = cc
day_fits-attenuated (some (x ∷ xs)) (some []) day k s h = cc
day_fits-attenuated (some (x ∷ xs)) (some (y ∷ ys)) day k s h =
    every-includes (includes (x ∷ xs)) (y ∷ ys) day s h

pub allows-attenuated :
    (p d : Option (List String)) (v : Value)
    → keeps_list p d ≡ true
    → subset_of p d ≡ true
    → allows d v ≡ true
    → allows p v ≡ true
unfolding subset_of allows includes_value
allows-attenuated none d v k s h = refl
allows-attenuated (some xs) none v k s h = cc
allows-attenuated (some xs) (some ys) (str t) k s h = every-includes (includes xs) ys t s h
allows-attenuated (some xs) (some ys) v k s h = ground arith

pub denies-attenuated :
    (p d : Option (List String)) (v : Value)
    → keeps_list p d ≡ true
    → subset_of d p ≡ true
    → denies d v ≡ false
    → denies p v ≡ false
unfolding subset_of denies includes_value
denies-attenuated none d v k s h = refl
denies-attenuated (some xs) none v k s h = cc
denies-attenuated (some xs) (some ys) (str t) k s h = elim (Bool-cases (includes xs t)) [
  | inl e ↦ let e' = every-includes (includes ys) xs t s e in cc
  | inr e ↦ e
]
denies-attenuated (some xs) (some ys) v k s h = ground arith

pub window_test-attenuated :
    (rt : Runtime) (p d : Constraint) (parts : LocalParts)
    → Keeps rt p d
    → temporal_attenuation rt p d ≡ true
    → is_pass (window_test rt d parts) ≡ true
    → is_pass (window_test rt p parts) ≡ true
unfolding window_test temporal_attenuation
window_test-attenuated rt p d parts kept h k = ground (
  arith,
  day_fits-attenuated p.days_of_week d.days_of_week (short_day parts.weekday) kept.days,
  from_fits-attenuated rt p.valid_from d.valid_from (minutes_of parts) kept.start,
  until_fits-attenuated rt p.valid_until d.valid_until (minutes_of parts) kept.end,
)

pub zone_test-attenuated :
    (rt : Runtime) (p d : Constraint) (parts : Option LocalParts)
    → Keeps rt p d
    → temporal_attenuation rt p d ≡ true
    → is_pass (zone_test rt d parts) ≡ true
    → is_pass (zone_test rt p parts) ≡ true
unfolding zone_test
zone_test-attenuated rt p d none kept h k = k
zone_test-attenuated rt p d (some parts) kept h k = window_test-attenuated rt p d parts kept h k

pub temporal_test-attenuated :
    (rt : Runtime) (p d : Constraint) (t : Num)
    → Keeps rt p d
    → temporal_attenuation rt p d ≡ true
    → is_pass (temporal_test rt d t) ≡ true
    → is_pass (temporal_test rt p t) ≡ true
unfolding temporal_test
temporal_test-attenuated rt p d nan kept h k = k
temporal_test-attenuated rt p d (fin t) kept h k =
    zone_test-attenuated rt p d (rt.local_parts (or_default p.timezone "UTC") t) kept h (
      subst (λ z. is_pass (zone_test rt d (rt.local_parts (or_default z "UTC") t)) ≡ true)
        kept.same_zone k)

pub enumerated_test-attenuated :
    (rt : Runtime) (p d : Constraint) (v : Value)
    → Keeps rt p d
    → enumerated_attenuation p d ≡ true
    → is_pass (enumerated_test d v) ≡ true
    → is_pass (enumerated_test p v) ≡ true
unfolding enumerated_test enumerated_attenuation
enumerated_test-attenuated rt p d v kept h k = ground (
  arith,
  allows-attenuated p.allowed d.allowed v kept.allow_list,
  denies-attenuated p.denied d.denied v kept.deny_list,
)

pub pattern_test-attenuated :
    (mt : MatchType) (p d actual : String)
    → pattern_attenuates mt p d ≡ true
    → (mt ≢ restricted_glob) ⊎ (d ≡ p)
    → is_pass (holds (pattern_test mt d actual)) ≡ true
    → is_pass (holds (pattern_test mt p actual)) ≡ true
unfolding pattern_attenuates pattern_test
pattern_test-attenuated exact p d actual h g k = ground (arith, eq_iff d p)
pattern_test-attenuated prefix p d actual h g k =
    ground (arith, starts_with_trans (codes actual) (codes d) (codes p))
pattern_test-attenuated suffix p d actual h g k =
    ground (arith, ends_with_trans (codes actual) (codes d) (codes p))
pattern_test-attenuated restricted_glob p d actual h (inl ne) k = absurd (ne refl)
pattern_test-attenuated restricted_glob p d actual h (inr e) k = rw e at k
pattern_test-attenuated (other_match s) p d actual h g k = k

pub string_test-attenuated :
    (rt : Runtime) (p d : Constraint) (v : Value)
    → Keeps rt p d
    → string_pattern_attenuation p d ≡ true
    → is_pass (string_test d v) ≡ true
    → is_pass (string_test p v) ≡ true
unfolding string_test string_pattern_attenuation
string_test-attenuated rt p d (str s) kept h k = ground (
  arith,
  same_match→eq p.match_type d.match_type,
  pattern_test-attenuated p.match_type p.pattern d.pattern s,
)
string_test-attenuated rt p d v kept h k = k
