-- ===== src/Delegation/Keeps.antt =====
-- What the comparison of a delegate's constraint with its parent's takes for granted.
use aiagent_portable_authori.Base.{
  String, Bool, true, false, not, ◌&&◌, ◌||◌, ◌≡◌, ◌≢◌, ◌⊎◌, Option, none, some, List, [], ◌∷◌, ap,
  arith, eq_iff, str_eq,
}
use aiagent_portable_authori.Base.Num.{is_finite}
use aiagent_portable_authori.Value.{Runtime}
use aiagent_portable_authori.Payload.{
  numeric_limit, Constraint, Operator, MatchType, exact, prefix, suffix, restricted_glob,
  other_match, same_operator, same_match, eq, lt, lte, gt, gte, other_operator,
}
use aiagent_portable_authori.Evaluator.{clock_minutes}

-- The delegate has a list wherever the parent has one.
abbrev pub keeps_list : Option (List String) → Option (List String) → Bool
keeps_list (some _) none = false
keeps_list _ _ = true

-- The delegate names days wherever the parent does; an empty list names none.
abbrev pub keeps_days : Option (List String) → Option (List String) → Bool
keeps_days (some (_ ∷ _)) none = false
keeps_days (some (_ ∷ _)) (some []) = false
keeps_days _ _ = true

-- The delegate has a well-formed clock time wherever the parent has a time.
abbrev pub keeps_clock : Runtime → String → String → Bool
keeps_clock rt p d = str_eq p "" || (not (str_eq d "") && is_finite (clock_minutes rt d))

-- What `isMoreRestrictive` takes for granted of a parent's and a delegate's constraint.
pub record Keeps (rt : Runtime) (p d : Constraint) : Type 0 where
  pub same_type : d.kind ≡ p.kind
  pub same_field : d.field ≡ p.field
  pub same_zone : d.timezone ≡ p.timezone
  pub has_value : p.kind ≡ numeric_limit → p.value ≢ none
  pub start : keeps_clock rt p.valid_from d.valid_from ≡ true
  pub end : keeps_clock rt p.valid_until d.valid_until ≡ true
  pub days : keeps_days p.days_of_week d.days_of_week ≡ true
  pub allow_list : keeps_list p.allowed d.allowed ≡ true
  pub deny_list : keeps_list p.denied d.denied ≡ true
  pub glob : (p.match_type ≢ restricted_glob) ⊎ (d.pattern ≡ p.pattern)

pub same_operator→eq : (a b : Operator) → same_operator a b ≡ true → a ≡ b
unfolding same_operator
same_operator→eq eq b h = ground arith
same_operator→eq lt b h = ground arith
same_operator→eq lte b h = ground arith
same_operator→eq gt b h = ground arith
same_operator→eq gte b h = ground arith
same_operator→eq (other_operator s) (other_operator t) h = ap other_operator ((eq_iff s t).0 h)
same_operator→eq (other_operator s) _ h = cc

pub same_match→eq : (a b : MatchType) → same_match a b ≡ true → a ≡ b
unfolding same_match
same_match→eq exact b h = ground arith
same_match→eq prefix b h = ground arith
same_match→eq suffix b h = ground arith
same_match→eq restricted_glob b h = ground arith
same_match→eq (other_match s) (other_match t) h = ap other_match ((eq_iff s t).0 h)
same_match→eq (other_match s) _ h = cc
