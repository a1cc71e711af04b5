-- ===== src/Delegation.antt =====
-- portauth-engine/src/services/delegationVerifier.js: links of a delegation chain and their
-- attenuation. The checks return whether they pass; the reason texts are left out.
pub mod Keeps
pub mod Tests
pub mod Sound
pub mod Authority
pub mod Chain
pub mod Widening
use aiagent_portable_authori.Base.{
  ℕ, suc, String, Bool, true, false, not, ◌&&◌, ◌||◌, Option, none, some, List, [], ◌∷◌,
  if◌then◌else◌, str_eq, length, every, find?, includes,
}
use aiagent_portable_authori.Base.Int.{ℤ, pos, ltb_ℤ, eqb_ℤ}
use aiagent_portable_authori.Base.Num.{Num, nan, fin, ltb_num, num_of, is_finite}
use aiagent_portable_authori.Base.Text.{codes, starts_with, ends_with}
use aiagent_portable_authori.Codes.{
  ErrorCode, delegation_depth_exceeded, delegation_chain_broken, delegation_widened,
  issuer_untrusted,
}
use aiagent_portable_authori.Value.{Runtime, is_blank, or_default}
use aiagent_portable_authori.Payload.{
  Kind, numeric_limit, temporal_window, enumerated_list, string_pattern, cumulative_limit,
  usage_limit, other_kind, Operator, eq, lt, lte, gt, gte, other_operator, MatchType, exact, prefix,
  suffix, restricted_glob, other_match, Constraint, Payload, same_kind, same_operator, same_match,
}
use aiagent_portable_authori.Evaluator.{clock_minutes}
use aiagent_portable_authori.Glob.Refine.{is_restricted_glob_refinement}

-- `validateDelegationLink`.
unfoldable pub validate_delegation_link : Payload → Payload → Bool
validate_delegation_link parent delegate =
    str_eq delegate.issuer_id parent.agent_id
    && (not (is_blank delegate.delegated_from)
        && str_eq delegate.delegated_from parent.credential_id)

-- `constraintsSameTarget`: by identifier if either has one, else by field.
unfoldable pub constraints_same_target : Constraint → Constraint → Bool
constraints_same_target parent delegate =
    if same_kind delegate.kind parent.kind
    then (if not (is_blank parent.id) || not (is_blank delegate.id)
        then str_eq parent.id delegate.id
        else str_eq delegate.field parent.field)
    else false

-- `valueOfLimit`: the first of the keys that is defined.
abbrev first_defined : List (Option ℤ) → Num
first_defined [] = nan
first_defined (none ∷ os) = first_defined os
first_defined (some n ∷ _) = fin n

unfoldable pub same_stateful_window : Constraint → Constraint → Bool
same_stateful_window parent delegate =
    str_eq (or_default delegate.period "forever") (or_default parent.period "forever")
    && str_eq (or_default delegate.scope "credential") (or_default parent.scope "credential")

unfoldable pub amount_limit : Constraint → Num
amount_limit c = first_defined (c.max_amount ∷ c.value ∷ c.limit ∷ [])

unfoldable pub uses_limit : Constraint → Num
uses_limit c = first_defined (c.max_uses ∷ c.value ∷ c.limit ∷ [])

-- Both limits are finite, and the delegate's is not above the parent's.
unfoldable pub limit_lowered : Num → Num → Bool
limit_lowered parent delegate =
    is_finite parent && (is_finite delegate && not (ltb_num parent delegate))

unfoldable pub cumulative_limit_attenuation : Constraint → Constraint → Bool
unfolding limit_lowered
cumulative_limit_attenuation parent delegate =
    str_eq parent.field delegate.field
    && (same_stateful_window parent delegate
        && limit_lowered (amount_limit parent) (amount_limit delegate))

unfoldable pub usage_limit_attenuation : Constraint → Constraint → Bool
unfolding limit_lowered
usage_limit_attenuation parent delegate =
    same_stateful_window parent delegate && limit_lowered (uses_limit parent) (uses_limit delegate)

-- `a > b` on values of which either may be undefined.
abbrev pub gt_value : Option ℤ → Option ℤ → Bool
gt_value (some a) (some b) = ltb_ℤ b a
gt_value _ _ = false

abbrev pub same_value : Option ℤ → Option ℤ → Bool
same_value (some a) (some b) = eqb_ℤ a b
same_value none none = true
same_value _ _ = false

abbrev value_attenuates : Operator → Option ℤ → Option ℤ → Bool
value_attenuates lte p d = not (gt_value d p)
value_attenuates lt p d = not (gt_value d p)
value_attenuates gte p d = not (gt_value p d)
value_attenuates gt p d = not (gt_value p d)
value_attenuates eq p d = same_value d p
value_attenuates (other_operator _) p d = true

unfoldable pub numeric_attenuation : Constraint → Constraint → Bool
unfolding same_operator
numeric_attenuation parent delegate =
    same_operator parent.operator delegate.operator
    && value_attenuates parent.operator parent.value delegate.value

-- The ends of the window are compared where both are given, and so are the days.
unfoldable pub starts_later : Runtime → String → String → Bool
starts_later rt parent delegate =
    if is_blank delegate || is_blank parent
    then true
    else not (ltb_num (clock_minutes rt delegate) (clock_minutes rt parent))

unfoldable pub ends_earlier : Runtime → String → String → Bool
ends_earlier rt parent delegate =
    if is_blank delegate || is_blank parent
    then true
    else not (ltb_num (clock_minutes rt parent) (clock_minutes rt delegate))

-- Every element of `small` is in `large`, where both are given.
unfoldable pub subset_of : Option (List String) → Option (List String) → Bool
subset_of (some large) (some small) = every (includes large) small
subset_of _ _ = true

unfoldable pub temporal_attenuation : Runtime → Constraint → Constraint → Bool
temporal_attenuation rt parent delegate =
    starts_later rt parent.valid_from delegate.valid_from
    && (ends_earlier rt parent.valid_until delegate.valid_until
        && subset_of parent.days_of_week delegate.days_of_week)

unfoldable pub enumerated_attenuation : Constraint → Constraint → Bool
enumerated_attenuation parent delegate =
    subset_of parent.allowed delegate.allowed && subset_of delegate.denied parent.denied

unfoldable pub pattern_attenuates : MatchType → String → String → Bool
pattern_attenuates exact p d = str_eq d p
pattern_attenuates prefix p d = starts_with (codes d) (codes p)
pattern_attenuates suffix p d = ends_with (codes d) (codes p)
pattern_attenuates restricted_glob p d = is_restricted_glob_refinement p d
pattern_attenuates (other_match _) p d = true

unfoldable pub string_pattern_attenuation : Constraint → Constraint → Bool
unfolding same_match
string_pattern_attenuation parent delegate =
    same_match parent.match_type delegate.match_type
    && pattern_attenuates parent.match_type parent.pattern delegate.pattern

module _ (rt : Runtime) where
  -- The dispatch of `isMoreRestrictive` on the parent's type.
  unfoldable pub restricts : Kind → Constraint → Constraint → Bool
  restricts numeric_limit p d = numeric_attenuation p d
  restricts temporal_window p d = temporal_attenuation rt p d
  restricts enumerated_list p d = enumerated_attenuation p d
  restricts string_pattern p d = string_pattern_attenuation p d
  restricts cumulative_limit p d = cumulative_limit_attenuation p d
  restricts usage_limit p d = usage_limit_attenuation p d
  restricts (other_kind _) p d = false

  unfoldable pub is_more_restrictive : Constraint → Constraint → Bool
  is_more_restrictive p d = restricts p.kind p d

  -- What the loop of `verifyAttenuation` asks of one constraint of the parent: the delegate's first
  -- constraint of the same target is there and at least as restrictive.
  unfoldable pub kept_by : List Constraint → Constraint → Bool
  kept_by delegates p = elim (find? (constraints_same_target p) delegates) [
    | none ↦ false
    | some d ↦ is_more_restrictive p d
  ]

  unfoldable pub verify_attenuation : Payload → Payload → Bool
  verify_attenuation parent delegate =
      every (includes parent.permissions) delegate.permissions
      && every (kept_by delegate.constraints) parent.constraints
