-- ===== src/Evaluator.antt =====
-- portauth-engine/src/services/constraintEvaluator.js: the four stateless constraint evaluators and
-- the conjunctive evaluation of a list of constraints. A result keeps what decides, and leaves out
-- the texts for people (`detail`, `expected`, `actual`). An operator, type or match type outside
-- the enumerations is looked up as an own property, so it is not found.
pub mod Laws
use aiagent_portable_authori.Base.{
  ℕ, ◌+◌, ◌*◌, String, Bool, true, false, not, ◌&&◌, Option, none, some, List, [], ◌∷◌, map,
  if◌then◌else◌, str_eq, every, find?, includes, is_empty,
}
use aiagent_portable_authori.Base.Int.{ℤ, pos, pos_part, neg_part, sub_ℕ}
use aiagent_portable_authori.Base.Num.{
  Num, nan, fin, ltb_num, leb_num, eqb_num, add_num, num_of, is_finite,
}
use aiagent_portable_authori.Base.Text.{Codes, codes, split, starts_with, ends_with}
use aiagent_portable_authori.Codes.{
  ErrorCode, constraint_unknown, constraint_failed, context_field_missing, or_code,
}
use aiagent_portable_authori.Value.{
  Value, Fields, undefined, null, str, obj, get, is_nullish, is_truthy, is_blank, or_default,
  includes_value, LocalParts, Runtime, to_number,
}
use aiagent_portable_authori.Payload.{
  Kind, numeric_limit, temporal_window, enumerated_list, string_pattern, cumulative_limit,
  usage_limit, other_kind, Operator, eq, lt, lte, gt, gte, other_operator, MatchType, exact, prefix,
  suffix, restricted_glob, other_match, Constraint,
}
use aiagent_portable_authori.Semantic.{
  Mappings, Resolution, resolved, unresolved, resolve_semantic_field,
}
use aiagent_portable_authori.Glob.{glob_test}

-- What an evaluator returns: `pass` and, on some failures, an error code.
pub data Outcome : Type 0 where
  passed : Outcome
  failed : Option ErrorCode → Outcome

pub record CheckResult : Type 0 where
  pub kind : Kind
  pub field : String
  pub outcome : Outcome
  pub deferred : Bool

abbrev pub is_pass : Outcome → Bool
is_pass passed = true
is_pass (failed _) = false

abbrev pub error_of : Outcome → Option ErrorCode
error_of passed = none
error_of (failed code) = code

abbrev pub verdict : Bool → Outcome
verdict true = passed
verdict false = failed none

unfoldable pub is_stateful_constraint : Constraint → Bool
is_stateful_constraint c = elim c.kind [ cumulative_limit ↦ true | usage_limit ↦ true | _ ↦ false ]

-- `resolveField`: a value, or the code with which resolution refused.
unfoldable pub resolve_field : Mappings → String → Value → Value × ErrorCode
resolve_field mappings name context = elim (resolve_semantic_field mappings name context) [
  | resolved _ v ↦ (v, context_field_missing)
  | unresolved code ↦ (undefined, code)
]

-- `ops[operator](a, b)`.
unfoldable pub compare_by : Operator → Num → Num → Option Bool
compare_by eq a b = some (eqb_num a b)
compare_by lt a b = some (ltb_num a b)
compare_by lte a b = some (leb_num a b)
compare_by gt a b = some (ltb_num b a)
compare_by gte a b = some (leb_num b a)
compare_by (other_operator _) a b = none

abbrev pub holds : Option Bool → Outcome
holds none = failed (some constraint_failed)
holds (some b) = verdict b

-- `NumericLimitConstraint` on a field's value that is neither null nor undefined.
unfoldable pub numeric_test : Runtime → Constraint → Value → Outcome
numeric_test rt c v =
    if is_finite (to_number rt v)
    then holds (compare_by c.operator (to_number rt v) (num_of c.value))
    else failed (some constraint_failed)

-- `const [h, m] = text.split(":").map(Number); h * 60 + (m || 0)`.
abbrev times_60 : Num → Num
times_60 nan = nan
times_60 (fin a) = fin (sub_ℕ (60 * pos_part a) (60 * neg_part a))

abbrev or_zero : Num → Num
or_zero nan = fin (pos 0)
or_zero (fin a) = fin a

clock_of : (String → Num) → List String → Num
clock_of number [] = nan
clock_of number (h ∷ []) = add_num (times_60 (number h)) (fin (pos 0))
clock_of number (h ∷ m ∷ _) = add_num (times_60 (number h)) (or_zero (number m))

unfoldable pub clock_minutes : Runtime → String → Num
unfolding clock_of split add_num
clock_minutes rt text = clock_of rt.number_of_text (split b':' text)

-- The short name of a day that `Intl` may give in full.
unfoldable pub short_day : String → String
short_day d =
    if str_eq d "Monday"
    then "Mon"
    else if str_eq d "Tuesday"
    then "Tue"
    else if str_eq d "Wednesday"
    then "Wed"
    else if str_eq d "Thursday"
    then "Thu"
    else if str_eq d "Friday"
    then "Fri"
    else if str_eq d "Saturday"
    then "Sat"
    else if str_eq d "Sunday"
    then "Sun"
    else d

-- The day is among the allowed days, if any are named.
unfoldable pub day_fits : Option (List String) → String → Bool
day_fits none day = true
day_fits (some []) day = true
day_fits (some (d ∷ ds)) day = includes (d ∷ ds) day

abbrev pub minutes_of : LocalParts → Num
minutes_of parts = fin (pos (parts.hour * 60 + parts.minute))

-- `if (validFrom && currentMinutes < fromMinutes)` fails, and so for the end of the window.
unfoldable pub from_fits : Runtime → String → Num → Bool
from_fits rt text minutes =
    if is_blank text then true else not (ltb_num minutes (clock_minutes rt text))

unfoldable pub until_fits : Runtime → String → Num → Bool
until_fits rt text minutes =
    if is_blank text then true else not (ltb_num (clock_minutes rt text) minutes)

unfoldable pub window_test : Runtime → Constraint → LocalParts → Outcome
window_test rt c parts =
    if day_fits c.days_of_week (short_day parts.weekday)
    then verdict (
        from_fits rt c.valid_from (minutes_of parts)
        && until_fits rt c.valid_until (minutes_of parts))
    else failed none

unfoldable pub zone_test : Runtime → Constraint → Option LocalParts → Outcome
zone_test rt c none = failed (some constraint_failed)
zone_test rt c (some parts) = window_test rt c parts

-- `TemporalWindowConstraint` at a time in milliseconds, NaN if the date is not valid.
unfoldable pub temporal_test : Runtime → Constraint → Num → Outcome
temporal_test rt c nan = failed (some constraint_failed)
temporal_test rt c (fin t) = zone_test rt c (rt.local_parts (or_default c.timezone "UTC") t)

unfoldable pub denies : Option (List String) → Value → Bool
denies none v = false
denies (some xs) v = includes_value xs v

unfoldable pub allows : Option (List String) → Value → Bool
allows none v = true
allows (some xs) v = includes_value xs v

-- `EnumeratedListConstraint`: deny takes precedence over allow.
unfoldable pub enumerated_test : Constraint → Value → Outcome
enumerated_test c v =
    if denies c.denied v then failed none else if allows c.allowed v then passed else failed none

unfoldable pub pattern_test : MatchType → String → String → Option Bool
pattern_test exact pattern actual = some (str_eq actual pattern)
pattern_test prefix pattern actual = some (starts_with (codes actual) (codes pattern))
pattern_test suffix pattern actual = some (ends_with (codes actual) (codes pattern))
pattern_test restricted_glob pattern actual = some (glob_test (codes pattern) (codes actual))
pattern_test (other_match _) pattern actual = none

-- `StringPatternConstraint`.
unfoldable pub string_test : Constraint → Value → Outcome
string_test c (str s) = holds (pattern_test c.match_type c.pattern s)
string_test c _ = failed (some constraint_failed)

-- Each evaluator first resolves its field, and fails on null and undefined.
unfoldable pub on_field : (Value → Outcome) → Value × ErrorCode → Outcome
on_field test (v, code) = if is_nullish v then failed (some code) else test v

pub record Evaluation : Type 0 where
  pub pass : Bool
  pub results : List CheckResult
  pub error : Option ErrorCode

abbrev pub result_passes : CheckResult → Bool
result_passes r = is_pass r.outcome

abbrev pub result_fails : CheckResult → Bool
result_fails r = not (is_pass r.outcome)

-- `firstFailure ? (firstFailure.error || "constraint_failed") : null`
abbrev pub first_error : Option CheckResult → Option ErrorCode
first_error none = none
first_error (some r) = some (or_code (error_of r.outcome) constraint_failed)

module _ (rt : Runtime) (mappings : Mappings) where
  unfoldable pub evaluate_numeric_limit : Constraint → Value → Outcome
  evaluate_numeric_limit c ctx = on_field (numeric_test rt c) (resolve_field mappings c.field ctx)

  -- `context.timestamp` is read where the field is blank or "timestamp".
  unfoldable pub timestamp_of : Value → Num
  timestamp_of (obj fs) =
      if is_truthy (get "timestamp" fs) then rt.date_of (get "timestamp" fs) else fin rt.now
  timestamp_of _ = fin rt.now

  unfoldable pub evaluate_temporal_window : Constraint → Value → Outcome
  evaluate_temporal_window c ctx =
      if is_blank c.field
      then temporal_test rt c (timestamp_of ctx)
      else if str_eq c.field "timestamp"
      then temporal_test rt c (timestamp_of ctx)
      else on_field (λ v. temporal_test rt c (rt.date_of v)) (resolve_field mappings c.field ctx)

  unfoldable pub evaluate_enumerated_list : Constraint → Value → Outcome
  evaluate_enumerated_list c ctx = on_field (enumerated_test c) (resolve_field mappings c.field ctx)

  unfoldable pub evaluate_string_pattern : Constraint → Value → Outcome
  evaluate_string_pattern c ctx = on_field (string_test c) (resolve_field mappings c.field ctx)

  -- The dispatch of `evaluateConstraints` on the constraint's type.
  unfoldable pub dispatch : Kind → Constraint → Value → CheckResult
  dispatch numeric_limit c ctx = record {
    kind = c.kind;
    field = c.field;
    outcome = evaluate_numeric_limit c ctx;
    deferred = false;
  }
  dispatch temporal_window c ctx = record {
    kind = c.kind;
    field = c.field;
    outcome = evaluate_temporal_window c ctx;
    deferred = false;
  }
  dispatch enumerated_list c ctx = record {
    kind = c.kind;
    field = c.field;
    outcome = evaluate_enumerated_list c ctx;
    deferred = false;
  }
  dispatch string_pattern c ctx = record {
    kind = c.kind;
    field = c.field;
    outcome = evaluate_string_pattern c ctx;
    deferred = false;
  }
  dispatch cumulative_limit c ctx = record {
    kind = c.kind;
    field = c.field;
    outcome = passed;
    deferred = true;
  }
  dispatch usage_limit c ctx = record {
    kind = c.kind;
    field = c.field;
    outcome = passed;
    deferred = true;
  }
  dispatch (other_kind _) c ctx = record {
    kind = c.kind;
    field = c.field;
    outcome = failed (some constraint_unknown);
    deferred = false;
  }

  unfoldable pub evaluate_constraint : Constraint → Value → CheckResult
  unfolding dispatch
  evaluate_constraint c ctx = dispatch c.kind c ctx

  unfoldable pub evaluate_all : List Constraint → Value → List CheckResult
  evaluate_all [] ctx = []
  evaluate_all (c ∷ cs) ctx = evaluate_constraint c ctx ∷ evaluate_all cs ctx

  unfoldable pub evaluate_constraints : List Constraint → Value → Evaluation
  evaluate_constraints cs ctx = record {
    pass = every result_passes (evaluate_all cs ctx);
    results = evaluate_all cs ctx;
    error = first_error (find? result_fails (evaluate_all cs ctx));
  }
