-- ===== src/Stateful.antt =====
-- portauth-engine/src/services/statefulAuthorizer.js: limits on use and on amounts, counted in
-- windows of time. Calendar months, ISO texts and SHA-256 of a stable text are arguments.
pub mod Windows
pub mod Memory
pub mod Postgres
pub mod Authority
pub mod Authorize
use aiagent_portable_authori.Base.{
  ℕ, ◌+◌, ◌-◌, ◌%◌, String, Bool, true, false, not, Option, none, some, List, [], ◌∷◌,
  if◌then◌else◌, str_eq,
}
use aiagent_portable_authori.Base.Int.{ℤ, pos, ◌+ℤ◌, ltb_ℤ}
use aiagent_portable_authori.Base.Num.{Num, nan, fin}
use aiagent_portable_authori.Codes.{
  ErrorCode, constraint_failed, constraint_unknown, context_field_missing,
}
use aiagent_portable_authori.Value.{
  Value, Fields, nil, field, undefined, str, obj, get, put, is_blank, or_default, Runtime,
  to_number,
}
use aiagent_portable_authori.Payload.{
  Kind, numeric_limit, temporal_window, enumerated_list, string_pattern, cumulative_limit,
  usage_limit, other_kind, Constraint, Payload,
}
use aiagent_portable_authori.Semantic.{Mappings, resolved, unresolved, resolve_semantic_field}
use aiagent_portable_authori.Delegation.{amount_limit, uses_limit}

-- Times are milliseconds since 1970.
pub record Platform : Type 0 where
  pub month_start : ℕ → ℕ
  pub next_month : ℕ → ℕ
  pub iso_string : ℕ → String
  pub digest : Value → String
  pub constraint_digest : ℕ → Constraint → String

pub record Window : Type 0 where
  pub start : ℕ
  pub end : ℕ

abbrev pub hour_ms : ℕ
hour_ms = 3_600_000

abbrev pub day_ms : ℕ
day_ms = 86_400_000

-- `windowForPeriod`. The end of a day is set from the time itself, not from the day's start.
unfoldable pub window_for_period : Platform → String → ℕ → Window
window_for_period pf period now =
    if str_eq period "hour"
    then record { start = now - now % hour_ms; end = now - now % hour_ms + hour_ms }
    else if str_eq period "day"
    then record { start = now - now % day_ms; end = now + day_ms }
    else if str_eq period "month"
    then record { start = pf.month_start now; end = pf.next_month (pf.month_start now) }
    else record { start = 0; end = 253_402_300_799_999 }

abbrev pub kind_text : Kind → String
kind_text numeric_limit = "NumericLimitConstraint"
kind_text temporal_window = "TemporalWindowConstraint"
kind_text enumerated_list = "EnumeratedListConstraint"
kind_text string_pattern = "StringPatternConstraint"
kind_text cumulative_limit = "CumulativeLimitConstraint"
kind_text usage_limit = "UsageLimitConstraint"
kind_text (other_kind s) = s

-- A text that may be absent, as a value.
abbrev pub text_value : String → Value
text_value s = if is_blank s then undefined else str s

abbrev scope_part : String → Payload → Value → Fields → Fields
scope_part scope payload resource rest =
    if str_eq scope "credential"
    then put "credentialId" (text_value payload.credential_id) rest
    else if str_eq scope "agent"
    then put "issuerId" (text_value payload.issuer_id)
        (put "agentId" (text_value payload.agent_id) rest)
    else if str_eq scope "issuer"
    then put "issuerId" (text_value payload.issuer_id) rest
    else if str_eq scope "resource"
    then put "resource" resource (put "agentId" (text_value payload.agent_id) rest)
    else rest

abbrev own : String → Value → Value
own key (obj fs) = get key fs
own key _ = undefined

add_scope_fields : List String → Value → Fields → Fields
add_scope_fields [] ctx material = material
add_scope_fields (f ∷ fs) ctx material =
    add_scope_fields fs ctx (put (Prim.Native.String.◌++◌ "field:" f) (own f ctx) material)

unfoldable pub scope_material : Platform → Constraint → Value → Payload → ℕ → Window → Fields
unfolding add_scope_fields put
scope_material pf c ctx payload index window =
    let scope = or_default c.scope "credential" in
    add_scope_fields c.scope_fields ctx (
      scope_part scope payload (own "resource" ctx) (
        field "type" (str (kind_text c.kind)) (
          field "constraintId" (str (or_default c.id (pf.constraint_digest index c))) (
            field "scope" (str scope)
              (field "windowStart" (str (pf.iso_string window.start)) nil)))))

pub data Metric : Type 0 where
  count amount : Metric

pub record Candidate : Type 0 where
  pub constraint : Constraint
  pub counter_key : String
  pub window_start : ℕ
  pub window_end : ℕ
  pub metric : Metric
  pub increment : ℤ
  pub limit : ℤ

pub data Built : Type 0 where
  built : Candidate → Built
  not_built : ErrorCode → Built

pub data Read : Type 0 where
  read : ℤ → Read
  not_read : ErrorCode → Read

-- `readNumericField`.
unfoldable pub read_numeric_field : Runtime → Mappings → String → Value → Read
read_numeric_field rt m name ctx = elim (resolve_semantic_field m name ctx) [
  | unresolved code ↦ not_read code
  | resolved _ v ↦ elim (to_number rt v) [ nan ↦ not_read constraint_failed | fin n ↦ read n ]
]

abbrev counter_key_of : Platform → Constraint → Value → Payload → ℕ → Window → String
counter_key_of pf c ctx payload index window =
    Prim.Native.String.◌++◌ "stateful:"
      (pf.digest (obj (scope_material pf c ctx payload index window)))

abbrev with_limit : Num → (ℤ → Built) → Built
with_limit nan k = not_built constraint_failed
with_limit (fin n) k = k n

abbrev with_amount : Read → (ℤ → Built) → Built
with_amount (not_read code) k = not_built code
with_amount (read n) k = k n

module _ (rt : Runtime) (pf : Platform) (m : Mappings) where
  abbrev candidate : Constraint → Value → Payload → ℕ → ℕ → Metric → ℤ → ℤ → Candidate
  candidate c ctx payload index now metric increment limit =
      let window = window_for_period pf (or_default c.period "forever") now in
      record {
        constraint = c;
        counter_key = counter_key_of pf c ctx payload index window;
        window_start = window.start;
        window_end = window.end;
        metric = metric;
        increment = increment;
        limit = limit;
      }

  -- The dispatch of `buildCandidate` on the constraint's type.
  unfoldable pub build_kind : Kind → Constraint → Value → Payload → ℕ → ℕ → Built
  build_kind usage_limit c ctx payload index now =
      with_limit (uses_limit c)
        (λ limit. built (candidate c ctx payload index now count (pos 1) limit))
  build_kind cumulative_limit c ctx payload index now =
      if is_blank c.field
      then not_built constraint_failed
      else with_limit (amount_limit c) (λ limit.
        with_amount (read_numeric_field rt m c.field ctx)
          (λ n. built (candidate c ctx payload index now amount n limit)))
  build_kind _ c ctx payload index now = not_built constraint_unknown

  unfoldable pub build_candidate : Constraint → Value → Payload → ℕ → ℕ → Built
  unfolding build_kind
  build_candidate c ctx payload index now = build_kind c.kind c ctx payload index now

-- `passResult` and `denyResult`: what was counted before and would be after.
pub record StatefulResult : Type 0 where
  pub candidate : Candidate
  pub pass : Bool
  pub current : ℤ
  pub next : ℤ
  pub replay : Bool

abbrev pub pass_result : Candidate → ℤ → ℤ → Bool → StatefulResult
pass_result c current next replay = record {
  candidate = c;
  pass = true;
  current = current;
  next = next;
  replay = replay;
}

abbrev pub deny_result : Candidate → ℤ → ℤ → StatefulResult
deny_result c current next = record {
  candidate = c;
  pass = false;
  current = current;
  next = next;
  replay = false;
}

-- What `reserve` returns; a denial carries stateful_limit_exceeded.
pub record Reservation : Type 0 where
  pub pass : Bool
  pub results : List StatefulResult

-- `${idempotencyKey}:${counterKey}`
abbrev pub event_key : String → String → String
event_key idempotency counter =
    Prim.Native.String.◌++◌ idempotency (Prim.Native.String.◌++◌ ":" counter)
