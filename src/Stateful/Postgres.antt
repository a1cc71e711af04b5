-- ===== src/Stateful/Postgres.antt =====
-- `PostgresStatefulStore`: counters and events in two tables, counted in one transaction. A row
-- that is missing is inserted with zeros; a limit exceeded rolls the transaction back. Errors of
-- the database itself are left out.
pub mod Counts
pub mod Laws
pub mod Refines
use aiagent_portable_authori.Base.{
  ℕ, String, Bool, true, false, not, ◌&&◌, Option, none, some, List, [], ◌∷◌, ◌++◌, if◌then◌else◌,
  any, str_eq,
}
use aiagent_portable_authori.Base.Int.{ℤ, pos, ◌+ℤ◌, ltb_ℤ}
use aiagent_portable_authori.Base.Assoc.{lookup, insert}
use aiagent_portable_authori.Value.{is_blank}
use aiagent_portable_authori.Stateful.{
  Candidate, Metric, count, amount, StatefulResult, pass_result, deny_result, Reservation,
}

pub record Counter : Type 0 where
  pub used_amount : ℤ
  pub usage_count : ℤ

-- portauth_authorization_counters by counter key, and portauth_authorization_counter_events as
-- pairs of an idempotency key and a counter key.
pub record Tables : Type 0 where
  pub counters : List (String × Counter)
  pub events : List (String × String)

abbrev pub zero_counter : Counter
zero_counter = record { used_amount = pos 0; usage_count = pos 0 }

abbrev pub row_or_zero : Option Counter → Counter
row_or_zero none = zero_counter
row_or_zero (some r) = r

abbrev pub by_metric : Metric → Counter → ℤ
by_metric amount r = r.used_amount
by_metric count r = r.usage_count

-- What a counter shows for a metric; a missing row counts nothing.
unfoldable pub used : Tables → Metric → String → ℤ
used t metric key = by_metric metric (row_or_zero (lookup key t.counters))

unfoldable pub has_event : Tables → String → String → Bool
has_event t idempotency key = any (λ e. str_eq e.0 idempotency && str_eq e.1 key) t.events

abbrev pub is_replay : Tables → String → Candidate → Bool
is_replay t idempotency c = not (is_blank idempotency) && has_event t idempotency c.counter_key

-- `SET used_amount = used_amount + $2, usage_count = usage_count + $3`
abbrev pub raise : Metric → ℤ → Counter → Counter
raise amount n r = record r { used_amount = r.used_amount +ℤ n }
raise count n r = record r { usage_count = r.usage_count +ℤ n }

-- The insertion of a missing row, the update and the insertion of the event.
unfoldable pub count_up : Tables → String → Candidate → Tables
count_up t idempotency c = record {
  counters =
      insert c.counter_key
        (raise c.metric c.increment (row_or_zero (lookup c.counter_key t.counters))) t.counters;
  events = if is_blank idempotency then t.events else (idempotency, c.counter_key) ∷ t.events;
}

-- The loop of the transaction; `before` is what a rollback restores.
unfoldable pub transaction :
    Tables → Tables → String → List Candidate → List StatefulResult → Tables × Reservation
transaction before t idempotency [] results = (t, record { pass = true; results = results })
transaction before t idempotency (c ∷ cs) results =
    let current = used t c.metric c.counter_key in
    let next = current +ℤ c.increment in
    let replayed =
      transaction before t idempotency cs (results ++ pass_result c current current true ∷ []) in
    let counted =
      transaction before (count_up t idempotency c) idempotency cs
        (results ++ pass_result c current next false ∷ []) in
    if is_replay t idempotency c
    then replayed
    else if ltb_ℤ c.limit next
    then (before, record { pass = false; results = results ++ deny_result c current next ∷ [] })
    else counted

unfoldable pub reserve : Tables → List Candidate → String → Tables × Reservation
unfolding transaction used count_up has_event lookup insert ◌+ℤ◌
reserve t candidates idempotency = transaction t t idempotency candidates []
