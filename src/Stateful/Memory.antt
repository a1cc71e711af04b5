-- ===== src/Stateful/Memory.antt =====
-- `MemoryStatefulStore`: counters and seen events in memory. All candidates are checked against
-- the counters before any counter is written.
pub mod Plans
pub mod Laws
pub mod Retry
use aiagent_portable_authori.Base.{
  ℕ, String, Bool, true, false, not, ◌&&◌, Option, none, some, List, [], ◌∷◌, ◌++◌, if◌then◌else◌,
  includes,
}
use aiagent_portable_authori.Base.Int.{ℤ, pos, ◌+ℤ◌, ltb_ℤ}
use aiagent_portable_authori.Base.Assoc.{lookup, insert}
use aiagent_portable_authori.Value.{is_blank}
use aiagent_portable_authori.Stateful.{
  Candidate, StatefulResult, pass_result, deny_result, Reservation, event_key,
}

pub record MemoryStore : Type 0 where
  pub counters : List (String × ℤ)
  pub events : List String

-- `this.counters.get(key) || 0`
unfoldable pub counter : MemoryStore → String → ℤ
counter s key = elim (lookup key s.counters) [ none ↦ pos 0 | some n ↦ n ]

pub record Pending : Type 0 where
  pub candidate : Candidate
  pub current : ℤ
  pub next : ℤ

-- Was this candidate counted before, under the same idempotency key?
abbrev pub is_replay : MemoryStore → String → Candidate → Bool
is_replay s idempotency c =
    not (is_blank idempotency) && includes s.events (event_key idempotency c.counter_key)

pub data Checked : Type 0 where
  refused : List StatefulResult → Checked
  cleared : List StatefulResult → List Pending → Checked

-- The first loop: replays pass, a limit exceeded ends the reservation, all else waits.
unfoldable pub check_candidates :
    MemoryStore → String → List Candidate → List StatefulResult → List Pending → Checked
check_candidates s idempotency [] results pending = cleared results pending
check_candidates s idempotency (c ∷ cs) results pending =
    let current = counter s c.counter_key in
    let next = current +ℤ c.increment in
    let replayed =
      check_candidates s idempotency cs (results ++ pass_result c current current true ∷ [])
        pending in
    let waiting =
      check_candidates s idempotency cs results
        (pending ++ record { candidate = c; current = current; next = next } ∷ []) in
    if is_replay s idempotency c
    then replayed
    else if ltb_ℤ c.limit next
    then refused (results ++ deny_result c current next ∷ [])
    else waiting

unfoldable pub commit : MemoryStore → String → Pending → MemoryStore
commit s idempotency item = record {
  counters = insert item.candidate.counter_key item.next s.counters;
  events =
      if is_blank idempotency
      then s.events
      else event_key idempotency item.candidate.counter_key ∷ s.events;
}

unfoldable pub commit_all : MemoryStore → String → List Pending → MemoryStore
commit_all s idempotency [] = s
commit_all s idempotency (item ∷ items) = commit_all (commit s idempotency item) idempotency items

abbrev pub results_of : List Pending → List StatefulResult
results_of [] = []
results_of (item ∷ items) =
    pass_result item.candidate item.current item.next false ∷ results_of items

unfoldable pub settle : MemoryStore → String → Checked → MemoryStore × Reservation
settle s idempotency (refused results) = (s, record { pass = false; results = results })
settle s idempotency (cleared results pending) = (
  commit_all s idempotency pending,
  record { pass = true; results = results ++ results_of pending },
)

unfoldable pub reserve : MemoryStore → List Candidate → String → MemoryStore × Reservation
unfolding check_candidates settle commit_all commit counter ◌+ℤ◌ lookup insert
reserve s candidates idempotency =
    settle s idempotency (check_candidates s idempotency candidates [] [])
