-- ===== src/Stateful/Memory/Retry.antt =====
-- Retries of a reservation on the memory store under the same idempotency key.
use mathlib.Core.Path.{subst}
use mathlib.Core.List.{append-nil, append_assoc}
use aiagent_portable_authori.Base.{
  String, true, false, ◌≡◌, inl, inr, List, [], ◌∷◌, ◌++◌, ap, sym, ◌∙◌, arith, All, Bool-cases,
  includes, eq_iff,
}
use aiagent_portable_authori.Value.{is_blank}
use aiagent_portable_authori.Stateful.{
  Candidate, StatefulResult, pass_result, Reservation, event_key,
}
use aiagent_portable_authori.Stateful.Memory.{
  MemoryStore, counter, Pending, is_replay, cleared, check_candidates, commit, commit_all, settle,
  reserve,
}
use aiagent_portable_authori.Stateful.Memory.Laws.{
  plan, pending_of, reserve-pass, plan-replay, plan-waiting,
}

events-commit_all :
    (s : MemoryStore) (k x : String) (items : List Pending)
    → includes s.events x ≡ true
    → includes (commit_all s k items).events x ≡ true
unfolding commit_all commit
events-commit_all s k x [] h = h
events-commit_all s k x (item ∷ items) h =
    events-commit_all (commit s k item) k x items (ground arith)

events-commit :
    (s : MemoryStore) (k : String) (item : Pending)
    → is_blank k ≡ false
    → includes (commit s k item).events (event_key k item.candidate.counter_key) ≡ true
unfolding commit
events-commit s k item named = ground (
  arith,
  eq_iff (event_key k item.candidate.counter_key) (event_key k item.candidate.counter_key),
)

-- After the plan is committed every candidate is a replay.
plan-replays :
    (s s' : MemoryStore) (k : String) (cs : List Candidate)
    → is_blank k ≡ false
    → ((x : String) → includes s.events x ≡ true → includes s'.events x ≡ true)
    → All (λ c. is_replay (commit_all s' k (plan s k cs)) k c ≡ true) cs
unfolding commit_all
plan-replays s s' k [] named grown = tt
plan-replays s s' k (c ∷ cs) named grown = elim (Bool-cases (is_replay s k c)) [
  | inl e ↦
      subst (λ items. All (λ d. is_replay (commit_all s' k items) k d ≡ true) (c ∷ cs))
        (sym (plan-replay s k c cs e))
        (
          rw named (
              events-commit_all s' k (event_key k c.counter_key) (plan s k cs)
                (grown (event_key k c.counter_key) (ground arith))),
          plan-replays s s' k cs named grown,
        )
  | inr e ↦
      let s'' = commit s' k (pending_of s c) in
      subst (λ items. All (λ d. is_replay (commit_all s' k items) k d ≡ true) (c ∷ cs))
        (sym (plan-waiting s k c cs e))
        (
          rw named (
              events-commit_all s'' k (event_key k c.counter_key) (plan s k cs)
                (events-commit s' k (pending_of s c) named)),
          plan-replays s s'' k cs named
              (λ x h. events-commit_all s' k x (pending_of s c ∷ []) (grown x h)),
        )
]

abbrev pub replay_results : MemoryStore → List Candidate → List StatefulResult
replay_results s [] = []
replay_results s (c ∷ cs) =
    pass_result c (counter s c.counter_key) (counter s c.counter_key) true ∷ replay_results s cs

check_candidates-replays :
    (s : MemoryStore) (k : String) (cs : List Candidate) (rs : List StatefulResult)
    (ps : List Pending)
    → All (λ c. is_replay s k c ≡ true) cs
    → check_candidates s k cs rs ps ≡ cleared (rs ++ replay_results s cs) ps
unfolding check_candidates
check_candidates-replays s k [] rs ps h = ap (λ r. cleared r ps) (sym (append-nil rs))
check_candidates-replays s k (c ∷ cs) rs ps (h, hs) =
    let current = counter s c.counter_key in
    rw h (
      check_candidates-replays s k cs (rs ++ pass_result c current current true ∷ []) ps hs
      ∙ ap (λ r. cleared r ps)
          (append_assoc rs (pass_result c current current true ∷ []) (replay_results s cs)))

reserve-replays :
    (s : MemoryStore) (k : String) (cs : List Candidate)
    → All (λ c. is_replay s k c ≡ true) cs
    → reserve s cs k ≡ (s, record { pass = true; results = replay_results s cs })
unfolding reserve settle commit_all
reserve-replays s k cs h =
    ap (settle s k) (check_candidates-replays s k cs [] [] h)
    ∙ ap (λ (r : List StatefulResult). settled r) (append-nil (replay_results s cs))
  where
    settled : List StatefulResult → MemoryStore × Reservation
    settled r = (s, record { pass = true; results = r })

-- A retry of a reservation that passed, with the same idempotency key, passes, changes nothing and
-- reports every candidate as a replay at its present count.
pub reserve_retry :
    (s : MemoryStore) (k : String) (cs : List Candidate)
    → is_blank k ≡ false
    → (reserve s cs k).1.pass ≡ true
    → reserve (reserve s cs k).0 cs k
      ≡ ((reserve s cs k).0, record { pass = true; results = replay_results (reserve s cs k).0 cs })
reserve_retry s k cs named pass =
    let (stored, _) = reserve-pass s k cs pass in
    reserve-replays (reserve s cs k).0 k cs (
      subst (λ t. All (λ c. is_replay t k c ≡ true) cs) (sym stored)
        (plan-replays s s k cs named (λ x h. h)))
