-- ===== src/Stateful/Memory/Laws.antt =====
-- Laws of the memory store.
use mathlib.Core.List.{append-nil, append_assoc}
use mathlib.Core.Bool.{false≢true}
use mathlib.Core.Path.{subst}
use aiagent_portable_authori.Base.{
  String, true, false, ◌≡◌, refl, ◌≢◌, ◌↔◌, inl, inr, List, [], ◌∷◌, ◌++◌, ap, sym, ◌∙◌, arith, All,
  Bool-cases, if◌then◌else◌, eq_iff, All-zip,
}
use aiagent_portable_authori.Base.Int.{ℤ, ◌+ℤ◌, ltb_ℤ}
use aiagent_portable_authori.Stateful.{Candidate, StatefulResult, pass_result}
use aiagent_portable_authori.Stateful.Memory.{
  MemoryStore, counter, Pending, is_replay, Checked, refused, cleared, check_candidates, commit,
  commit_all, settle, reserve,
}
pub use aiagent_portable_authori.Stateful.Memory.Plans.{DistinctKeys, pending_of, plan, Fits}
use aiagent_portable_authori.Stateful.Memory.Plans.{
  check_candidates-cleared, counter-commit, counter-commit_all_other, plan-keys,
}

-- What a counter holds after a reservation that passes.
abbrev pub counted : MemoryStore → String → Candidate → ℤ
counted s k c =
    if is_replay s k c then counter s c.counter_key else counter s c.counter_key +ℤ c.increment

pub plan-replay :
    (s : MemoryStore) (k : String) (c : Candidate) (cs : List Candidate)
    → is_replay s k c ≡ true
    → plan s k (c ∷ cs) ≡ plan s k cs
plan-replay s k c cs e = rw e

pub plan-waiting :
    (s : MemoryStore) (k : String) (c : Candidate) (cs : List Candidate)
    → is_replay s k c ≡ false
    → plan s k (c ∷ cs) ≡ pending_of s c ∷ plan s k cs
plan-waiting s k c cs e = rw e

counter-commit_self :
    (s : MemoryStore) (k : String) (item : Pending)
    → counter (commit s k item) item.candidate.counter_key ≡ item.next
counter-commit_self s k item = ground (
  arith,
  counter-commit s k item.candidate.counter_key item,
  eq_iff item.candidate.counter_key item.candidate.counter_key,
)

counter-commit_other :
    (s : MemoryStore) (k key : String) (item : Pending)
    → item.candidate.counter_key ≢ key
    → counter (commit s k item) key ≡ counter s key
counter-commit_other s k key item ne =
    ground (arith, counter-commit s k key item, eq_iff item.candidate.counter_key key)

abbrev After : MemoryStore → MemoryStore → String → List Pending → List Candidate → Type 0
After s s' k items = All (λ c. counter (commit_all s' k items) c.counter_key ≡ counted s k c)

counter-plan :
    (s s' : MemoryStore) (k : String) (cs : List Candidate)
    → DistinctKeys cs
    → All (λ c. counter s' c.counter_key ≡ counter s c.counter_key) cs
    → After s s' k (plan s k cs) cs
unfolding commit_all
counter-plan s s' k [] d same = tt
counter-plan s s' k (c ∷ cs) (d, ds) (here, same) = elim (Bool-cases (is_replay s k c)) [
  | inl e ↦
      subst (λ items. After s s' k items (c ∷ cs)) (sym (plan-replay s k c cs e))
        (
          counter-commit_all_other s' k c.counter_key (plan s k cs)
                (plan-keys s k c.counter_key cs d)
              ∙ here
              ∙ rw e,
          counter-plan s s' k cs ds same,
        )
  | inr e ↦
      let s'' = commit s' k (pending_of s c) in
      subst (λ items. After s s' k items (c ∷ cs)) (sym (plan-waiting s k c cs e))
        (
          counter-commit_all_other s'' k c.counter_key (plan s k cs)
                (plan-keys s k c.counter_key cs d)
              ∙ counter-commit_self s' k (pending_of s c)
              ∙ rw e,
          counter-plan s s'' k cs ds (
              All-zip (λ x. x.counter_key ≢ c.counter_key)
                (λ x. counter s' x.counter_key ≡ counter s x.counter_key)
                (λ x. counter s'' x.counter_key ≡ counter s x.counter_key) cs
                (λ x ne eq.
                  counter-commit_other s' k x.counter_key (pending_of s c) (λ p. ne (sym p)) ∙ eq)
                d same),
        )
]

settle-pass :
    (s : MemoryStore) (k : String) (cs : List Candidate) (v : Checked)
    → check_candidates s k cs [] [] ≡ v
    → (settle s k v).1.pass ≡ true
    → ((settle s k v).0 ≡ commit_all s k (plan s k cs)) × All (Fits s k) cs
unfolding settle
settle-pass s k cs (refused rs) e pass = absurd (false≢true pass)
settle-pass s k cs (cleared rs ps) e pass =
    let (planned, fit) = check_candidates-cleared s k cs [] rs [] ps e in
    (ap (commit_all s k) planned, fit)

pub reserve-pass :
    (s : MemoryStore) (k : String) (cs : List Candidate)
    → (reserve s cs k).1.pass ≡ true
    → ((reserve s cs k).0 ≡ commit_all s k (plan s k cs)) × All (Fits s k) cs
unfolding reserve
reserve-pass s k cs pass = settle-pass s k cs (check_candidates s k cs [] []) refl pass

same-counters :
    (t : MemoryStore) (ds : List Candidate)
    → All (λ c. counter t c.counter_key ≡ counter t c.counter_key) ds
same-counters t [] = tt
same-counters t (x ∷ ds) = (refl, same-counters t ds)

pub reserve-counted :
    (s : MemoryStore) (k : String) (cs : List Candidate)
    → DistinctKeys cs
    → (reserve s cs k).1.pass ≡ true
    → All (λ c. counter (reserve s cs k).0 c.counter_key ≡ counted s k c) cs
reserve-counted s k cs d pass =
    subst (λ t. All (λ c. counter t c.counter_key ≡ counted s k c) cs)
      (sym (reserve-pass s k cs pass).0) (counter-plan s s k cs d (same-counters s cs))

-- A reservation that passes leaves every limit kept: each candidate is a replay, or its counter
-- and its increment stay within its limit. Each counter then holds what it held, raised by the
-- increment unless the candidate is a replay, and no other counter changes. The candidates' keys
-- are taken to be different.
pub reserve_counts :
    (s : MemoryStore) (k other : String) (cs : List Candidate)
    → DistinctKeys cs
    → (reserve s cs k).1.pass ≡ true
    → All (λ c. c.counter_key ≢ other) cs
    → All (Fits s k) cs
      × All (λ c. counter (reserve s cs k).0 c.counter_key ≡ counted s k c) cs
      × (counter (reserve s cs k).0 other ≡ counter s other)
reserve_counts s k other cs d pass apart =
    let (stored, fit) = reserve-pass s k cs pass in
    (
      fit,
      reserve-counted s k cs d pass,
      subst (λ t. counter t other ≡ counter s other) (sym stored)
          (counter-commit_all_other s k other (plan s k cs) (plan-keys s k other cs apart)),
    )

-- A reservation that is refused changes nothing: no counter of any candidate and no event.
pub reserve_refused :
    (s : MemoryStore) (k : String) (cs : List Candidate)
    → (reserve s cs k).1.pass ≡ false
    → (reserve s cs k).0 ≡ s
unfolding reserve
reserve_refused s k cs h = go (check_candidates s k cs [] []) h
  where
    go : (v : Checked) → (settle s k v).1.pass ≡ false → (settle s k v).0 ≡ s
    go (refused rs) h = refl
    go (cleared rs ps) h = cc

Fits-waiting :
    (s : MemoryStore) (k : String) (c : Candidate)
    → is_replay s k c ≡ false
    → Fits s k c
    → ltb_ℤ c.limit (counter s c.counter_key +ℤ c.increment) ≡ false
Fits-waiting s k c e (inl r) = cc
Fits-waiting s k c e (inr w) = w

check_candidates_complete :
    (s : MemoryStore) (k : String) (cs : List Candidate) (rs : List StatefulResult)
    (ps : List Pending)
    → All (Fits s k) cs
    → (rs' : List StatefulResult) × (check_candidates s k cs rs ps
        ≡ cleared rs' (ps ++ plan s k cs))
unfolding check_candidates
check_candidates_complete s k [] rs ps h = (rs, ap (cleared rs) (sym (append-nil ps)))
check_candidates_complete s k (c ∷ cs) rs ps (h, hs) = elim (Bool-cases (is_replay s k c)) [
  | inl e ↦
      let current = counter s c.counter_key in
      let (rs', done) =
        check_candidates_complete s k cs (rs ++ pass_result c current current true ∷ []) ps hs in
      (rs', rw e done)
  | inr e ↦
      let within : ltb_ℤ c.limit (counter s c.counter_key +ℤ c.increment) ≡ false =
        Fits-waiting s k c e h in
      let (rs', done) = check_candidates_complete s k cs rs (ps ++ pending_of s c ∷ []) hs in
      (
        rs',
        rw (e, within)
            (done ∙ ap (cleared rs') (append_assoc ps (pending_of s c ∷ []) (plan s k cs))),
      )
]

-- A reservation passes exactly when every candidate is a replay or stays within its limit.
pub reserve_iff :
    (s : MemoryStore) (k : String) (cs : List Candidate)
    → ((reserve s cs k).1.pass ≡ true) ↔ All (Fits s k) cs
unfolding reserve settle
reserve_iff s k cs = (
  λ pass. (reserve-pass s k cs pass).1,
  λ fit.
      let (rs, done) = check_candidates_complete s k cs [] [] fit in
      ap (λ (v : Checked). (settle s k v).1.pass) done,
)
