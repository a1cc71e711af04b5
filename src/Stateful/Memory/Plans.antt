-- ===== src/Stateful/Memory/Plans.antt =====
-- What a reservation on the memory store plans to write, and what the checks clear.
use mathlib.Core.List.{append-nil, append_assoc}
use aiagent_portable_authori.Base.{
  String, true, false, ◌≡◌, refl, ◌≢◌, ◌⊎◌, inl, inr, List, [], ◌∷◌, ◌++◌, sym, ◌∙◌, arith, All,
  Bool-cases, if◌then◌else◌, str_eq, eq_iff,
}
use aiagent_portable_authori.Base.Int.{◌+ℤ◌, ltb_ℤ}
use aiagent_portable_authori.Base.Assoc.{lookup-insert}
use aiagent_portable_authori.Stateful.{Candidate, StatefulResult, pass_result}
use aiagent_portable_authori.Stateful.Memory.{
  MemoryStore, counter, Pending, is_replay, refused, cleared, check_candidates, commit, commit_all,
}

-- No two candidates count on the same key.
abbrev pub DistinctKeys : List Candidate → Type 0
DistinctKeys [] = Unit
DistinctKeys (c ∷ cs) = All (λ d. d.counter_key ≢ c.counter_key) cs × DistinctKeys cs

abbrev pub pending_of : MemoryStore → Candidate → Pending
pending_of s c = record {
  candidate = c;
  current = counter s c.counter_key;
  next = counter s c.counter_key +ℤ c.increment;
}

-- The candidates that a cleared reservation will write.
abbrev pub plan : MemoryStore → String → List Candidate → List Pending
plan s k [] = []
plan s k (c ∷ cs) = if is_replay s k c then plan s k cs else pending_of s c ∷ plan s k cs

-- A candidate is a replay, or its counter stays within its limit.
abbrev pub Fits : MemoryStore → String → Candidate → Type 0
Fits s k c =
    (is_replay s k c ≡ true) ⊎ (ltb_ℤ c.limit (counter s c.counter_key +ℤ c.increment) ≡ false)

pub refused-ne-cleared :
    {rs rs' : List StatefulResult} {ps : List Pending} → refused rs ≡ cleared rs' ps → ⊥
refused-ne-cleared h = cc

pub check_candidates-cleared :
    (s : MemoryStore) (k : String) (cs : List Candidate) (rs rs' : List StatefulResult)
    (ps ps' : List Pending)
    → check_candidates s k cs rs ps ≡ cleared rs' ps'
    → (ps' ≡ ps ++ plan s k cs) × All (Fits s k) cs
unfolding check_candidates
check_candidates-cleared s k [] rs rs' ps ps' h =
    let same : ps ≡ ps' = cc in (sym same ∙ sym (append-nil ps), tt)
check_candidates-cleared s k (c ∷ cs) rs rs' ps ps' h = elim (Bool-cases (is_replay s k c)) [
  | inl e ↦
      let current = counter s c.counter_key in
      let (planned, fit) =
        check_candidates-cleared s k cs (rs ++ pass_result c current current true ∷ []) rs' ps ps'
          (rw e at h) in
      (rw e planned, (inl e, fit))
  | inr e ↦ elim (Bool-cases (ltb_ℤ c.limit (counter s c.counter_key +ℤ c.increment))) [
    | inl over ↦ absurd (refused-ne-cleared (rw over at (rw e at h)))
    | inr within ↦
        let (planned, fit) =
          check_candidates-cleared s k cs rs rs' (ps ++ pending_of s c ∷ []) ps'
            (rw within at (rw e at h)) in
        (rw e (planned ∙ append_assoc ps (pending_of s c ∷ []) (plan s k cs)), (inr within, fit))
  ]
]

pub counter-commit :
    (s : MemoryStore) (k key : String) (item : Pending)
    → counter (commit s k item) key
      ≡ (if str_eq item.candidate.counter_key key then item.next else counter s key)
unfolding counter commit
counter-commit s k key item =
    ground (arith, lookup-insert item.candidate.counter_key key item.next s.counters)

pub counter-commit_all_other :
    (s : MemoryStore) (k key : String) (items : List Pending)
    → All (λ item. item.candidate.counter_key ≢ key) items
    → counter (commit_all s k items) key ≡ counter s key
unfolding commit_all
counter-commit_all_other s k key [] h = refl
counter-commit_all_other s k key (item ∷ items) (h, hs) =
    counter-commit_all_other (commit s k item) k key items hs
    ∙ ground (arith, counter-commit s k key item, eq_iff item.candidate.counter_key key)

pub plan-keys :
    (s : MemoryStore) (k key : String) (cs : List Candidate)
    → All (λ c. c.counter_key ≢ key) cs
    → All (λ item. item.candidate.counter_key ≢ key) (plan s k cs)
plan-keys s k key [] h = tt
plan-keys s k key (c ∷ cs) (h, hs) = elim (Bool-cases (is_replay s k c)) [
  | inl e ↦ rw e (plan-keys s k key cs hs)
  | inr e ↦ rw e (h, plan-keys s k key cs hs)
]
