-- ===== src/Stateful/Postgres/Refines.antt =====
-- The memory store and the transaction side by side.
use aiagent_portable_authori.Base.{
  String, Bool, true, false, ◌≡◌, refl, ◌↔◌, inl, inr, List, ap, sym, ◌∙◌, All, All-zip, Bool-cases,
}
use aiagent_portable_authori.Base.Int.{◌+ℤ◌, ltb_ℤ}
use aiagent_portable_authori.Stateful.{Candidate}
use aiagent_portable_authori.Stateful.Memory
use aiagent_portable_authori.Stateful.Memory.{MemoryStore, counter}
use aiagent_portable_authori.Stateful.Memory.Laws as MemoryLaws
use aiagent_portable_authori.Stateful.Memory.Laws.{DistinctKeys}
use aiagent_portable_authori.Stateful.Postgres
use aiagent_portable_authori.Stateful.Postgres.{Tables, used}
use aiagent_portable_authori.Stateful.Postgres.Laws

-- The stores show the same count and the same history for a candidate.
pub record Agree (s : MemoryStore) (t : Tables) (k : String) (c : Candidate) : Type 0 where
  pub counts : counter s c.counter_key ≡ used t c.metric c.counter_key
  pub replays : Memory.is_replay s k c ≡ Postgres.is_replay t k c

Fits-Agree :
    (s : MemoryStore) (t : Tables) (k : String) (c : Candidate)
    → Agree s t k c
    → MemoryLaws.Fits s k c ↔ Laws.Fits t k c
Fits-Agree s t k c a = (
  λ f. elim f [
    | inl r ↦ inl (sym a.replays ∙ r)
    | inr w ↦ inr (ap (λ n. ltb_ℤ c.limit (n +ℤ c.increment)) (sym a.counts) ∙ w)
  ],
  λ f. elim f [
    | inl r ↦ inl (a.replays ∙ r)
    | inr w ↦ inr (ap (λ n. ltb_ℤ c.limit (n +ℤ c.increment)) a.counts ∙ w)
  ],
)

counted-Agree :
    (s : MemoryStore) (t : Tables) (k : String) (c : Candidate)
    → Agree s t k c
    → MemoryLaws.counted s k c ≡ Laws.counted t k c
counted-Agree s t k c a = rw (a.replays) (rw (a.counts) refl)

Bool-ext : (a b : Bool) → (a ≡ true → b ≡ true) → (b ≡ true → a ≡ true) → a ≡ b
Bool-ext true b f g = sym (f refl)
Bool-ext false true f g = g refl
Bool-ext false false f g = refl

All-map :
    (P Q : Candidate → Type 0) (cs : List Candidate)
    → ((c : Candidate) → P c → Q c)
    → All P cs
    → All Q cs
All-map P Q cs f h = All-zip P P Q cs (λ c p _. f c p) h h

same_verdict :
    (s : MemoryStore) (t : Tables) (k : String) (cs : List Candidate)
    → DistinctKeys cs
    → All (Agree s t k) cs
    → (Memory.reserve s cs k).1.pass ≡ (Postgres.reserve t cs k).1.pass
same_verdict s t k cs d agree =
    let (sound, complete) = MemoryLaws.reserve_iff s k cs in
    let (sound', complete') = Laws.transaction_iff t k cs d in
    Bool-ext (Memory.reserve s cs k).1.pass (Postgres.reserve t cs k).1.pass
      (λ h. complete' (
        All-zip (Agree s t k) (MemoryLaws.Fits s k) (Laws.Fits t k) cs
          (λ c a. (Fits-Agree s t k c a).0) agree (sound h)))
      (λ h. complete (
        All-zip (Agree s t k) (Laws.Fits t k) (MemoryLaws.Fits s k) cs
          (λ c a. (Fits-Agree s t k c a).1) agree (sound' h)))

-- On stores that agree, and candidates with different keys, the memory store and the transaction
-- give the same verdict on a reservation, and show the same counts afterwards.
pub stores-Agree :
    (s : MemoryStore) (t : Tables) (k : String) (cs : List Candidate)
    → DistinctKeys cs
    → All (Agree s t k) cs
    → ((Memory.reserve s cs k).1.pass ≡ (Postgres.reserve t cs k).1.pass)
      × All
          (λ c.
            counter (Memory.reserve s cs k).0 c.counter_key
            ≡ used (Postgres.reserve t cs k).0 c.metric c.counter_key)
          cs
stores-Agree s t k cs d agree =
    let same = same_verdict s t k cs d agree in
    (
      same,
      elim (Bool-cases (Memory.reserve s cs k).1.pass) [
        | inl pass ↦
            All-zip
              (λ c. counter (Memory.reserve s cs k).0 c.counter_key ≡ MemoryLaws.counted s k c)
              (λ c.
                used (Postgres.reserve t cs k).0 c.metric c.counter_key ≡ MemoryLaws.counted s k c)
              (λ c.
                counter (Memory.reserve s cs k).0 c.counter_key
                ≡ used (Postgres.reserve t cs k).0 c.metric c.counter_key)
              cs (λ c p q. p ∙ sym q) (MemoryLaws.reserve-counted s k cs d pass)
              (All-zip (Agree s t k)
                (λ c. used (Postgres.reserve t cs k).0 c.metric c.counter_key ≡ Laws.counted t k c)
                (λ c.
                  used (Postgres.reserve t cs k).0 c.metric c.counter_key
                  ≡ MemoryLaws.counted s k c)
                cs (λ c a q. q ∙ sym (counted-Agree s t k c a)) agree
                (Laws.transaction_counts t k cs d (sym same ∙ pass)))
        | inr refused ↦ rw (MemoryLaws.reserve_refused s k cs refused) (
            rw (Laws.reserve_rollback t k cs (sym same ∙ refused)) (
              All-map (Agree s t k) (λ c. counter s c.counter_key ≡ used t c.metric c.counter_key)
                cs (λ c a. a.counts) agree))
      ],
    )
