-- ===== src/Stateful/Postgres/Laws.antt =====
-- Laws of the transaction on the tables.
use mathlib.Core.Bool.{false≢true}
use mathlib.Core.Path.{subst}
use aiagent_portable_authori.Base.{
  String, true, false, ◌≡◌, refl, ◌≢◌, ◌↔◌, inl, inr, List, [], ◌∷◌, ◌++◌, ap, sym, ◌∙◌, arith, All,
  All-zip, Bool-cases,
}
use aiagent_portable_authori.Base.Int.{◌+ℤ◌, ltb_ℤ}
use aiagent_portable_authori.Stateful.{Candidate, Metric, StatefulResult, pass_result, Reservation}
use aiagent_portable_authori.Stateful.Memory.Laws.{DistinctKeys}
use aiagent_portable_authori.Stateful.Postgres.{
  Tables, used, is_replay, count_up, transaction, reserve,
}
pub use aiagent_portable_authori.Stateful.Postgres.Counts.{Fits, counted}
use aiagent_portable_authori.Stateful.Postgres.Counts.{
  transaction-replay, transaction-refused, transaction-counts, used-count_up_self,
  used-count_up_other, Fits-count_up, Fits-count_up_back, counted-count_up,
}

-- A step of a transaction that passes: the candidate is a replay, and the tables stay, or it is
-- counted within its limit.
data Step (before t : Tables) (k : String) (c : Candidate) (cs : List Candidate)
    (rs : List StatefulResult) : Type 0 where
  skips :
      is_replay t k c ≡ true
      → (rs' : List StatefulResult)
      → transaction before t k (c ∷ cs) rs ≡ transaction before t k cs rs'
      → Step before t k c cs rs
  counts :
      is_replay t k c ≡ false
      → ltb_ℤ c.limit (used t c.metric c.counter_key +ℤ c.increment) ≡ false
      → (rs' : List StatefulResult)
      → transaction before t k (c ∷ cs) rs ≡ transaction before (count_up t k c) k cs rs'
      → Step before t k c cs rs

step :
    (before t : Tables) (k : String) (c : Candidate) (cs : List Candidate)
    (rs : List StatefulResult)
    → (transaction before t k (c ∷ cs) rs).1.pass ≡ true
    → Step before t k c cs rs
step before t k c cs rs pass = elim (Bool-cases (is_replay t k c)) [
  | inl e ↦ skips e _ (transaction-replay before t k c cs rs e)
  | inr e ↦ elim (Bool-cases (ltb_ℤ c.limit (used t c.metric c.counter_key +ℤ c.increment))) [
    | inl over ↦ absurd (false≢true (sym (transaction-refused before t k c cs rs e over).1 ∙ pass))
    | inr within ↦ counts e within _ (transaction-counts before t k c cs rs e within)
  ]
]

Fits-waiting :
    (t : Tables) (k : String) (c : Candidate)
    → is_replay t k c ≡ false
    → Fits t k c
    → ltb_ℤ c.limit (used t c.metric c.counter_key +ℤ c.increment) ≡ false
Fits-waiting t k c e (inl r) = cc
Fits-waiting t k c e (inr w) = w

transaction-other :
    (before t : Tables) (k : String) (cs : List Candidate) (rs : List StatefulResult)
    (metric : Metric) (key : String)
    → All (λ c. c.counter_key ≢ key) cs
    → (transaction before t k cs rs).1.pass ≡ true
    → used (transaction before t k cs rs).0 metric key ≡ used t metric key
transaction-other before t k [] rs metric key _ pass = unfold transaction in refl
transaction-other before t k (c ∷ cs) rs metric key (ne, apart) pass =
    elim (step before t k c cs rs pass) [
      | skips e rs' same ↦
          ap (λ (r : Tables × Reservation). used r.0 metric key) same
          ∙ transaction-other before t k cs rs' metric key apart
              (subst (λ (r : Tables × Reservation). r.1.pass ≡ true) same pass)
      | counts e within rs' same ↦
          ap (λ (r : Tables × Reservation). used r.0 metric key) same
          ∙ transaction-other before (count_up t k c) k cs rs' metric key apart
              (subst (λ (r : Tables × Reservation). r.1.pass ≡ true) same pass)
          ∙ used-count_up_other t k c metric key (λ p. ne (sym p))
    ]

transaction-pass :
    (before t : Tables) (k : String) (cs : List Candidate) (rs : List StatefulResult)
    → DistinctKeys cs
    → (transaction before t k cs rs).1.pass ≡ true
    → All (Fits t k) cs
      × All (λ c. used (transaction before t k cs rs).0 c.metric c.counter_key ≡ counted t k c) cs
transaction-pass before t k [] rs d pass = (tt, tt)
transaction-pass before t k (c ∷ cs) rs (d, ds) pass = elim (step before t k c cs rs pass) [
  | skips e rs' same ↦
      let pass' = subst (λ (r : Tables × Reservation). r.1.pass ≡ true) same pass in
      let (fit, kept) = transaction-pass before t k cs rs' ds pass' in
      subst
        (λ (r : Tables × Reservation).
          All (Fits t k) (c ∷ cs)
          × All (λ x. used r.0 x.metric x.counter_key ≡ counted t k x) (c ∷ cs))
        (sym same)
        (
          (inl e, fit),
          (transaction-other before t k cs rs' c.metric c.counter_key d pass' ∙ rw e, kept),
        )
  | counts e within rs' same ↦
      let t' = count_up t k c in
      let pass' = subst (λ (r : Tables × Reservation). r.1.pass ≡ true) same pass in
      let (fit, kept) = transaction-pass before t' k cs rs' ds pass' in
      subst
        (λ (r : Tables × Reservation).
          All (Fits t k) (c ∷ cs)
          × All (λ x. used r.0 x.metric x.counter_key ≡ counted t k x) (c ∷ cs))
        (sym same)
        (
          (
            inr within,
            All-zip (λ x. x.counter_key ≢ c.counter_key) (Fits t' k) (Fits t k) cs
                (λ x ne f. Fits-count_up t k c x ne f) d fit,
          ),
          (
            transaction-other before t' k cs rs' c.metric c.counter_key d pass'
                ∙ used-count_up_self t k c
                ∙ rw e,
            All-zip (λ x. x.counter_key ≢ c.counter_key)
                (λ x.
                  used (transaction before t' k cs rs').0 x.metric x.counter_key ≡ counted t' k x)
                (λ x.
                  used (transaction before t' k cs rs').0 x.metric x.counter_key ≡ counted t k x)
                cs (λ x ne eq. eq ∙ counted-count_up t k c x ne) d kept,
          ),
        )
]

transaction_complete :
    (before t : Tables) (k : String) (cs : List Candidate) (rs : List StatefulResult)
    → DistinctKeys cs
    → All (Fits t k) cs
    → (transaction before t k cs rs).1.pass ≡ true
transaction_complete before t k [] rs d fit = unfold transaction in refl
transaction_complete before t k (c ∷ cs) rs (d, ds) (f, fit) = elim (Bool-cases (is_replay t k c)) [
  | inl e ↦
      ap (λ (r : Tables × Reservation). r.1.pass) (transaction-replay before t k c cs rs e)
      ∙ transaction_complete before t k cs _ ds fit
  | inr e ↦
      ap (λ (r : Tables × Reservation). r.1.pass)
        (transaction-counts before t k c cs rs e (Fits-waiting t k c e f))
      ∙ transaction_complete before (count_up t k c) k cs _ ds (
          All-zip (λ x. x.counter_key ≢ c.counter_key) (Fits t k) (Fits (count_up t k c) k) cs
            (λ x ne g. Fits-count_up_back t k c x ne g) d fit)
]

-- With different keys, the transaction passes exactly when every candidate is a replay or stays
-- within its limit.
pub transaction_iff :
    (t : Tables) (k : String) (cs : List Candidate)
    → DistinctKeys cs
    → ((reserve t cs k).1.pass ≡ true) ↔ All (Fits t k) cs
unfolding reserve
transaction_iff t k cs d =
    (λ pass. (transaction-pass t t k cs [] d pass).0, λ fit. transaction_complete t t k cs [] d fit)

-- Then every counter shows what it showed, raised by the increment unless the candidate is a
-- replay.
pub transaction_counts :
    (t : Tables) (k : String) (cs : List Candidate)
    → DistinctKeys cs
    → (reserve t cs k).1.pass ≡ true
    → All (λ c. used (reserve t cs k).0 c.metric c.counter_key ≡ counted t k c) cs
unfolding reserve
transaction_counts t k cs d pass = (transaction-pass t t k cs [] d pass).1

transaction-rollback :
    (before t : Tables) (k : String) (cs : List Candidate) (rs : List StatefulResult)
    → (transaction before t k cs rs).1.pass ≡ false
    → (transaction before t k cs rs).0 ≡ before
unfolding transaction
transaction-rollback before t k [] rs h = cc
transaction-rollback before t k (c ∷ cs) rs h =
    let current = used t c.metric c.counter_key in
    ground (
      arith,
      transaction-rollback before t k cs (rs ++ pass_result c current current true ∷ []),
      transaction-rollback before (count_up t k c) k cs
          (rs ++ pass_result c current (current +ℤ c.increment) false ∷ []),
    )

-- A transaction that is refused leaves the tables as they were, whatever it had counted before the
-- limit that refused it.
pub reserve_rollback :
    (t : Tables) (k : String) (cs : List Candidate)
    → (reserve t cs k).1.pass ≡ false
    → (reserve t cs k).0 ≡ t
unfolding reserve
reserve_rollback t k cs h = transaction-rollback t t k cs [] h
