-- ===== src/Stateful/Postgres/Counts.antt =====
-- What one candidate adds to the tables, and what it leaves as it was.
use aiagent_portable_authori.Base.{
  String, true, false, ◌≡◌, refl, ◌≢◌, ◌⊎◌, inl, inr, List, [], ◌∷◌, ◌++◌, ap, sym, ◌∙◌, arith,
  if◌then◌else◌, eq_iff,
}
use aiagent_portable_authori.Base.Int.{ℤ, ◌+ℤ◌, ltb_ℤ}
use aiagent_portable_authori.Base.Assoc.{lookup, insert, lookup-insert}
use aiagent_portable_authori.Stateful.{
  Candidate, Metric, count, amount, StatefulResult, pass_result,
}
use aiagent_portable_authori.Stateful.Postgres.{
  Counter, Tables, used, by_metric, row_or_zero, raise, has_event, is_replay, count_up, transaction,
}

-- A candidate is a replay, or its counter stays within its limit.
abbrev pub Fits : Tables → String → Candidate → Type 0
Fits t k c =
    (is_replay t k c ≡ true)
    ⊎ (ltb_ℤ c.limit (used t c.metric c.counter_key +ℤ c.increment) ≡ false)

-- What a counter shows after a reservation that passes.
abbrev pub counted : Tables → String → Candidate → ℤ
counted t k c =
    if is_replay t k c
    then used t c.metric c.counter_key
    else used t c.metric c.counter_key +ℤ c.increment

pub by_metric-raise :
    (metric : Metric) (n : ℤ) (r : Counter)
    → by_metric metric (raise metric n r) ≡ by_metric metric r +ℤ n
by_metric-raise count n r = refl
by_metric-raise amount n r = refl

pub used-count_up_self :
    (t : Tables) (k : String) (c : Candidate)
    → used (count_up t k c) c.metric c.counter_key ≡ used t c.metric c.counter_key +ℤ c.increment
unfolding used count_up
used-count_up_self t k c = rw lookup-insert (
    rw ((eq_iff c.counter_key c.counter_key).1 refl)
      (by_metric-raise c.metric c.increment (row_or_zero (lookup c.counter_key t.counters))))

pub used-count_up_other :
    (t : Tables) (k : String) (c : Candidate) (metric : Metric) (key : String)
    → key ≢ c.counter_key
    → used (count_up t k c) metric key ≡ used t metric key
unfolding used count_up
used-count_up_other t k c metric key ne =
    let row = raise c.metric c.increment (row_or_zero (lookup c.counter_key t.counters)) in
    let same : lookup key (insert c.counter_key row t.counters) ≡ lookup key t.counters =
      ground (arith, eq_iff c.counter_key key, lookup-insert c.counter_key key row t.counters) in
    ap (λ o. by_metric metric (row_or_zero o)) same

pub is_replay-count_up_other :
    (t : Tables) (k : String) (c d : Candidate)
    → d.counter_key ≢ c.counter_key
    → is_replay (count_up t k c) k d ≡ is_replay t k d
unfolding has_event count_up
is_replay-count_up_other t k c d ne = ground (arith, eq_iff c.counter_key d.counter_key)

pub Fits-count_up :
    (t : Tables) (k : String) (c d : Candidate)
    → d.counter_key ≢ c.counter_key
    → Fits (count_up t k c) k d
    → Fits t k d
Fits-count_up t k c d ne (inl h) = inl (sym (is_replay-count_up_other t k c d ne) ∙ h)
Fits-count_up t k c d ne (inr h) = inr (
    ap (λ n. ltb_ℤ d.limit (n +ℤ d.increment))
      (sym (used-count_up_other t k c d.metric d.counter_key ne))
    ∙ h)

pub Fits-count_up_back :
    (t : Tables) (k : String) (c d : Candidate)
    → d.counter_key ≢ c.counter_key
    → Fits t k d
    → Fits (count_up t k c) k d
Fits-count_up_back t k c d ne (inl h) = inl (is_replay-count_up_other t k c d ne ∙ h)
Fits-count_up_back t k c d ne (inr h) = inr (
    ap (λ n. ltb_ℤ d.limit (n +ℤ d.increment)) (used-count_up_other t k c d.metric d.counter_key ne)
    ∙ h)

pub counted-count_up :
    (t : Tables) (k : String) (c d : Candidate)
    → d.counter_key ≢ c.counter_key
    → counted (count_up t k c) k d ≡ counted t k d
counted-count_up t k c d ne =
    rw (is_replay-count_up_other t k c d ne)
      (rw (used-count_up_other t k c d.metric d.counter_key ne) refl)

-- The three ways in which the loop goes on at a candidate.
module _ (before t : Tables) (k : String) (c : Candidate) (cs : List Candidate)
    (rs : List StatefulResult) where
  abbrev shown : ℤ
  shown = used t c.metric c.counter_key

  pub transaction-replay :
      is_replay t k c ≡ true
      → transaction before t k (c ∷ cs) rs
        ≡ transaction before t k cs (rs ++ pass_result c shown shown true ∷ [])
  unfolding transaction
  transaction-replay e = rw e

  pub transaction-counts :
      is_replay t k c ≡ false
      → ltb_ℤ c.limit (shown +ℤ c.increment) ≡ false
      → transaction before t k (c ∷ cs) rs
        ≡ transaction before
            (count_up t k c)
            k
            cs
            (rs ++ pass_result c shown (shown +ℤ c.increment) false ∷ [])
  unfolding transaction
  transaction-counts e w = rw (e, w)

  pub transaction-refused :
      is_replay t k c ≡ false
      → ltb_ℤ c.limit (shown +ℤ c.increment) ≡ true
      → ((transaction before t k (c ∷ cs) rs).0 ≡ before)
        × ((transaction before t k (c ∷ cs) rs).1.pass ≡ false)
  unfolding transaction
  transaction-refused e w = (rw (e, w), rw (e, w))
