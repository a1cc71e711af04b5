-- ===== src/Stateful/Authorize/Laws.antt =====
-- Laws of `evaluateStatefulConstraints`.
use aiagent_portable_authori.Base.{
  ℕ, String, false, ◌≡◌, refl, Option, none, some, List, [], ◌∷◌, arith, All, Bool-cases, inl, inr,
  is_empty, eq_iff, ◌⊎◌,
}
use aiagent_portable_authori.Base.Int.{ℤ, ◌+ℤ◌, ltb_ℤ}
use aiagent_portable_authori.Codes.{ErrorCode}
use aiagent_portable_authori.Value.{Value, Runtime, is_blank}
use aiagent_portable_authori.Payload.{Constraint, Payload, StateAuthority}
use aiagent_portable_authori.Semantic.{Mappings}
use aiagent_portable_authori.Stateful.{Platform, Candidate, Reservation}
use aiagent_portable_authori.Stateful.Authority.{AuthorityNet, Answer, answer, no_answer}
use aiagent_portable_authori.Stateful.Postgres.{Tables, reserve}
use aiagent_portable_authori.Stateful.Postgres.Laws.{reserve_rollback}
use aiagent_portable_authori.Stateful.Authorize.{
  Candidates, candidates, no_candidates, Outcome, allowed, refused, stateful_of, build_candidates,
  authority_check, authority_checks, reserve_checked, authorize_candidates, settled, ask, within,
  check_with, evaluate_stateful_constraints,
}

module _ (rt : Runtime) (pf : Platform) (m : Mappings) (net : AuthorityNet) where
  settled-refused :
      (t : Tables) (cs : List Candidate) (k : String) (code : ErrorCode)
      → (settled rt pf m net (reserve t cs k)).1 ≡ refused code
      → (settled rt pf m net (reserve t cs k)).0 ≡ t
  settled-refused t cs k code h = reserve_rollback t k cs (pass-false (reserve t cs k) h)
    where
      pass-false :
          (r : Tables × Reservation) → (settled rt pf m net r).1 ≡ refused code → r.1.pass ≡ false
      pass-false r h = ground arith

  reserve_checked-refused :
      (t : Tables) (k : String) (cs : List Candidate) (o : Outcome) (code : ErrorCode)
      → (reserve_checked rt pf m net t k cs o).1 ≡ refused code
      → (reserve_checked rt pf m net t k cs o).0 ≡ t
  unfolding reserve_checked
  reserve_checked-refused t k cs (refused _) code h = refl
  reserve_checked-refused t k cs allowed code h = settled-refused t cs k code h

  authorize_candidates-refused :
      (t : Tables) (k : String) (cs : Candidates) (code : ErrorCode)
      → (authorize_candidates rt pf m net t k cs).1 ≡ refused code
      → (authorize_candidates rt pf m net t k cs).0 ≡ t
  unfolding authorize_candidates
  authorize_candidates-refused t k (no_candidates _) code h = refl
  authorize_candidates-refused t k (candidates cs) code h =
      reserve_checked-refused t k cs (authority_checks rt pf m net cs) code h

  -- A request that stateful authorization refuses, at whatever step, leaves the tables as they were.
  pub evaluate_stateful_constraints-refused :
      (t : Tables) (cs : List Constraint) (ctx : Value) (payload : Payload) (now : ℕ) (k : String)
      (code : ErrorCode)
      → (evaluate_stateful_constraints rt pf m net t cs ctx payload now k).1 ≡ refused code
      → (evaluate_stateful_constraints rt pf m net t cs ctx payload now k).0 ≡ t
  unfolding evaluate_stateful_constraints
  evaluate_stateful_constraints-refused t cs ctx payload now k code h =
      elim (Bool-cases (is_empty (stateful_of 0 cs))) [
        | inl e ↦ rw e
        | inr e ↦ rw e (
            authorize_candidates-refused t k
              (build_candidates rt pf m net ctx payload now (stateful_of 0 cs)) code (rw e at h))
      ]

  -- The authority answers with a count that leaves room for the increment.
  abbrev pub Agrees : Candidate → Option StateAuthority → Type 0
  Agrees c none = Unit
  Agrees c (some a) =
      (a.authority_id ≡ "")
      ⊎ ((n : ℤ) × (ask rt pf m net c a ≡ answer n) × (ltb_ℤ c.limit (n +ℤ c.increment) ≡ false))

  -- The authority of a candidate, if it names one, agrees.
  abbrev pub AuthorityAgrees : Candidate → Type 0
  AuthorityAgrees c = Agrees c c.constraint.state_authority

  within-allowed :
      (c : Candidate) (a : Answer)
      → within rt pf m net c a ≡ allowed
      → (n : ℤ) × (a ≡ answer n) × (ltb_ℤ c.limit (n +ℤ c.increment) ≡ false)
  within-allowed c (no_answer code) h = cc
  within-allowed c (answer n) h = (n, refl, ground arith)

  check_with-allowed :
      (c : Candidate) (sa : Option StateAuthority)
      → check_with rt pf m net c sa ≡ allowed
      → Agrees c sa
  unfolding check_with
  check_with-allowed c none h = tt
  check_with-allowed c (some a) h = elim (Bool-cases (is_blank a.authority_id)) [
    | inl e ↦ inl ((eq_iff a.authority_id "").0 e)
    | inr e ↦ inr (within-allowed c (ask rt pf m net c a) (rw e at h))
  ]

  authority_check-allowed :
      (c : Candidate) → authority_check rt pf m net c ≡ allowed → AuthorityAgrees c
  unfolding authority_check
  authority_check-allowed c h = check_with-allowed c c.constraint.state_authority h

  -- The external checks pass only if every authority that a candidate names agrees.
  pub authority_checks-allowed :
      (cs : List Candidate) → authority_checks rt pf m net cs ≡ allowed → All AuthorityAgrees cs
  unfolding authority_checks
  authority_checks-allowed [] h = tt
  authority_checks-allowed (c ∷ cs) h =
      (authority_check-allowed c (ground arith), authority_checks-allowed cs (ground arith))
