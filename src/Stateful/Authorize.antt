-- ===== src/Stateful/Authorize.antt =====
-- `evaluateStatefulConstraints` over the tables: build the candidates, ask the external authorities,
-- reserve. The record of consumed proofs, which cannot change a decision, is left out.
pub mod Laws
pub mod Results
use aiagent_portable_authori.Base.{
  ℕ, suc, String, Bool, true, false, Option, none, some, List, [], ◌∷◌, if◌then◌else◌, is_empty,
}
use aiagent_portable_authori.Base.Int.{ℤ, ◌+ℤ◌, ltb_ℤ}
use aiagent_portable_authori.Codes.{ErrorCode, stateful_limit_exceeded}
use aiagent_portable_authori.Value.{Value, Runtime, is_blank}
use aiagent_portable_authori.Payload.{Constraint, Payload, StateAuthority}
use aiagent_portable_authori.Semantic.{Mappings}
use aiagent_portable_authori.Evaluator.{is_stateful_constraint}
use aiagent_portable_authori.Stateful.{
  Platform, Candidate, Built, built, not_built, build_candidate, Reservation,
}
use aiagent_portable_authori.Stateful.Authority.{
  AuthorityNet, Answer, answer, no_answer, fetch_current_value_from_authority,
}
use aiagent_portable_authori.Stateful.Postgres.{Tables, reserve}

-- The constraints that are stateful, each with its index in the credential.
unfoldable pub stateful_of : ℕ → List Constraint → List (ℕ × Constraint)
stateful_of i [] = []
stateful_of i (c ∷ cs) =
    if is_stateful_constraint c then (i, c) ∷ stateful_of (suc i) cs else stateful_of (suc i) cs

pub data Candidates : Type 0 where
  candidates : List Candidate → Candidates
  no_candidates : ErrorCode → Candidates

pub data Outcome : Type 0 where
  allowed : Outcome
  refused : ErrorCode → Outcome

-- `maxAgeMs ?? 30_000`
abbrev pub max_age_of : StateAuthority → ℕ
max_age_of a = elim a.max_age_ms [ none ↦ 30_000 | some n ↦ n ]

module _ (rt : Runtime) (pf : Platform) (m : Mappings) (net : AuthorityNet) where
  abbrev pub and_candidate : Candidate → Candidates → Candidates
  and_candidate c (no_candidates code) = no_candidates code
  and_candidate c (candidates cs) = candidates (c ∷ cs)

  -- The loop that builds the candidates ends at the first constraint that gives none.
  unfoldable pub build_candidates : Value → Payload → ℕ → List (ℕ × Constraint) → Candidates
  build_candidates ctx payload now [] = candidates []
  build_candidates ctx payload now ((i, c) ∷ ics) =
      elim (build_candidate rt pf m c ctx payload i now) [
        | not_built code ↦ no_candidates code
        | built candidate ↦ and_candidate candidate (build_candidates ctx payload now ics)
      ]

  abbrev pub within : Candidate → Answer → Outcome
  within c (no_answer code) = refused code
  within c (answer value) =
      if ltb_ℤ c.limit (value +ℤ c.increment) then refused stateful_limit_exceeded else allowed

  abbrev pub ask : Candidate → StateAuthority → Answer
  ask c a =
      fetch_current_value_from_authority net a.authority_id c.counter_key
        (pf.iso_string c.window_start) (max_age_of a)

  -- The check of one candidate against its external authority, if it names one.
  unfoldable pub check_with : Candidate → Option StateAuthority → Outcome
  check_with c none = allowed
  check_with c (some a) = if is_blank a.authority_id then allowed else within c (ask c a)

  unfoldable pub authority_check : Candidate → Outcome
  unfolding check_with
  authority_check c = check_with c c.constraint.state_authority

  unfoldable pub authority_checks : List Candidate → Outcome
  authority_checks [] = allowed
  authority_checks (c ∷ cs) = elim (authority_check c) [
    | refused code ↦ refused code
    | allowed ↦ authority_checks cs
  ]

  abbrev pub settled : Tables × Reservation → Tables × Outcome
  settled (t, r) = (t, if r.pass then allowed else refused stateful_limit_exceeded)

  unfoldable pub reserve_checked : Tables → String → List Candidate → Outcome → Tables × Outcome
  reserve_checked t idempotency cs (refused code) = (t, refused code)
  reserve_checked t idempotency cs allowed = settled (reserve t cs idempotency)

  unfoldable pub authorize_candidates : Tables → String → Candidates → Tables × Outcome
  authorize_candidates t idempotency (no_candidates code) = (t, refused code)
  authorize_candidates t idempotency (candidates cs) =
      reserve_checked t idempotency cs (authority_checks cs)

  unfoldable pub evaluate_stateful_constraints :
      Tables → List Constraint → Value → Payload → ℕ → String → Tables × Outcome
  evaluate_stateful_constraints t cs ctx payload now idempotency =
      if is_empty (stateful_of 0 cs)
      then (t, allowed)
      else authorize_candidates t idempotency (build_candidates ctx payload now (stateful_of 0 cs))
