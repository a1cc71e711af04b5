-- ===== src/Stateful/Authorize/Results.antt =====
-- The results that `evaluateStatefulConstraints` of portauth-engine/src/services/statefulAuthorizer.js
-- returns beside its verdict, in the shape of the other constraints' results: `failureResult`,
-- `passResult` and `denyResult` without counts and texts.
use aiagent_portable_authori.Base.{
  ℕ, String, false, some, List, [], ◌∷◌, map, if◌then◌else◌, is_empty,
}
use aiagent_portable_authori.Codes.{ErrorCode, stateful_limit_exceeded}
use aiagent_portable_authori.Value.{Value, Runtime}
use aiagent_portable_authori.Payload.{Constraint, Payload}
use aiagent_portable_authori.Semantic.{Mappings}
use aiagent_portable_authori.Evaluator.{CheckResult, passed, failed}
use aiagent_portable_authori.Stateful.{
  Platform, Candidate, built, not_built, build_candidate, StatefulResult,
}
use aiagent_portable_authori.Stateful.Authority.{AuthorityNet}
use aiagent_portable_authori.Stateful.Postgres.{Tables, reserve}
use aiagent_portable_authori.Stateful.Authorize.{
  stateful_of, Candidates, candidates, no_candidates, Outcome, allowed, refused, build_candidates,
  authority_check, authority_checks,
}

abbrev failure_result : Constraint → ErrorCode → CheckResult
failure_result c code = record {
  kind = c.kind;
  field = c.field;
  outcome = failed (some code);
  deferred = false;
}

abbrev result_of : StatefulResult → CheckResult
result_of r = record {
  kind = r.candidate.constraint.kind;
  field = r.candidate.constraint.field;
  outcome = if r.pass then passed else failed (some stateful_limit_exceeded);
  deferred = false;
}

module _ (rt : Runtime) (pf : Platform) (m : Mappings) (net : AuthorityNet) where
  -- `[built.result]` of the first constraint that gives no candidate.
  unfoldable pub unbuilt_results : Value → Payload → ℕ → List (ℕ × Constraint) → List CheckResult
  unfolding build_candidate
  unbuilt_results ctx payload now [] = []
  unbuilt_results ctx payload now ((i, c) ∷ ics) =
      let rest = unbuilt_results ctx payload now ics in
      elim (build_candidate rt pf m c ctx payload i now) [
        | not_built code ↦ failure_result c code ∷ []
        | built candidate ↦ rest
      ]

  -- The result of the first candidate that its authority refuses.
  unfoldable pub refused_results : List Candidate → List CheckResult
  unfolding authority_check
  refused_results [] = []
  refused_results (c ∷ cs) =
      let rest = refused_results cs in
      elim (authority_check rt pf m net c) [
        | refused code ↦ failure_result c.constraint code ∷ []
        | allowed ↦ rest
      ]

  abbrev reserved_results : Tables → String → List Candidate → Outcome → List CheckResult
  unfolding reserve refused_results
  reserved_results t idempotency cs (refused code) = refused_results cs
  reserved_results t idempotency cs allowed = map result_of (reserve t cs idempotency).1.results

  abbrev candidate_results : Tables → String → List CheckResult → Candidates → List CheckResult
  unfolding reserved_results authority_checks
  candidate_results t idempotency unbuilt (no_candidates code) = unbuilt
  candidate_results t idempotency unbuilt (candidates cs) =
      reserved_results t idempotency cs (authority_checks rt pf m net cs)

  unfoldable pub stateful_results :
      Tables → List Constraint → Value → Payload → ℕ → String → List CheckResult
  unfolding candidate_results unbuilt_results build_candidates stateful_of
  stateful_results t cs ctx payload now idempotency =
      if is_empty (stateful_of 0 cs)
      then []
      else candidate_results t idempotency (unbuilt_results ctx payload now (stateful_of 0 cs))
          (build_candidates rt pf m net ctx payload now (stateful_of 0 cs))
