-- ===== src/Examples/Counting.antt =====
-- Runs of stateful authorization on both stores.
use aiagent_portable_authori.Base.{
  ℕ, ◌+◌, ◌%◌, ◌≤◌, ◌<◌, String, true, false, ◌≡◌, refl, ◌↔◌, none, some, List, [], ◌∷◌, All,
}
use aiagent_portable_authori.Base.Assoc.{lookup}
use aiagent_portable_authori.Base.Int.{ℤ, pos, ◌+ℤ◌, ltb_ℤ}
use aiagent_portable_authori.Codes.{stateful_limit_exceeded}
use aiagent_portable_authori.Value.{obj, num}
use aiagent_portable_authori.Semantic.{default_mappings}
use aiagent_portable_authori.Evaluator.{is_stateful_constraint}
use aiagent_portable_authori.Delegation.{uses_limit}
use aiagent_portable_authori.Stateful.{Candidate, count, window_for_period, build_candidate}
use aiagent_portable_authori.Stateful.Windows.{day_window_bounds}
use aiagent_portable_authori.Stateful.Memory as Memory
use aiagent_portable_authori.Stateful.Memory.{MemoryStore, counter}
use aiagent_portable_authori.Stateful.Memory.Laws.{DistinctKeys}
use aiagent_portable_authori.Stateful.Postgres as Postgres
use aiagent_portable_authori.Stateful.Postgres.{Tables, used}
use aiagent_portable_authori.Stateful.Postgres.Laws.{Fits, transaction_iff}
use aiagent_portable_authori.Stateful.Postgres.Refines.{Agree, stores-Agree}
use aiagent_portable_authori.Stateful.Authority.{
  answer, check_proof, to_ms, check_proof_sound, fetch_current_value_from_authority,
}
use aiagent_portable_authori.Stateful.Authorize.{
  allowed, refused, evaluate_stateful_constraints, authority_check, authority_checks, stateful_of,
  build_candidates, authorize_candidates, reserve_checked,
}
use aiagent_portable_authori.Stateful.Authorize.Laws.{evaluate_stateful_constraints-refused}
use aiagent_portable_authori.Examples.{
  runtime, platform, net, proof, request, leaf, uses_at_most, no_rows, texts_apart,
}

-- A use under a limit, that an authority counts as well.
abbrev use_of : String → ℕ → Candidate
use_of key n = record {
  constraint = record (uses_at_most n) {
    state_authority = some (record { authority_id = "authority"; max_age_ms = none });
  };
  counter_key = key;
  window_start = 0;
  window_end = 10;
  metric = count;
  increment = pos 1;
  limit = pos n;
}

abbrev two_uses : List Candidate
two_uses = use_of "digest" 3 ∷ use_of "other" 1 ∷ []

two_uses-DistinctKeys : DistinctKeys two_uses
two_uses-DistinctKeys = ((texts_apart "other" "digest" refl, tt), (tt, tt))

abbrev fresh : MemoryStore
fresh = record { counters = []; events = [] }

memory_passes : (Memory.reserve fresh two_uses "once").1.pass ≡ true
unfolding Memory.reserve
memory_passes = refl

transaction_passes : (Postgres.reserve no_rows two_uses "once").1.pass ≡ true
unfolding Postgres.reserve
transaction_passes = refl

transaction_refuses :
    (Postgres.reserve no_rows (use_of "digest" 3 ∷ use_of "other" 0 ∷ []) "once").1.pass ≡ false
unfolding Postgres.reserve
transaction_refuses = refl

transaction_iff_example :
    ((Postgres.reserve no_rows two_uses "once").1.pass ≡ true) ↔ All (Fits no_rows "once") two_uses
transaction_iff_example = transaction_iff no_rows "once" two_uses two_uses-DistinctKeys

stores_start_alike : (key : String) → Agree fresh no_rows "once" (use_of key 3)
unfolding counter used lookup Postgres.has_event
stores_start_alike key = record { counts = refl; replays = refl }

stores-Agree_example :
    ((Memory.reserve fresh (use_of "digest" 3 ∷ []) "once").1.pass
      ≡ (Postgres.reserve no_rows (use_of "digest" 3 ∷ []) "once").1.pass)
    × All
        (λ c.
          counter (Memory.reserve fresh (use_of "digest" 3 ∷ []) "once").0 c.counter_key
          ≡ used
              (Postgres.reserve no_rows (use_of "digest" 3 ∷ []) "once").0
              c.metric
              c.counter_key)
        (use_of "digest" 3 ∷ [])
stores-Agree_example =
    stores-Agree fresh no_rows "once" (use_of "digest" 3 ∷ []) (tt, tt)
      (stores_start_alike "digest", tt)

none_left :
    (evaluate_stateful_constraints runtime platform default_mappings net no_rows
      (uses_at_most 0 ∷ [])
      (obj request)
      leaf
      5000
      "once").1
    ≡ refused stateful_limit_exceeded
unfolding evaluate_stateful_constraints stateful_of is_stateful_constraint authorize_candidates
    build_candidates build_candidate uses_limit reserve_checked authority_checks authority_check
    Postgres.reserve
none_left = refl

evaluate_stateful_constraints-refused_example :
    (evaluate_stateful_constraints runtime platform default_mappings net no_rows
      (uses_at_most 0 ∷ [])
      (obj request)
      leaf
      5000
      "once").0
    ≡ no_rows
evaluate_stateful_constraints-refused_example =
    evaluate_stateful_constraints-refused runtime platform default_mappings net no_rows
      (uses_at_most 0 ∷ []) (obj request) leaf 5000 "once" stateful_limit_exceeded none_left

authority_allows :
    authority_checks runtime platform default_mappings net (use_of "digest" 3 ∷ []) ≡ allowed
unfolding authority_checks authority_check fetch_current_value_from_authority ◌+ℤ◌
authority_allows = refl

proof_accepted :
    check_proof (pos 100_500) "authority" "digest" "2026-01-01T00:00:00.000Z" 30_000 proof
    ≡ answer (pos 1)
unfolding check_proof ◌+ℤ◌
proof_accepted = refl

check_proof_sound_example :
    (proof.iss ≡ "authority")
    × (proof.counter_key ≡ "digest")
    × (proof.window_start ≡ "2026-01-01T00:00:00.000Z")
    × (proof.value ≡ num (pos 1))
    × ((iat : ℤ) × (proof.iat ≡ num iat) × (ltb_ℤ (to_ms iat +ℤ pos 30_000) (pos 100_500) ≡ false))
check_proof_sound_example =
    check_proof_sound (pos 100_500) "authority" "digest" "2026-01-01T00:00:00.000Z" 30_000 proof
      (pos 1) proof_accepted

day_window_bounds_example :
    ((window_for_period platform "day" 5_000_000).start % 86_400_000 ≡ 0)
    × ((window_for_period platform "day" 5_000_000).start ≤ 5_000_000)
    × (5_000_000 < (window_for_period platform "day" 5_000_000).end)
    × ((window_for_period platform "day" 5_000_000).end
        ≡ (window_for_period platform "day" 5_000_000).start + 86_400_000 + 5_000_000 % 86_400_000)
day_window_bounds_example = day_window_bounds platform 5_000_000
