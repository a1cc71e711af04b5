-- ===== src/Examples/Credentials.antt =====
-- Runs of the verification of a plain JWT and of its parts.
use aiagent_portable_authori.Base.{
  ℕ, zero, suc, String, true, false, ◌≡◌, refl, none, some, List, [], ◌∷◌, every, includes, find?,
}
use aiagent_portable_authori.Base.Int.{pos, pos_part, ◌+ℤ◌}
use aiagent_portable_authori.Base.Num.{fin, add_num, ltb_num}
use aiagent_portable_authori.Value.{str, num, is_truthy, to_number, includes_value, bool, undefined}
use aiagent_portable_authori.Delegation.Chain.{verified}
use aiagent_portable_authori.Revocation.{
  Reply, bad_status, body, active, RevocationConfig, check_tier1_revocation,
}
use aiagent_portable_authori.Revocation.Laws.{
  outcome_of, is_answer, replies, check_tier1_revocation-find?,
}
use aiagent_portable_authori.Credential.{
  list_from_claim, validate_audience, ProofClaims, ProofTarget, same_id, check_possession, is_fresh,
  verify_proof_of_possession, plain, Claims, TrustedIssuer, Receiver, normalized, verify_plain_jwt,
}
use aiagent_portable_authori.Credential.Laws.{
  Possessed, PassesRevocation, verify_proof_of_possession_sound, verify_plain_jwt_sound,
}
use aiagent_portable_authori.Evaluate.{evaluate, Body, enriched}
use aiagent_portable_authori.Value.{get}
use aiagent_portable_authori.Context.{enrich_request_context}
use aiagent_portable_authori.Evaluator.{
  evaluate_constraints, evaluate_all, evaluate_constraint, evaluate_numeric_limit, on_field,
  resolve_field, numeric_test, compare_by, is_stateful_constraint,
}
use aiagent_portable_authori.Semantic.{
  resolve_semantic_field, default_mappings, resolve_direct_path,
}
use aiagent_portable_authori.Base.Assoc.{lookup}
use aiagent_portable_authori.LocalPolicy.{applies, apply_local_policy_merge, all_local_constraints}
use aiagent_portable_authori.Stateful.Authorize.{
  evaluate_stateful_constraints, stateful_of, build_candidates, authority_checks, authority_check,
  reserve_checked, authorize_candidates,
}
use aiagent_portable_authori.Stateful.{
  build_candidate, scope_material, window_for_period, read_numeric_field,
}
use aiagent_portable_authori.Stateful.Postgres.{reserve}
use aiagent_portable_authori.Delegation.{uses_limit}
use aiagent_portable_authori.Workflow.{allow}
use aiagent_portable_authori.Evaluate.Laws.Trust.{
  jwt_verification, jwt_payload, evaluate_allow-trust,
}
use aiagent_portable_authori.Examples.{
  engine, body as example_body, store, runtime, amount_at_most, texts_apart,
}

abbrev settings : RevocationConfig
settings = record { retries = pos 1; failure_mode = "closed" }

-- The first attempt fails, the second is answered.
abbrev second_answers : ℕ → Reply
second_answers zero = bad_status
second_answers _ = body (bool true) undefined

check_tier1_revocation-find?_example :
    check_tier1_revocation "https://issuer/introspect" settings second_answers
    ≡ outcome_of (find? is_answer (replies second_answers 0 (suc (pos_part settings.retries))))
check_tier1_revocation-find?_example =
    check_tier1_revocation-find? "https://issuer/introspect" settings second_answers
      (texts_apart "https://issuer/introspect" "" refl)

abbrev pub claim_proof : ProofClaims
claim_proof = record {
  credential_id = str "cred-1";
  presenter_id = str "agent-a";
  request_hash = str "hash";
  iat = num (pos 1000);
}

abbrev target : ProofTarget
target = record {
  credential_id = str "cred-1";
  presenter_id = "agent-a";
  request_hash = "hash";
  max_age_seconds = pos 300;
  now_seconds = pos 1200;
}

proof_passes : verify_proof_of_possession runtime false true false target (some claim_proof) ≡ true
unfolding verify_proof_of_possession check_possession is_fresh is_truthy to_number add_num ◌+ℤ◌
proof_passes = refl

verify_proof_of_possession_sound_example :
    (p : ProofClaims) × (some claim_proof ≡ some p)
    × (same_id p.credential_id (str "cred-1") ≡ true)
    × (p.presenter_id ≡ str "agent-a")
    × (p.request_hash ≡ str "hash")
    × (is_truthy p.iat ≡ true)
    × (ltb_num (add_num (fin (pos 300)) (to_number runtime p.iat)) (fin (pos 1200)) ≡ false)
verify_proof_of_possession_sound_example =
    verify_proof_of_possession_sound runtime false target (some claim_proof) proof_passes

abbrev identities : List String
identities = "receiver" ∷ []

abbrev pub claims : Claims
claims = record {
  iss = "https://issuer";
  sub = "agent-a";
  jti = "cred-1";
  aud = str "receiver";
  permissions = "claims.approve" ∷ [];
  constraints = plain (amount_at_most 1000) ∷ [];
  valid_from = none;
  valid_until = none;
  delegated_from = "";
  has_confirmation_key = true;
}

abbrev pub receiver : Receiver
receiver = record {
  runtime = runtime;
  audiences = identities;
  jwt_error = λ jwt. none;
  trusted_issuer = λ iss. some (record {
    trusted_for_permissions = "claims.approve" ∷ "claims.read" ∷ [];
    revocation_mechanism = "";
    revocation_config = settings;
  });
  skip_revocation = false;
  introspection_url = λ iss. "https://issuer/introspect";
  introspect = λ url config id. active;
  require_proof = false;
  proof = some claim_proof;
  request_hash = "hash";
  max_age_seconds = pos 300;
  now_seconds = pos 1200;
}

claims_verify :
    verify_plain_jwt receiver "jwt" (some "agent-a") false claims
    ≡ verified (normalized receiver "jwt" (some "agent-a") false claims)
unfolding verify_plain_jwt validate_audience list_from_claim includes_value check_possession
    is_fresh is_truthy to_number add_num ◌+ℤ◌
claims_verify = refl

verify_plain_jwt_sound_example :
    (normalized receiver "jwt" (some "agent-a") false claims
      ≡ normalized receiver "jwt" (some "agent-a") false claims)
    × (receiver.jwt_error "jwt" ≡ none)
    × Possessed receiver "jwt" (some "agent-a") false claims
    × ((issuer : TrustedIssuer) × (receiver.trusted_issuer claims.iss ≡ some issuer)
        × (every (includes issuer.trusted_for_permissions) claims.permissions ≡ true)
        × (validate_audience claims.aud receiver.audiences ≡ true)
        × PassesRevocation receiver "jwt" (some "agent-a") false claims issuer)
verify_plain_jwt_sound_example =
    verify_plain_jwt_sound receiver "jwt" (some "agent-a") false claims
      (normalized receiver "jwt" (some "agent-a") false claims) claims_verify

abbrev own_body : Body
own_body = record example_body { presenter_id = "agent-a" }

jwt_allowed :
    (evaluate engine
      (jwt_verification engine receiver claims "jwt" own_body store)
      "jwt"
      own_body
      store).1.decision
    ≡ some allow
unfolding evaluate is_truthy get includes_value enrich_request_context evaluate_constraints
    evaluate_all evaluate_constraint evaluate_numeric_limit on_field resolve_field
    resolve_semantic_field lookup default_mappings resolve_direct_path numeric_test to_number
    compare_by applies evaluate_stateful_constraints apply_local_policy_merge all_local_constraints
    stateful_of build_candidates build_candidate authority_checks authority_check reserve_checked
    authorize_candidates reserve is_stateful_constraint scope_material window_for_period
    read_numeric_field uses_limit verify_plain_jwt validate_audience list_from_claim
    check_possession is_fresh add_num ◌+ℤ◌
jwt_allowed = refl

evaluate_allow-trust_example :
    (receiver.jwt_error "jwt" ≡ none)
    × (claims.sub ≡ "agent-a")
    × ((issuer : TrustedIssuer) × (receiver.trusted_issuer claims.iss ≡ some issuer)
        × (includes_value issuer.trusted_for_permissions (
              get "action"
                (enriched own_body (jwt_payload engine receiver claims "jwt" own_body store)))
            ≡ true)
        × (validate_audience claims.aud receiver.audiences ≡ true)
        × PassesRevocation receiver "jwt" (some "agent-a") false claims issuer)
evaluate_allow-trust_example =
    evaluate_allow-trust engine receiver claims "jwt" own_body store jwt_allowed
