-- ===== src/Examples/Profiles.antt =====
-- Runs of the three profiles of a credential.
use aiagent_portable_authori.Base.{
  List, String, true, false, ◌≡◌, refl, inr, Option, none, some, [], ◌∷◌, every, includes, str_eq,
  if◌then◌else◌,
}
use aiagent_portable_authori.Base.Int.{pos, ◌+ℤ◌}
use aiagent_portable_authori.Base.Num.{fin, add_num}
use aiagent_portable_authori.Base.Text.{split}
use aiagent_portable_authori.Value.{
  includes_value, Value, nil, field, null, str, obj, get, member, is_truthy, to_number,
}
use aiagent_portable_authori.Payload.{Payload}
use aiagent_portable_authori.Delegation.Chain.{Verification, verified}
use aiagent_portable_authori.StatusList.Check.{StatusNet, Cache}
use aiagent_portable_authori.Credential.{
  normalize_constraints, plain, validate_audience, list_from_claim, is_fresh,
}
use aiagent_portable_authori.Credential.VcJose.{
  VcIssuer, VcReceiver, vc_normalized, verify_did_jws, verify_vc_jose,
}
use aiagent_portable_authori.Credential.VcJose.Claims.{permissions_of}
use aiagent_portable_authori.Credential.VcJose.Laws.{
  IsComplete, NotListed, Bound, verify_vc_jose_sound,
}
use aiagent_portable_authori.Credential.Profiles.{Profiles, verify_credential}
use aiagent_portable_authori.Credential.Profiles.Laws.{
  IsTrusted, HasComponents, Grants, verify_credential-Grants,
}
use aiagent_portable_authori.Evaluate.{evaluate, Body, enriched}
use aiagent_portable_authori.Value.{get}
use aiagent_portable_authori.Context.{enrich_request_context}
use aiagent_portable_authori.Evaluator.{
  evaluate_constraints, evaluate_all, evaluate_constraint, evaluate_numeric_limit, on_field,
  resolve_field, numeric_test, compare_by, is_stateful_constraint,
}
use aiagent_portable_authori.Semantic.{
  resolve_semantic_field, default_mappings, resolve_direct_path,
}
use aiagent_portable_authori.Base.Assoc.{lookup}
use aiagent_portable_authori.LocalPolicy.{applies, apply_local_policy_merge, all_local_constraints}
use aiagent_portable_authori.Stateful.Authorize.{
  evaluate_stateful_constraints, stateful_of, build_candidates, authority_checks, authority_check,
  reserve_checked, authorize_candidates,
}
use aiagent_portable_authori.Stateful.{
  build_candidate, scope_material, window_for_period, read_numeric_field,
}
use aiagent_portable_authori.Stateful.Postgres.{reserve}
use aiagent_portable_authori.Delegation.{uses_limit}
use aiagent_portable_authori.Workflow.{allow}
use aiagent_portable_authori.Evaluate.Laws.Profiles.{Carries, evaluate_allow-IsTrusted}
use aiagent_portable_authori.Examples.{engine, body as example_body, store, runtime, amount_at_most}
use aiagent_portable_authori.Examples.Credentials.{claim_proof, receiver, claims}
use aiagent_portable_authori.Examples.Certificates.{texts, signed_fields, x509_receiver}

abbrev vc : Value
vc = obj (
    field "type" (texts "VerifiableCredential") (
      field "credentialStatus"
        (obj (
          field "type" (str "BitstringStatusListEntry")
            (field "statusListIndex" (str "3") (field "statusListCredential" (str "list") nil))))
        nil))

abbrev vc_payload : Value
vc_payload = obj (field "vc" vc (signed_fields "did:web:issuer"))

abbrev net : StatusNet
net = record {
  parse_int = λ v. fin (pos 3);
  fetch = λ url. none;
  parse_part = λ part. none;
  unpack = λ s. some (0 ∷ []);
  key_text = λ v. "list";
}

abbrev cache : Cache
cache = ("list", "encoded") ∷ []

abbrev vc_receiver : VcReceiver
vc_receiver = record {
  runtime = runtime;
  audiences = "receiver" ∷ [];
  resolve_did = λ did. inr null;
  extract_verification_key = λ document kid. inr (str "key");
  jwt_verify = λ jwt key did. inr vc_payload;
  vc_issuer = λ did.
      some
        (record { trusted_for_permissions = "claims.approve" ∷ []; governance_status = "active" });
  skip_revocation = false;
  status_net = net;
  require_proof = true;
  proof = λ key. some claim_proof;
  request_hash = "hash";
  max_age_seconds = pos 300;
  now_seconds = pos 1200;
  iso_string = λ v. "2026-01-01T00:00:00.000Z";
  read_constraints = λ vs. plain (amount_at_most 1000) ∷ [];
}

abbrev vc_result : Payload
vc_result =
    vc_normalized vc_receiver "jwt" (some "agent-a") false "did:web:issuer" vc_payload vc cache

vc_verifies :
    (verify_vc_jose vc_receiver "jwt" (some "agent-a") false "did:web:issuer" cache null).1
    ≡ some (verified vc_result)
unfolding verify_vc_jose verify_did_jws get is_truthy list_from_claim is_fresh add_num to_number
    ◌+ℤ◌
vc_verifies = refl

verify_vc_jose_sound_example :
    (payload : Value) × (verify_did_jws vc_receiver "jwt" null "did:web:issuer" ≡ inr payload)
    × IsComplete vc_receiver "jwt"
        (some "agent-a")
        false
        "did:web:issuer"
        payload
        (member "vc" payload)
        cache
    × ((issuer : VcIssuer) × (vc_receiver.vc_issuer "did:web:issuer" ≡ some issuer)
        × (str_eq issuer.governance_status "active" ≡ true)
        × (every (includes issuer.trusted_for_permissions) vc_result.permissions ≡ true))
    × (validate_audience (member "aud" payload) vc_receiver.audiences ≡ true)
    × NotListed vc_receiver "jwt"
        (some "agent-a")
        false
        "did:web:issuer"
        payload
        (member "vc" payload)
        cache
    × Bound vc_receiver "jwt"
        (some "agent-a")
        false
        "did:web:issuer"
        payload
        (member "vc" payload)
        cache
    × (vc_result
        ≡ vc_normalized vc_receiver "jwt"
            (some "agent-a")
            false
            "did:web:issuer"
            payload
            (member "vc" payload)
            cache)
verify_vc_jose_sound_example =
    verify_vc_jose_sound vc_receiver "jwt" (some "agent-a") false "did:web:issuer" null cache
      vc_result vc_verifies

abbrev part : String → Option Value
part s =
    if str_eq s "header"
    then some (obj nil)
    else if str_eq s "claims"
    then some vc_payload
    else none

abbrev profiles : Profiles
profiles = record {
  parse_part = part;
  read_claims = λ v. claims;
  plain = receiver;
  x509 = x509_receiver;
  vc_jose = vc_receiver;
}

credential_verifies :
    (verify_credential profiles "header.claims.signature" (some "agent-a") false cache).1
    ≡ some (verified vc_result)
unfolding verify_credential get list_from_claim is_fresh add_num to_number ◌+ℤ◌
credential_verifies = refl

verify_credential-Grants_example :
    (a : String) × ((b : String) × ((c : String) × ((h : Value) × ((payload : Value) × (split b'.'
                "header.claims.signature"
              ≡ a ∷ b ∷ c ∷ [])
            × (part a ≡ some h)
            × (part b ≡ some payload)
            × HasComponents profiles payload
            × ((issuer : String) × (member "iss" payload ≡ str issuer)
                × Grants profiles issuer vc_result)))))
verify_credential-Grants_example =
    verify_credential-Grants profiles "header.claims.signature" (some "agent-a") false cache
      vc_result credential_verifies

abbrev own_body : Body
own_body = record example_body { presenter_id = "agent-a" }

vc_allowed :
    (evaluate engine (verified vc_result) "header.claims.signature" own_body store).1.decision
    ≡ some allow
unfolding evaluate is_truthy get includes_value enrich_request_context evaluate_constraints
    evaluate_all evaluate_constraint evaluate_numeric_limit on_field resolve_field
    resolve_semantic_field lookup default_mappings resolve_direct_path numeric_test to_number
    compare_by applies evaluate_stateful_constraints apply_local_policy_merge all_local_constraints
    stateful_of build_candidates build_candidate authority_checks authority_check reserve_checked
    authorize_candidates reserve is_stateful_constraint scope_material window_for_period
    read_numeric_field uses_limit permissions_of normalize_constraints
vc_allowed = refl

evaluate_allow-IsTrusted_example :
    (p : Payload) × ((payload : Value) × ((issuer : String) × ((permitted : List String) × (Path
            Verification
            (verified vc_result)
            (verified p))
          × Carries profiles "header.claims.signature" payload
          × (member "iss" payload ≡ str issuer)
          × IsTrusted profiles issuer p.trust_tier permitted
          × (includes_value permitted (get "action" (enriched own_body p)) ≡ true))))
evaluate_allow-IsTrusted_example =
    evaluate_allow-IsTrusted engine profiles "header.claims.signature" own_body store cache
      (verified vc_result) credential_verifies vc_allowed
