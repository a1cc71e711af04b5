-- ===== src/Evaluate/Laws/Trust.antt =====
-- Laws of POST /evaluate on a plain JWT (routes/evaluate.js and credentialVerifier.js together).
use aiagent_portable_authori.Base.{
  String, Bool, true, false, ◌||◌, ◌≡◌, none, some, List, if_holds, every, includes, every-includes,
  eq_iff, arith,
}
use aiagent_portable_authori.Value.{Value, str, get, is_blank, includes_value}
use aiagent_portable_authori.Payload.{Payload}
use aiagent_portable_authori.Workflow.{allow}
use aiagent_portable_authori.Delegation.Chain.{Verification}
use aiagent_portable_authori.Credential.{
  Claims, TrustedIssuer, Receiver, normalized, validate_audience, verify_plain_jwt,
}
use aiagent_portable_authori.Credential.Laws.{PassesRevocation, verify_plain_jwt_sound}
use aiagent_portable_authori.Evaluate.{
  Store, Response, Engine, Body, enriched, is_complete, evaluate,
}
use aiagent_portable_authori.Evaluate.Laws.Single.{evaluate_allow}

-- A value that is among texts all of which pass a list is on that list.
pub includes_value-every :
    (trusted permissions : List String) (v : Value)
    → every (includes trusted) permissions ≡ true
    → includes_value permissions v ≡ true
    → includes_value trusted v ≡ true
unfolding includes_value
includes_value-every trusted permissions (str s) all h =
    every-includes (includes trusted) permissions s all h
includes_value-every trusted permissions _ all h = cc

allow-presenter :
    (e : Engine) (v : Verification) (body : Body) (s : Store) (credential : String)
    → (evaluate e v credential body s).1.decision ≡ some allow
    → is_blank body.presenter_id ≡ false
unfolding evaluate
allow-presenter e v body s credential =
    let Named : Store × Response → Type 0 =
      λ out. out.1.decision ≡ some allow → is_blank body.presenter_id ≡ false in
    if_holds Named (is_blank credential) (λ _ h. cc)
      (λ _.
        if_holds Named (is_complete body.request_context)
          (λ _. if_holds Named (is_blank body.presenter_id) (λ _ h. cc) (λ named _. named))
          (λ _ h. cc))

bound-named : (blank same : Bool) → blank ≡ false → (blank || same) ≡ true → same ≡ true
bound-named blank same b h = ground arith

module _ (e : Engine) (r : Receiver) (claims : Claims) (credential : String) (body : Body)
    (s : Store) where
  abbrev pub jwt_verification : Verification
  jwt_verification = verify_plain_jwt r credential (some body.presenter_id) false claims

  abbrev pub jwt_payload : Payload
  jwt_payload = normalized r credential (some body.presenter_id) false claims

  -- POST /evaluate allows a plain JWT only if its signature verifies, its issuer is trusted for the
  -- very action that is requested, its audience lets this evaluator in, its subject is the presenter,
  -- and introspection, where it is made at all, neither finds it revoked nor is unavailable while the
  -- failure mode in force is "closed".
  pub evaluate_allow-trust :
      (evaluate e jwt_verification credential body s).1.decision ≡ some allow
      → (r.jwt_error credential ≡ none)
        × (claims.sub ≡ body.presenter_id)
        × ((issuer : TrustedIssuer) × (r.trusted_issuer claims.iss ≡ some issuer)
            × (includes_value issuer.trusted_for_permissions
                  (get "action" (enriched body jwt_payload))
                ≡ true)
            × (validate_audience claims.aud r.audiences ≡ true)
            × PassesRevocation r credential (some body.presenter_id) false claims issuer)
  evaluate_allow-trust h =
      let (p, found, granted) = evaluate_allow e jwt_verification body s credential h in
      let (same, signed, possessed, (issuer, known, trusted, audience, fine)) =
        verify_plain_jwt_sound r credential (some body.presenter_id) false claims p found in
      let included : includes_value jwt_payload.permissions
            (get "action" (enriched body jwt_payload))
          ≡ true =
        mathlib.Core.Path.subst
          (λ (q : Payload). includes_value q.permissions (get "action" (enriched body q)) ≡ true)
          same (granted.0) in
      let subject =
        bound-named (is_blank body.presenter_id) _
          (allow-presenter e jwt_verification body s credential h) (possessed.0) in
      (
        signed,
        (eq_iff claims.sub body.presenter_id).0 subject,
        (
          issuer,
          known,
          includes_value-every issuer.trusted_for_permissions claims.permissions _ trusted included,
          audience,
          fine,
        ),
      )
