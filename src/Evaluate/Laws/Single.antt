-- ===== src/Evaluate/Laws/Single.antt =====
-- Laws of POST /evaluate.
use aiagent_portable_authori.Base.{String, ◌≡◌, refl, some, if_holds}
use aiagent_portable_authori.Value.{get, is_blank}
use aiagent_portable_authori.Payload.{Payload}
use aiagent_portable_authori.Workflow.{allow, deny}
use aiagent_portable_authori.Delegation.Chain.{Verification, verified, rejected}
use aiagent_portable_authori.Evaluate.{
  Store, Response, Engine, Body, single, enriched, request_idempotency_key, is_complete,
  verify_step, evaluate,
}
use aiagent_portable_authori.Evaluate.Laws.{
  Audited, respond-Audited, respond-decision, respond-tables, Granted, permission_step-Audited,
  permission_step-kept, permission_step-allow,
}

module _ (e : Engine) (verification : Verification) (body : Body) (s : Store) where
  -- A payload is granted in the context that the engine enriches for it.
  abbrev pub GrantedTo : Payload → Type 0
  GrantedTo p =
      Granted e single p (enriched body p)
        (request_idempotency_key e.key_text body (enriched body p)) s.tables
        (get "action" (enriched body p))

  verify_step-Audited : (v : Verification) → Audited s (verify_step e body s v)
  unfolding verify_step
  verify_step-Audited (rejected code) = respond-Audited e.signs s s _ refl
  verify_step-Audited (verified p) =
      permission_step-Audited e single p (enriched body p)
        (request_idempotency_key e.key_text body (enriched body p)) s _

  verify_step-kept :
      (v : Verification)
      → (verify_step e body s v).1.decision ≡ some deny
      → (verify_step e body s v).0.tables ≡ s.tables
  unfolding verify_step
  verify_step-kept (rejected code) h = respond-tables e.signs s _
  verify_step-kept (verified p) h =
      permission_step-kept e single p (enriched body p)
        (request_idempotency_key e.key_text body (enriched body p)) s _ h

  verify_step-allow :
      (v : Verification)
      → (verify_step e body s v).1.decision ≡ some allow
      → (p : Payload) × (v ≡ verified p) × GrantedTo p
  unfolding verify_step
  verify_step-allow (rejected code) h =
      let bad : deny ≡ allow = respond-decision e.signs s _ allow h in cc
  verify_step-allow (verified p) h = (
    p,
    refl,
    permission_step-allow e single p (enriched body p)
        (request_idempotency_key e.key_text body (enriched body p)) s _ h,
  )

  -- Every decision of POST /evaluate, whichever it is, stands in exactly one new audit record, with
  -- the same error code and status; an answer without a decision adds none.
  pub evaluate-Audited :
      (credential : String) → Audited s (evaluate e verification credential body s)
  unfolding evaluate
  evaluate-Audited credential =
      if_holds (Audited s) (is_blank credential) (λ _. refl)
        (λ _.
          if_holds (Audited s) (is_complete body.request_context)
            (λ _.
              if_holds (Audited s) (is_blank body.presenter_id) (λ _. refl)
                (λ _. verify_step-Audited verification))
            (λ _. refl))

  -- A denial of POST /evaluate, at whatever step, leaves the counters and their events as they were.
  pub evaluate_denial_keeps_tables :
      (credential : String)
      → (evaluate e verification credential body s).1.decision ≡ some deny
      → (evaluate e verification credential body s).0.tables ≡ s.tables
  unfolding evaluate
  evaluate_denial_keeps_tables credential =
      let Kept : Store × Response → Type 0 =
        λ out. out.1.decision ≡ some deny → out.0.tables ≡ s.tables in
      if_holds Kept (is_blank credential) (λ _ _. refl)
        (λ _.
          if_holds Kept (is_complete body.request_context)
            (λ _.
              if_holds Kept (is_blank body.presenter_id) (λ _ _. refl)
                (λ _. verify_step-kept verification))
            (λ _ _. refl))

  -- POST /evaluate allows only a verified credential whose permissions have the action, all of
  -- whose constraints hold in the enriched context, which every local policy that applies lets
  -- through, and for which stateful authorization reserves the use.
  pub evaluate_allow :
      (credential : String)
      → (evaluate e verification credential body s).1.decision ≡ some allow
      → (p : Payload) × (verification ≡ verified p) × GrantedTo p
  unfolding evaluate
  evaluate_allow credential =
      let Sound : Store × Response → Type 0 = λ out.
        out.1.decision ≡ some allow → (p : Payload) × (verification ≡ verified p) × GrantedTo p in
      if_holds Sound (is_blank credential) (λ _ h. cc)
        (λ _.
          if_holds Sound (is_complete body.request_context)
            (λ _.
              if_holds Sound (is_blank body.presenter_id) (λ _ h. cc)
                (λ _. verify_step-allow verification))
            (λ _ h. cc))
