-- ===== src/Evaluate/Batch/Laws.antt =====
-- Laws of POST /evaluate/batch.
use aiagent_portable_authori.Base.{
  ℕ, String, true, false, ◌≡◌, refl, none, some, List, All, if_holds, is_empty, str_eq, includes,
}
use aiagent_portable_authori.Value.{Value, str, obj, get, is_blank, includes_value}
use aiagent_portable_authori.Payload.{Payload}
use aiagent_portable_authori.Evaluator.Laws.{evaluate_constraints_iff}
use aiagent_portable_authori.Workflow.{allow, deny}
use aiagent_portable_authori.Delegation.Chain.{
  Verifier, ChainResult, chain_ok, chain_error, DelegationConfig, verify_delegation_chain,
}
use aiagent_portable_authori.Delegation.Chain.Laws.{
  Verifies, last_of, ComparableChain, Grants, verify_delegation_chain-last,
  verify_delegation_chain-authority,
}
use aiagent_portable_authori.Evaluate.{
  Store, Response, Engine, Body, batch, enriched, request_idempotency_key, is_complete, action_text,
}
use aiagent_portable_authori.Evaluate.Laws.{
  Audited, respond-Audited, respond-decision, respond-tables, Granted, permission_step-Audited,
  permission_step-kept, permission_step-allow,
}
use aiagent_portable_authori.Evaluate.Batch.{chain_step, evaluate_batch}

includes-action_text :
    (xs : List String) (v : Value) → includes_value xs v ≡ true → includes xs (action_text v) ≡ true
unfolding includes_value
includes-action_text xs (str s) h = h
includes-action_text xs _ h = cc

module _ (e : Engine) (verify : Verifier) (config : DelegationConfig) (body : Body)
    (s : Store) where
  abbrev key_of : Payload → String
  key_of p = request_idempotency_key e.key_text body (enriched body p)

  -- The leaf's payload is granted in the context that the engine enriches for it.
  abbrev pub GrantedLeaf : Payload → ℕ → Type 0
  GrantedLeaf p depth =
      Granted e (batch depth) p (enriched body p) (key_of p) s.tables
        (get "action" (enriched body p))

  abbrev pub verified_chain : List String → ChainResult
  verified_chain credentials =
      verify_delegation_chain e.runtime verify config credentials body.presenter_id

  chain_step-Audited : (r : ChainResult) → Audited s (chain_step e body s r)
  unfolding chain_step
  chain_step-Audited (chain_error code depth) = respond-Audited e.signs s s _ refl
  chain_step-Audited (chain_ok none depth) = refl
  chain_step-Audited (chain_ok (some p) depth) =
      permission_step-Audited e (batch depth) p (enriched body p) (key_of p) s _

  chain_step-kept :
      (r : ChainResult)
      → (chain_step e body s r).1.decision ≡ some deny
      → (chain_step e body s r).0.tables ≡ s.tables
  unfolding chain_step
  chain_step-kept (chain_error code depth) h = respond-tables e.signs s _
  chain_step-kept (chain_ok none depth) h = refl
  chain_step-kept (chain_ok (some p) depth) h =
      permission_step-kept e (batch depth) p (enriched body p) (key_of p) s _ h

  chain_step-allow :
      (r : ChainResult)
      → (chain_step e body s r).1.decision ≡ some allow
      → (p : Payload) × ((depth : ℕ) × (r ≡ chain_ok (some p) depth) × GrantedLeaf p depth)
  unfolding chain_step
  chain_step-allow (chain_error code depth) h =
      let bad : deny ≡ allow = respond-decision e.signs s _ allow h in cc
  chain_step-allow (chain_ok none depth) h = cc
  chain_step-allow (chain_ok (some p) depth) h =
      (p, (depth, refl, permission_step-allow e (batch depth) p (enriched body p) (key_of p) s _ h))

  -- Every decision of POST /evaluate/batch stands in exactly one new audit record, with the same
  -- error code and status; an answer without a decision adds none.
  pub evaluate_batch-Audited :
      (credentials : List String) → Audited s (evaluate_batch e verify config credentials body s)
  unfolding evaluate_batch
  evaluate_batch-Audited credentials =
      if_holds (Audited s) (is_empty credentials) (λ _. refl)
        (λ _.
          if_holds (Audited s) (is_complete body.request_context)
            (λ _.
              if_holds (Audited s) (is_blank body.presenter_id) (λ _. refl)
                (λ _. chain_step-Audited (verified_chain credentials)))
            (λ _. refl))

  -- A denial of POST /evaluate/batch, at whatever step, leaves the counters and their events as
  -- they were.
  pub evaluate_batch_denial_keeps_tables :
      (credentials : List String)
      → (evaluate_batch e verify config credentials body s).1.decision ≡ some deny
      → (evaluate_batch e verify config credentials body s).0.tables ≡ s.tables
  unfolding evaluate_batch
  evaluate_batch_denial_keeps_tables credentials =
      let Kept : Store × Response → Type 0 =
        λ out. out.1.decision ≡ some deny → out.0.tables ≡ s.tables in
      if_holds Kept (is_empty credentials) (λ _ _. refl)
        (λ _.
          if_holds Kept (is_complete body.request_context)
            (λ _.
              if_holds Kept (is_blank body.presenter_id) (λ _ _. refl)
                (λ _. chain_step-kept (verified_chain credentials)))
            (λ _ _. refl))

  -- POST /evaluate/batch allows only a chain that verifies and whose leaf has the action, holds
  -- all its constraints, passes local policy and reserves its use.
  pub evaluate_batch_allow :
      (credentials : List String)
      → (evaluate_batch e verify config credentials body s).1.decision ≡ some allow
      → (p : Payload) × ((depth : ℕ) × (verified_chain credentials ≡ chain_ok (some p) depth)
          × GrantedLeaf p depth)
  unfolding evaluate_batch
  evaluate_batch_allow credentials =
      let Sound : Store × Response → Type 0 = λ out.
        out.1.decision ≡ some allow
        → (p : Payload) × ((depth : ℕ) × (verified_chain credentials ≡ chain_ok (some p) depth)
            × GrantedLeaf p depth) in
      if_holds Sound (is_empty credentials) (λ _ h. cc)
        (λ _.
          if_holds Sound (is_complete body.request_context)
            (λ _.
              if_holds Sound (is_blank body.presenter_id) (λ _ h. cc)
                (λ _. chain_step-allow (verified_chain credentials)))
            (λ _ h. cc))

  -- Where the setting requires attenuation, a batch is allowed only if every payload that its
  -- credentials verify to, the root's included, has the permission and passes all its constraints, in
  -- the context that is enriched for the leaf, if neighbours among these payloads are comparable.
  pub evaluate_batch_authority :
      (credentials : List String) (ps : List Payload)
      → str_eq config.require_attenuation_proof "false" ≡ false
      → Verifies verify body.presenter_id credentials ps
      → ComparableChain e.runtime none ps
      → (evaluate_batch e verify config credentials body s).1.decision ≡ some allow
      → (leaf : Payload) × (some leaf ≡ last_of none ps)
        × All
            (Grants e.runtime e.mappings
              (obj (enriched body leaf))
              (action_text (get "action" (enriched body leaf))))
            ps
  evaluate_batch_authority credentials ps on verifies near h =
      let (leaf, (depth, chain, (included, holds, _, _))) = evaluate_batch_allow credentials h in
      let ctx = obj (enriched body leaf) in
      (
        leaf,
        verify_delegation_chain-last e.runtime verify body.presenter_id config credentials ps leaf
            depth chain verifies,
        verify_delegation_chain-authority e.runtime e.mappings ctx
            (action_text (get "action" (enriched body leaf))) verify body.presenter_id config
            credentials ps leaf depth on chain verifies near
            (
              includes-action_text leaf.permissions _ included,
              (evaluate_constraints_iff e.runtime e.mappings ctx leaf.constraints).1 holds,
            ),
      )
