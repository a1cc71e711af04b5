-- ===== src/Delegation/Chain/Laws.antt =====
-- Laws of `verifyDelegationChain`.
use mathlib.Core.Path.{ap₂, subst}
use aiagent_portable_authori.Base.{
  ℕ, suc, ◌+◌, String, Bool, true, false, not, ◌≡◌, refl, ◌≢◌, ◌↔◌, inl, inr, Option, none, some,
  List, [], ◌∷◌, ap, sym, ◌∙◌, arith, All, includes, length, Bool-cases, eq_iff, str_eq,
}
use aiagent_portable_authori.Base.Int.{pos}
use aiagent_portable_authori.Base.Num.{fin, ltb_num}
use aiagent_portable_authori.Codes.{ErrorCode, delegation_depth_exceeded}
use aiagent_portable_authori.Value.{Value, Runtime, or_default}
use aiagent_portable_authori.Payload.{Payload}
use aiagent_portable_authori.Semantic.{Mappings}
use aiagent_portable_authori.Evaluator.{evaluate_constraints}
use aiagent_portable_authori.Delegation.{validate_delegation_link, verify_attenuation}
use aiagent_portable_authori.Delegation.Authority.{Comparable, verify_attenuation-authority}
use aiagent_portable_authori.Delegation.Chain.{
  Verification, verified, rejected, ChainResult, chain_ok, chain_error, Verifier, DelegationConfig,
  link_error, link_code, verify_at, chain_loop, verify_delegation_chain,
}

-- A child names its parent: issuer and subject continue, and the reference is the parent's id.
abbrev pub Continues : Payload → Payload → Type 0
Continues parent child =
    (child.issuer_id ≡ parent.agent_id)
    × (child.delegated_from ≡ parent.credential_id)
    × (child.delegated_from ≢ "")

validate_delegation_link_iff :
    (parent child : Payload)
    → (validate_delegation_link parent child ≡ true) ↔ Continues parent child
unfolding validate_delegation_link
validate_delegation_link_iff parent child = ground (
  arith,
  eq_iff child.issuer_id parent.agent_id,
  eq_iff child.delegated_from parent.credential_id,
  eq_iff child.delegated_from "",
)

link_error-some :
    (rt : Runtime) (require : Bool) (parent child : Payload)
    → link_error rt require (some parent) child ≡ none
    → Continues parent child × (require ≡ true → verify_attenuation rt parent child ≡ true)
unfolding link_error
link_error-some rt require parent child h =
    ((validate_delegation_link_iff parent child).0 (ground arith), λ r. ground arith)

link_error-none :
    (rt : Runtime) (require : Bool) (parent child : Payload)
    → Continues parent child × (require ≡ true → verify_attenuation rt parent child ≡ true)
    → link_error rt require (some parent) child ≡ none
unfolding link_error
link_error-none rt require parent child (c, a) =
    let linked = (validate_delegation_link_iff parent child).1 c in
    elim (Bool-cases require) [ inl r ↦ let fits = a r in ground arith | inr r ↦ ground arith ]

verified-eq : {p q : Payload} → verified p ≡ verified q → p ≡ q
verified-eq h = cc

-- The last payload of a chain.
abbrev pub last_of : Option Payload → List Payload → Option Payload
last_of parent [] = parent
last_of parent (p ∷ ps) = last_of (some p) ps

after_verification :
    (v : Verification) (i : ℕ) (k : Payload → ChainResult) (leaf : Option Payload) (depth : ℕ)
    → (elim v [ rejected code ↦ chain_error (link_code i code) (some i) | verified p ↦ k p ])
      ≡ chain_ok leaf depth
    → (p : Payload) × (v ≡ verified p) × (k p ≡ chain_ok leaf depth)
after_verification (rejected code) i k leaf depth h = cc
after_verification (verified p) i k leaf depth h = (p, refl, h)

after_link :
    (e : Option ErrorCode) (i : ℕ) (rest : ChainResult) (leaf : Option Payload) (depth : ℕ)
    → (elim e [ some code ↦ chain_error code (some i) | none ↦ rest ]) ≡ chain_ok leaf depth
    → (e ≡ none) × (rest ≡ chain_ok leaf depth)
after_link (some code) i rest leaf depth h = cc
after_link none i rest leaf depth h = (refl, h)

-- Every credential verifies, to the payload at its place: the last one, the leaf, for the presenter
-- and with its proof of possession, the others for nobody and without.
abbrev pub Verifies : Verifier → String → List String → List Payload → Type 0
Verifies verify presenter [] [] = Unit
Verifies verify presenter [] (_ ∷ _) = ⊥
Verifies verify presenter (_ ∷ _) [] = ⊥
Verifies verify presenter (c ∷ []) (p ∷ ps) =
    (verify c (some presenter) false ≡ verified p) × Verifies verify presenter [] ps
Verifies verify presenter (c ∷ d ∷ cs) (p ∷ ps) =
    (verify c none true ≡ verified p) × Verifies verify presenter (d ∷ cs) ps

-- Every payload continues the one before it and, where that is required, is attenuated under it.
abbrev pub Linked : Runtime → Bool → Option Payload → List Payload → Type 0
Linked rt require parent [] = Unit
Linked rt require none (p ∷ ps) = Linked rt require (some p) ps
Linked rt require (some q) (p ∷ ps) =
    (Continues q p × (require ≡ true → verify_attenuation rt q p ≡ true))
    × Linked rt require (some p) ps

Verifies-cons :
    (rt : Runtime) (require : Bool) (verify : Verifier) (presenter c : String) (cs : List String)
    (p : Payload) (ps : List Payload)
    → Verifies verify presenter (c ∷ cs) (p ∷ ps) ↔ (
        (verify_at rt verify require presenter c cs ≡ verified p) × Verifies verify presenter cs ps)
Verifies-cons rt require verify presenter c [] p ps = (λ h. h, λ h. h)
Verifies-cons rt require verify presenter c (d ∷ cs) p ps = (λ h. h, λ h. h)

-- The payloads are those that the credentials verify to.
Verifies-unique :
    (rt : Runtime) (verify : Verifier) (presenter : String) (cs : List String)
    (ps qs : List Payload)
    → Verifies verify presenter cs ps
    → Verifies verify presenter cs qs
    → ps ≡ qs
Verifies-unique rt verify presenter [] [] [] v w = refl
Verifies-unique rt verify presenter [] [] (q ∷ qs) v w = absurd w
Verifies-unique rt verify presenter [] (p ∷ ps) qs v w = absurd v
Verifies-unique rt verify presenter (c ∷ cs) [] qs v w = absurd v
Verifies-unique rt verify presenter (c ∷ cs) (p ∷ ps) [] v w = absurd w
Verifies-unique rt verify presenter (c ∷ cs) (p ∷ ps) (q ∷ qs) v w =
    let (here, later) = (Verifies-cons rt true verify presenter c cs p ps).0 v in
    let (here', later') = (Verifies-cons rt true verify presenter c cs q qs).0 w in
    let same : p ≡ q = verified-eq (sym here ∙ here') in
    ap₂ (λ x xs. x ∷ xs) same (Verifies-unique rt verify presenter cs ps qs later later')

Linked-cons :
    (rt : Runtime) (require : Bool) (parent : Option Payload) (p : Payload) (ps : List Payload)
    → Linked rt require parent (p ∷ ps)
      ↔ ((link_error rt require parent p ≡ none) × Linked rt require (some p) ps)
unfolding link_error
Linked-cons rt require none p ps = (λ h. (refl, h), λ h. h.1)
Linked-cons rt require (some q) p ps =
    (λ h. (link_error-none rt require q p h.0, h.1), λ h. (link_error-some rt require q p h.0, h.1))

module _ (rt : Runtime) (verify : Verifier) (require : Bool) (presenter : String) where
  chain_loop_sound :
      (i : ℕ) (parent : Option Payload) (cs : List String) (leaf : Option Payload) (depth : ℕ)
      → chain_loop rt verify require presenter i parent cs ≡ chain_ok leaf depth
      → (ps : List Payload) × Verifies verify presenter cs ps
        × Linked rt require parent ps
        × (leaf ≡ last_of parent ps)
        × (depth ≡ i + length cs)
  unfolding chain_loop
  chain_loop_sound i parent [] leaf depth h = ([], tt, tt, ground arith, ground arith)
  chain_loop_sound i parent (c ∷ cs) leaf depth h =
      let (p, e, onward) =
        after_verification (verify_at rt verify require presenter c cs) i _ leaf depth h in
      let (fits, rest) =
        after_link (link_error rt require parent p) i
          (chain_loop rt verify require presenter (suc i) (some p) cs) leaf depth onward in
      let (ps, verifies, linked, last, counted) =
        chain_loop_sound (suc i) (some p) cs leaf depth rest in
      (
        p ∷ ps,
        (Verifies-cons rt require verify presenter c cs p ps).1 (e, verifies),
        (Linked-cons rt require parent p ps).1 (fits, linked),
        last,
        omega arith,
      )

  chain_loop_complete :
      (i : ℕ) (parent : Option Payload) (cs : List String) (ps : List Payload)
      → Verifies verify presenter cs ps
      → Linked rt require parent ps
      → chain_loop rt verify require presenter i parent cs
        ≡ chain_ok (last_of parent ps) (i + length cs)
  unfolding chain_loop
  chain_loop_complete i parent [] [] v l = ground arith
  chain_loop_complete i parent [] (p ∷ ps) v l = absurd v
  chain_loop_complete i parent (c ∷ cs) [] v l = absurd v
  chain_loop_complete i parent (c ∷ cs) (p ∷ ps) v l =
      let (e, verifies) = (Verifies-cons rt require verify presenter c cs p ps).0 v in
      let (fits, linked) = (Linked-cons rt require parent p ps).0 l in
      rw (e, chain_loop)
        (rw fits (
          chain_loop_complete (suc i) (some p) cs ps verifies linked
          ∙ ap (chain_ok (last_of (some p) ps)) (omega arith)))

-- A chain is accepted exactly when it is not deeper than the limit, every credential verifies, the
-- leaf's for the presenter and with its proof of possession, and every payload continues the one
-- above it and, unless the setting is "false", is attenuated under it; the result is the last payload,
-- and the number of credentials.
pub verify_delegation_chain_iff :
    (rt : Runtime) (verify : Verifier) (config : DelegationConfig) (cs : List String)
    (presenter : String) (leaf : Option Payload) (depth : ℕ)
    → (verify_delegation_chain rt verify config cs presenter ≡ chain_ok leaf depth) ↔ (
        (ltb_num (rt.parse_int (or_default config.max_depth "5")) (fin (pos (length cs))) ≡ false)
        × ((ps : List Payload) × Verifies verify presenter cs ps
            × Linked rt (not (str_eq config.require_attenuation_proof "false")) none ps
            × (leaf ≡ last_of none ps)
            × (depth ≡ length cs)))
unfolding verify_delegation_chain
verify_delegation_chain_iff rt verify config cs presenter leaf depth = (
  λ h. elim (Bool-cases deep) [
    | inl e ↦ absurd (ok-ne-error (rw e at h))
    | inr e ↦
        let (ps, verifies, linked, last, counted) =
          chain_loop_sound rt verify require presenter 0 none cs leaf depth (rw e at h) in
        (e, (ps, verifies, linked, last, omega arith))
  ],
  λ h.
      let (ps, verifies, linked, last, counted) = h.1 in
      rw h.0 (
        chain_loop_complete rt verify require presenter 0 none cs ps verifies linked
        ∙ ap₂ chain_ok (sym last) (omega arith)),
)
  where
    deep : Bool
    deep = ltb_num (rt.parse_int (or_default config.max_depth "5")) (fin (pos (length cs)))

    require : Bool
    require = not (str_eq config.require_attenuation_proof "false")

    ok-ne-error : chain_error delegation_depth_exceeded none ≡ chain_ok leaf depth → ⊥
    ok-ne-error bad = cc

-- The result is the payload that the last credential verifies to.
pub verify_delegation_chain-last :
    (rt : Runtime) (verify : Verifier) (presenter : String) (config : DelegationConfig)
    (cs : List String) (ps : List Payload) (leaf : Payload) (depth : ℕ)
    → verify_delegation_chain rt verify config cs presenter ≡ chain_ok (some leaf) depth
    → Verifies verify presenter cs ps
    → some leaf ≡ last_of none ps
verify_delegation_chain-last rt verify presenter config cs ps leaf depth h v =
    let (_, (qs, verifies, linked, last, _)) =
      (verify_delegation_chain_iff rt verify config cs presenter (some leaf) depth).0 h in
    last ∙ ap (last_of none) (Verifies-unique rt verify presenter cs qs ps verifies v)

-- The comparisons along a chain rest on comparable payloads.
abbrev pub ComparableChain : Runtime → Option Payload → List Payload → Type 0
ComparableChain rt parent [] = Unit
ComparableChain rt none (p ∷ ps) = ComparableChain rt (some p) ps
ComparableChain rt (some q) (p ∷ ps) = Comparable rt q p × ComparableChain rt (some p) ps

-- A payload grants an action in a context.
abbrev pub Grants : Runtime → Mappings → Value → String → Payload → Type 0
Grants rt m ctx action p =
    (includes p.permissions action ≡ true)
    × ((evaluate_constraints rt m p.constraints ctx).pass ≡ true)

abbrev pub GrantsLast : Runtime → Mappings → Value → String → Option Payload → Type 0
GrantsLast rt m ctx action none = Unit
GrantsLast rt m ctx action (some p) = Grants rt m ctx action p

module _ (rt : Runtime) (m : Mappings) (ctx : Value) (action : String) where
  Linked-Grants :
      (parent : Option Payload) (ps : List Payload)
      → Linked rt true parent ps
      → ComparableChain rt parent ps
      → GrantsLast rt m ctx action (last_of parent ps)
      → GrantsLast rt m ctx action parent × All (Grants rt m ctx action) ps
  Linked-Grants parent [] l c g = (g, tt)
  Linked-Grants none (p ∷ ps) l c g = (tt, Linked-Grants (some p) ps l c g)
  Linked-Grants (some q) (p ∷ ps) ((_, attenuated), l) (near, c) g =
      let (here, rest) = Linked-Grants (some p) ps l c g in
      (
        verify_attenuation-authority rt m ctx q p action near (attenuated refl) here.0 here.1,
        (here, rest),
      )

  -- Where the setting requires attenuation and a chain is accepted, an action and a context that the
  -- leaf grants are granted by every payload that the chain's credentials verify to, up to the
  -- root's, if neighbours among these payloads are comparable.
  pub verify_delegation_chain-authority :
      (verify : Verifier) (presenter : String) (config : DelegationConfig) (cs : List String)
      (ps : List Payload) (leaf : Payload) (depth : ℕ)
      → str_eq config.require_attenuation_proof "false" ≡ false
      → verify_delegation_chain rt verify config cs presenter ≡ chain_ok (some leaf) depth
      → Verifies verify presenter cs ps
      → ComparableChain rt none ps
      → Grants rt m ctx action leaf
      → All (Grants rt m ctx action) ps
  verify_delegation_chain-authority verify presenter config cs ps leaf depth on h v c g =
      let (_, (qs, verifies, linked, last, _)) =
        (verify_delegation_chain_iff rt verify config cs presenter (some leaf) depth).0 h in
      let same = Verifies-unique rt verify presenter cs qs ps verifies v in
      let required : Linked rt true none ps = subst (Linked rt true none) same (rw on at linked) in
      let at_last : GrantsLast rt m ctx action (last_of none ps) =
        subst (λ xs. GrantsLast rt m ctx action (last_of none xs)) same
          (subst (GrantsLast rt m ctx action) last g) in
      (Linked-Grants none ps required c at_last).1
