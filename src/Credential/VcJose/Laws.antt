-- ===== src/Credential/VcJose/Laws.antt =====
-- Laws of `verifyVcJose` in portauth-engine/src/services/credentialVerifier.js.
use mathlib.Core.Path.{subst}
use aiagent_portable_authori.Base.{
  sym, String, Bool, true, false, ◌≡◌, refl, ◌⊎◌, inl, inr, Option, none, some, List, [], ◌∷◌,
  arith, map, not, ◌||◌, if◌then◌else◌, every, includes, str_eq,
}
use aiagent_portable_authori.Value.{
  Value, str, member, items, is_array, is_object, is_truthy, text_in, includes_value,
}
use aiagent_portable_authori.Payload.{Payload}
use aiagent_portable_authori.Codes.{ErrorCode, credential_incomplete}
use aiagent_portable_authori.Delegation.Chain.{verified, rejected}
use aiagent_portable_authori.StatusList.Check.{Cache, Status, check_bitstring_status}
use aiagent_portable_authori.Credential.{validate_audience}
use aiagent_portable_authori.Credential.VcJose.{
  DidError, VcIssuer, VcReceiver, Verified, is_filled_array, vc_normalized, vc_possession,
  vc_proof_step, vc_bound, vc_subject_step, listed_step, vc_status_step, vc_audience_step,
  vc_issuer_step, components_step, type_step, vc_step, verify_did_jws, signed_step, verify_vc_jose,
}
use aiagent_portable_authori.Credential.VcJose.Claims.{
  agent_of, permissions_of, constraints_of, status_entry_of, has_credential_type,
}

pub includes-texts :
    (allowed : List String) (vs : List Value)
    → every (includes_value allowed) vs ≡ true
    → every (includes allowed) (map text_in vs) ≡ true
unfolding includes_value
includes-texts allowed [] h = refl
includes-texts allowed (str s ∷ vs) h = ground (arith, includes-texts allowed vs)
includes-texts allowed (_ ∷ vs) h = cc

-- Three guards with the same rejection.
guards_sound :
    (a b c : Bool) (code : ErrorCode) (cache : Cache) (rest : Verified) (p : Payload)
    → (if not a
        then (cache, some (rejected code))
        else if not b
        then (cache, some (rejected code))
        else if not c
        then (cache, some (rejected code))
        else rest).1
      ≡ some (verified p)
    → (a ≡ true) × (b ≡ true) × (c ≡ true) × (rest.1 ≡ some (verified p))
guards_sound a b c code cache rest p h = ground arith

-- The check is skipped, or there is nothing to check, or it is done.
branch_sound :
    (skip there : Bool) (x y : Verified) (p : Payload)
    → (if skip || not there then x else y).1 ≡ some (verified p)
    → (((skip ≡ true) ⊎ (there ≡ false)) × (x.1 ≡ some (verified p))) ⊎ (y.1 ≡ some (verified p))
branch_sound true there x y p h = inl (inl refl, h)
branch_sound false false x y p h = inl (inr refl, h)
branch_sound false true x y p h = inr h

module _ (r : VcReceiver) (credential : String) (presenter : Option String) (skip_proof : Bool)
    (did : String) where
  module _ (payload vc : Value) (cache : Cache) where
    -- Nothing says that the credential is revoked or suspended.
    abbrev pub NotListed : Type 0
    NotListed =
        let checked = check_bitstring_status r.status_net (status_entry_of payload vc) cache in
        (r.skip_revocation ≡ true)
        ⊎ (is_truthy (status_entry_of payload vc) ≡ false)
        ⊎ ((checked.1.revoked ≡ false) × (checked.1.suspended ≡ false))

    abbrev pub Bound : Type 0
    Bound =
        (vc_bound r credential presenter skip_proof did payload vc cache presenter ≡ true)
        × (vc_possession r credential presenter skip_proof did payload vc cache ≡ true)

    -- The object is a verifiable credential with an agent, permissions and constraints.
    abbrev pub IsComplete : Type 0
    IsComplete =
        (is_truthy vc ≡ true)
        × (is_object vc ≡ true)
        × (has_credential_type (member "type" vc) ≡ some true)
        × (is_truthy (agent_of payload vc) ≡ true)
        × (is_filled_array (permissions_of payload vc) ≡ true)
        × (is_array (constraints_of payload vc) ≡ true)

    subject_sound :
        (later : Cache) (p : Payload)
        → (vc_subject_step r credential presenter skip_proof did payload vc cache later).1
          ≡ some (verified p)
        → (p ≡ vc_normalized r credential presenter skip_proof did payload vc cache) × Bound
    unfolding vc_subject_step vc_proof_step
    subject_sound later p h = ground arith

    listed_sound :
        (later : Cache) (status : Status) (p : Payload)
        → (listed_step r credential presenter skip_proof did payload vc cache (later, status)).1
          ≡ some (verified p)
        → ((status.revoked ≡ false) × (status.suspended ≡ false))
          × ((vc_subject_step r credential presenter skip_proof did payload vc cache later).1
              ≡ some (verified p))
    unfolding listed_step
    listed_sound later status p h = ground arith

    status_sound :
        (p : Payload)
        → (vc_status_step r credential presenter skip_proof did payload vc cache).1
          ≡ some (verified p)
        → NotListed
          × ((p ≡ vc_normalized r credential presenter skip_proof did payload vc cache) × Bound)
    unfolding vc_status_step
    status_sound p h =
        let checked = check_bitstring_status r.status_net (status_entry_of payload vc) cache in
        elim (branch_sound r.skip_revocation (is_truthy (status_entry_of payload vc))
          (vc_subject_step r credential presenter skip_proof did payload vc cache cache)
          (listed_step r credential presenter skip_proof did payload vc cache checked) p h) [
            | inl (inl skip, rest) ↦ (inl skip, subject_sound cache p rest)
            | inl (inr away, rest) ↦ (inr (inl away), subject_sound cache p rest)
            | inr rest ↦
                let (fine, later) = listed_sound checked.0 checked.1 p rest in
                (inr (inr fine), subject_sound checked.0 p later)
          ]

    issuer_sound :
        (o : Option VcIssuer) (p : Payload)
        → (vc_issuer_step r credential presenter skip_proof did payload vc cache o).1
          ≡ some (verified p)
        → (issuer : VcIssuer) × (o ≡ some issuer)
          × (str_eq issuer.governance_status "active" ≡ true)
          × (every
                (includes_value issuer.trusted_for_permissions)
                (items (permissions_of payload vc))
              ≡ true)
          × (validate_audience (member "aud" payload) r.audiences ≡ true)
          × ((vc_status_step r credential presenter skip_proof did payload vc cache).1
              ≡ some (verified p))
    unfolding vc_issuer_step vc_audience_step
    issuer_sound none p h = cc
    issuer_sound (some issuer) p h =
        let (standing, (trusted, (audience, rest))) : (str_eq issuer.governance_status "active"
              ≡ true)
            × ((every (includes_value issuer.trusted_for_permissions)
                    (items (permissions_of payload vc))
                  ≡ true)
                × ((validate_audience (member "aud" payload) r.audiences ≡ true)
                    × ((vc_status_step r credential presenter skip_proof did payload vc cache).1
                        ≡ some (verified p)))) =
          ground arith in
        (issuer, refl, standing, trusted, audience, rest)

    components_sound :
        (p : Payload)
        → (components_step r credential presenter skip_proof did payload vc cache).1
          ≡ some (verified p)
        → (is_truthy (agent_of payload vc) ≡ true)
          × (is_filled_array (permissions_of payload vc) ≡ true)
          × (is_array (constraints_of payload vc) ≡ true)
          × ((vc_issuer_step r credential presenter skip_proof did payload vc cache
                (r.vc_issuer did)).1
              ≡ some (verified p))
    unfolding components_step
    components_sound p h =
        guards_sound (is_truthy (agent_of payload vc)) (is_filled_array (permissions_of payload vc))
          (is_array (constraints_of payload vc)) credential_incomplete cache
          (vc_issuer_step r credential presenter skip_proof did payload vc cache (r.vc_issuer did))
          p h

    type_sound :
        (o : Option Bool) (p : Payload)
        → (type_step r credential presenter skip_proof did payload vc cache o).1 ≡ some (verified p)
        → (o ≡ some true)
          × ((components_step r credential presenter skip_proof did payload vc cache).1
              ≡ some (verified p))
    unfolding type_step
    type_sound none p h = cc
    type_sound (some false) p h = cc
    type_sound (some true) p h = (refl, h)

    vc_step_sound :
        (p : Payload)
        → (vc_step r credential presenter skip_proof did payload vc cache).1 ≡ some (verified p)
        → IsComplete
          × ((vc_issuer_step r credential presenter skip_proof did payload vc cache
                (r.vc_issuer did)).1
              ≡ some (verified p))
    unfolding vc_step
    vc_step_sound p h =
        let (there, (object, at_type)) : (is_truthy vc ≡ true)
            × ((is_object vc ≡ true)
                × ((type_step r credential presenter skip_proof did payload vc cache
                      (has_credential_type (member "type" vc))).1
                    ≡ some (verified p))) =
          ground arith in
        let (type, at_components) = type_sound (has_credential_type (member "type" vc)) p at_type in
        let (agent, permissions, constraints, rest) = components_sound p at_components in
        ((there, object, type, agent, permissions, constraints), rest)

  signed_sound :
      (cache : Cache) (o : DidError ⊎ Value) (p : Payload)
      → (signed_step r credential presenter skip_proof did cache o).1 ≡ some (verified p)
      → (payload : Value) × (o ≡ inr payload)
        × ((vc_step r credential presenter skip_proof did payload (member "vc" payload) cache).1
            ≡ some (verified p))
  unfolding signed_step
  signed_sound cache (inl error) p h = cc
  signed_sound cache (inr payload) p h = (payload, refl, h)

  -- A VC-JOSE credential verifies only if its payload is signed under the key of its issuer's DID and
  -- is complete, the issuer is known at tier 3, its governance standing is active and it is trusted for
  -- every permission that the result grants, the audience lets this evaluator in, neither revocation
  -- nor suspension is found where they are checked, the presenter is the agent if one is to be bound,
  -- and possession is proved where that is asked for; the result is the payload in normalized form.
  pub verify_vc_jose_sound :
      (header : Value) (cache : Cache) (p : Payload)
      → (verify_vc_jose r credential presenter skip_proof did cache header).1 ≡ some (verified p)
      → (payload : Value) × (verify_did_jws r credential header did ≡ inr payload)
        × IsComplete payload (member "vc" payload) cache
        × ((issuer : VcIssuer) × (r.vc_issuer did ≡ some issuer)
            × (str_eq issuer.governance_status "active" ≡ true)
            × (every (includes issuer.trusted_for_permissions) p.permissions ≡ true))
        × (validate_audience (member "aud" payload) r.audiences ≡ true)
        × NotListed payload (member "vc" payload) cache
        × Bound payload (member "vc" payload) cache
        × (p
            ≡ vc_normalized r credential presenter skip_proof did payload
                (member "vc" payload)
                cache)
  unfolding verify_vc_jose
  verify_vc_jose_sound header cache p h =
      let (payload, signed, at_vc) =
        signed_sound cache (verify_did_jws r credential header did) p h in
      let (complete, at_issuer) = vc_step_sound payload (member "vc" payload) cache p at_vc in
      let (issuer, known, standing, trusted, audience, at_status) =
        issuer_sound payload (member "vc" payload) cache (r.vc_issuer did) p at_issuer in
      let (unlisted, (same, bound)) =
        status_sound payload (member "vc" payload) cache p at_status in
      let granted : every (includes issuer.trusted_for_permissions) p.permissions ≡ true =
        subst (λ q. every (includes issuer.trusted_for_permissions) q.permissions ≡ true) (sym same)
          (includes-texts issuer.trusted_for_permissions
            (items (permissions_of payload (member "vc" payload))) trusted) in
      (
        payload,
        signed,
        complete,
        (issuer, known, standing, granted),
        audience,
        unlisted,
        bound,
        same,
      )
