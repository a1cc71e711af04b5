-- ===== src/Credential/Profiles/Laws.antt =====
-- Laws of `verifyCredential` in portauth-engine/src/services/credentialVerifier.js.
use mathlib.Core.Path.{subst}
use aiagent_portable_authori.Base.{
  ℕ, zero, suc, String, Bool, true, false, not, ◌≡◌, refl, sym, Option, none, some, List, [], ◌∷◌,
  arith, every, includes, if◌then◌else◌,
}
use aiagent_portable_authori.Base.Text.{split}
use aiagent_portable_authori.Codes.{credential_incomplete}
use aiagent_portable_authori.Value.{Value, str, member, is_array, is_nullish, is_truthy}
use aiagent_portable_authori.Payload.{Payload}
use aiagent_portable_authori.Delegation.Chain.{Verification, verified, rejected}
use aiagent_portable_authori.StatusList.Check.{Cache}
use aiagent_portable_authori.Credential.{Claims, TrustedIssuer, verify_plain_jwt}
use aiagent_portable_authori.Credential.Laws.{verify_plain_jwt_sound}
use aiagent_portable_authori.Credential.VcJose.{VcIssuer, Verified}
use aiagent_portable_authori.Credential.VcJose.Laws.{verify_vc_jose_sound}
use aiagent_portable_authori.Credential.Certificates.Identity.{X509Issuer}
use aiagent_portable_authori.Credential.X509.Laws.{verify_x509_jwt_sound}
use aiagent_portable_authori.Credential.Profiles.{
  Profiles, Profile, tier1_jwt, tier2_x509_jwt, vc_jose_profile, top_permissions, top_constraints,
  profile_of, plain_claims, profile_step, route_step, structure_step, decoded_step, parts_step,
  verify_credential,
}

some-eq : {v w : Verification} → some v ≡ some w → v ≡ w
some-eq h = cc

structure_guards :
    (missing iss sub permissions constraints : Bool) (cache : Cache) (rest : Verified) (p : Payload)
    → (if missing
        then (cache, none)
        else if not iss
        then (cache, some (rejected credential_incomplete))
        else if not sub
        then (cache, some (rejected credential_incomplete))
        else if not permissions
        then (cache, some (rejected credential_incomplete))
        else if not constraints
        then (cache, some (rejected credential_incomplete))
        else rest).1
      ≡ some (verified p)
    → (sub ≡ true) × (permissions ≡ true) × (constraints ≡ true) × (rest.1 ≡ some (verified p))
structure_guards missing iss sub permissions constraints cache rest p h = ground arith

module _ (n : Profiles) where
  -- A row of the trusted issuers at a tier allows these permissions.
  abbrev pub IsTrusted : String → ℕ → List String → Type 0
  IsTrusted iss (suc zero) allowed =
      (issuer : TrustedIssuer) × (n.plain.trusted_issuer iss ≡ some issuer)
      × (issuer.trusted_for_permissions ≡ allowed)
  IsTrusted iss (suc (suc zero)) allowed =
      (issuer : X509Issuer) × (n.x509.x509_issuer iss ≡ some issuer)
      × (issuer.trusted_for_permissions ≡ allowed)
  IsTrusted iss (suc (suc (suc zero))) allowed =
      (issuer : VcIssuer) × (n.vc_jose.vc_issuer iss ≡ some issuer)
      × (issuer.trusted_for_permissions ≡ allowed)
  IsTrusted iss _ allowed = ⊥

  -- The result grants only what its issuer is trusted for at its tier.
  abbrev pub Grants : String → Payload → Type 0
  Grants iss p =
      (allowed : List String) × IsTrusted iss p.trust_tier allowed
      × (every (includes allowed) p.permissions ≡ true)

  -- What is required of the claims.
  abbrev pub HasComponents : Value → Type 0
  HasComponents claims =
      (is_truthy (member "sub" claims) ≡ true)
      × (is_array (top_permissions claims) ≡ true)
      × (is_array (top_constraints claims) ≡ true)

  module _ (credential : String) (presenter : Option String) (skip_proof : Bool)
      (cache : Cache) where
    plain-Grants :
        (claims : Claims) (p : Payload)
        → verify_plain_jwt n.plain credential presenter skip_proof claims ≡ verified p
        → Grants claims.iss p
    plain-Grants claims p h =
        let (same, signed, possessed, (issuer, known, trusted, audience, fine)) =
          verify_plain_jwt_sound n.plain credential presenter skip_proof claims p h in
        subst (Grants claims.iss) (sym same)
          (issuer.trusted_for_permissions, (issuer, known, refl), trusted)

    profile_sound :
        (header claims : Value) (iss : String) (profile : Profile) (p : Payload)
        → (profile_step n credential presenter skip_proof cache header claims iss profile).1
          ≡ some (verified p)
        → Grants iss p
    unfolding profile_step
    profile_sound header claims iss tier1_jwt p h =
        plain-Grants (plain_claims n credential presenter skip_proof cache claims iss) p (some-eq h)
    profile_sound header claims iss tier2_x509_jwt p h =
        let (
          issuer,
          (leaf, (payload, known, chain, identity, signed, granted, audience, fine, bound, same)),
        ) =
          verify_x509_jwt_sound n.x509 credential presenter skip_proof (top_permissions claims)
            (top_constraints claims) iss header p h in
        subst
          (λ q. every (includes issuer.trusted_for_permissions) q.permissions ≡ true → Grants iss q)
          (sym same) (λ g. (issuer.trusted_for_permissions, (issuer, known, refl), g)) granted
    profile_sound header claims iss vc_jose_profile p h =
        let (
          payload,
          signed,
          complete,
          (issuer, known, standing, granted),
          audience,
          unlisted,
          bound,
          same,
        ) =
          verify_vc_jose_sound n.vc_jose credential presenter skip_proof iss header cache p h in
        subst
          (λ q. every (includes issuer.trusted_for_permissions) q.permissions ≡ true → Grants iss q)
          (sym same) (λ g. (issuer.trusted_for_permissions, (issuer, known, refl), g)) granted

    route_sound :
        (header claims iss : Value) (p : Payload)
        → (route_step n credential presenter skip_proof cache header claims iss).1
          ≡ some (verified p)
        → (issuer : String) × (iss ≡ str issuer) × Grants issuer p
    unfolding route_step
    route_sound header claims (str iss) p h =
        let (_, at_profile) : (is_nullish header ≡ false)
            × ((profile_step n credential presenter skip_proof cache header claims iss
                  (profile_of header claims iss)).1
                ≡ some (verified p)) =
          ground arith in
        (iss, refl, profile_sound header claims iss (profile_of header claims iss) p at_profile)
    route_sound header claims _ p h = cc

    decoded_sound :
        (header claims : Option Value) (p : Payload)
        → (decoded_step n credential presenter skip_proof cache header claims).1 ≡ some (verified p)
        → (h : Value) × ((c : Value) × (header ≡ some h)
            × (claims ≡ some c)
            × HasComponents c
            × ((issuer : String) × (member "iss" c ≡ str issuer) × Grants issuer p))
    unfolding decoded_step structure_step
    decoded_sound (some h) (some c) p e =
        let (sub, permissions, constraints, at_route) =
          structure_guards (is_nullish c) (is_truthy (member "iss" c)) (is_truthy (member "sub" c))
            (is_array (top_permissions c)) (is_array (top_constraints c)) cache
            (route_step n credential presenter skip_proof cache h c (member "iss" c)) p e in
        (
          h,
          (
            c,
            refl,
            refl,
            (sub, permissions, constraints),
            route_sound h c (member "iss" c) p at_route,
          ),
        )
    decoded_sound none claims p e = cc
    decoded_sound (some h) none p e = cc

    parts_sound :
        (parts : List String) (p : Payload)
        → (parts_step n credential presenter skip_proof cache parts).1 ≡ some (verified p)
        → (a : String) × ((b : String) × ((c : String) × ((h : Value) × ((claims : Value) × (parts
                    ≡ a ∷ b ∷ c ∷ [])
                  × (n.parse_part a ≡ some h)
                  × (n.parse_part b ≡ some claims)
                  × HasComponents claims
                  × ((issuer : String) × (member "iss" claims ≡ str issuer) × Grants issuer p)))))
    unfolding parts_step
    parts_sound (a ∷ b ∷ c ∷ []) p e =
        let (h, (claims, header, body, components, granted)) =
          decoded_sound (n.parse_part a) (n.parse_part b) p e in
        (a, (b, (c, (h, (claims, refl, header, body, components, granted)))))
    parts_sound [] p e = cc
    parts_sound (_ ∷ []) p e = cc
    parts_sound (_ ∷ _ ∷ []) p e = cc
    parts_sound (_ ∷ _ ∷ _ ∷ _ ∷ _) p e = cc

    -- Whatever its profile, a credential verifies only if it has three parts, its header and claims
    -- parse, the claims have a subject, permissions and constraints and name an issuer, and a row at
    -- the tier of the result trusts this issuer for every permission that the result grants.
    pub verify_credential-Grants :
        (p : Payload)
        → (verify_credential n credential presenter skip_proof cache).1 ≡ some (verified p)
        → (a : String) × ((b : String) × ((c : String) × ((h : Value) × ((claims : Value) × (split
                      b'.' credential
                    ≡ a ∷ b ∷ c ∷ [])
                  × (n.parse_part a ≡ some h)
                  × (n.parse_part b ≡ some claims)
                  × HasComponents claims
                  × ((issuer : String) × (member "iss" claims ≡ str issuer) × Grants issuer p)))))
    unfolding verify_credential
    verify_credential-Grants p h = parts_sound (split b'.' credential) p h
