-- ===== src/Credential/Laws.antt =====
-- Laws of audience, proof of possession and the plain JWT profile.
use aiagent_portable_authori.Base.{
  String, Bool, true, false, ◌≡◌, refl, ◌↔◌, ◌⊎◌, inl, inr, Option, none, some, List, arith, any,
  every, includes, is_empty, str_eq, Bool-cases, eq_iff,
}
use aiagent_portable_authori.Base.Num.{fin, add_num, ltb_num}
use aiagent_portable_authori.Value.{
  Value, str, Runtime, to_number, is_truthy, is_text, includes_value,
}
use aiagent_portable_authori.Payload.{Payload}
use aiagent_portable_authori.Delegation.Chain.{verified}
use aiagent_portable_authori.Revocation.{RevocationOutcome, skipped, active, revoked, unavailable}
use aiagent_portable_authori.Credential.{
  list_from_claim, validate_audience, ProofClaims, ProofTarget, same_id, is_fresh, check_possession,
  verify_proof_of_possession, Claims, JwtError, TrustedIssuer, Receiver, proof_target, normalized,
  proof_step, bound, subject_step, after_introspection, introspects, revocation_step, audience_step,
  issuer_step, signature_step, verify_plain_jwt,
}

-- An audience claim is accepted exactly if it names nobody, or names one of this evaluator's
-- identities, of which it must have some.
pub validate_audience_iff :
    (claim : Value) (expected : List String)
    → (validate_audience claim expected ≡ true) ↔ (
        (is_empty (list_from_claim claim) ≡ true)
        ⊎ ((is_empty expected ≡ false)
            × (any (includes_value expected) (list_from_claim claim) ≡ true)))
unfolding validate_audience
validate_audience_iff claim expected = ground arith

is_text-eq : (v : Value) (s : String) → is_text s v ≡ true → v ≡ str s
is_text-eq (str t) s h = rw ((eq_iff t s).0 h) refl
is_text-eq _ s h = cc

-- Where a proof of possession is not skipped and the credential has a confirmation key, it passes
-- only with a proof that names the credential, the presenter and the very request, has a time of
-- issue, and is not older than allowed.
pub verify_proof_of_possession_sound :
    (rt : Runtime) (required : Bool) (t : ProofTarget) (proof : Option ProofClaims)
    → verify_proof_of_possession rt false true required t proof ≡ true
    → (p : ProofClaims) × (proof ≡ some p)
      × (same_id p.credential_id t.credential_id ≡ true)
      × (p.presenter_id ≡ str t.presenter_id)
      × (p.request_hash ≡ str t.request_hash)
      × (is_truthy p.iat ≡ true)
      × (ltb_num (add_num (fin t.max_age_seconds) (to_number rt p.iat)) (fin t.now_seconds) ≡ false)
unfolding verify_proof_of_possession check_possession is_fresh
verify_proof_of_possession_sound rt required t none h = cc
verify_proof_of_possession_sound rt required t (some p) h =
    let (id, (presenter, (hash, (time, age)))) : (same_id p.credential_id t.credential_id ≡ true)
        × ((is_text t.presenter_id p.presenter_id ≡ true)
            × ((is_text t.request_hash p.request_hash ≡ true)
                × ((is_truthy p.iat ≡ true)
                    × (ltb_num (add_num (fin t.max_age_seconds) (to_number rt p.iat))
                          (fin t.now_seconds)
                        ≡ false)))) =
      ground arith in
    (
      p,
      refl,
      id,
      is_text-eq p.presenter_id t.presenter_id presenter,
      is_text-eq p.request_hash t.request_hash hash,
      time,
      age,
    )

module _ (r : Receiver) (credential : String) (presenter : Option String) (skip_proof : Bool)
    (claims : Claims) where
  -- An outcome that lets a credential pass: not revoked, and available unless failures stay open.
  abbrev pub Acceptable : String → RevocationOutcome → Type 0
  Acceptable failure_mode revoked = ⊥
  Acceptable failure_mode unavailable = str_eq failure_mode "closed" ≡ false
  Acceptable failure_mode active = Unit
  Acceptable failure_mode skipped = Unit

  -- Presenter and proof of possession.
  abbrev pub Possessed : Type 0
  Possessed =
      (bound r credential presenter skip_proof claims presenter ≡ true)
      × (verify_proof_of_possession r.runtime skip_proof claims.has_confirmation_key r.require_proof
            (proof_target r credential presenter skip_proof claims) r.proof
          ≡ true)

  -- Introspection is not made, or its outcome lets the credential pass.
  abbrev pub PassesRevocation : TrustedIssuer → Type 0
  PassesRevocation issuer =
      (introspects r credential presenter skip_proof claims issuer ≡ false)
      ⊎ Acceptable issuer.revocation_config.failure_mode
          (r.introspect (r.introspection_url claims.iss) issuer.revocation_config claims.jti)

  subject_step_sound :
      (p : Payload)
      → subject_step r credential presenter skip_proof claims ≡ verified p
      → (p ≡ normalized r credential presenter skip_proof claims) × Possessed
  unfolding subject_step proof_step
  subject_step_sound p h = ground arith

  after_introspection_sound :
      (mode : String) (o : RevocationOutcome) (p : Payload)
      → after_introspection r credential presenter skip_proof claims mode o ≡ verified p
      → Acceptable mode o × (subject_step r credential presenter skip_proof claims ≡ verified p)
  unfolding after_introspection
  after_introspection_sound mode revoked p h = cc
  after_introspection_sound mode unavailable p h = ground arith
  after_introspection_sound mode active p h = (tt, h)
  after_introspection_sound mode skipped p h = (tt, h)

  revocation_step_sound :
      (issuer : TrustedIssuer) (p : Payload)
      → revocation_step r credential presenter skip_proof claims issuer ≡ verified p
      → PassesRevocation issuer
        × (subject_step r credential presenter skip_proof claims ≡ verified p)
  unfolding revocation_step
  revocation_step_sound issuer p h =
      elim (Bool-cases (introspects r credential presenter skip_proof claims issuer)) [
        | inl e ↦
            let (ok, rest) =
              after_introspection_sound issuer.revocation_config.failure_mode
                (r.introspect (r.introspection_url claims.iss) issuer.revocation_config claims.jti)
                p (rw e at h) in
            (inr ok, rest)
        | inr e ↦ (inl e, rw e at h)
      ]

  issuer_step_sound :
      (o : Option TrustedIssuer) (p : Payload)
      → issuer_step r credential presenter skip_proof claims o ≡ verified p
      → (issuer : TrustedIssuer) × (o ≡ some issuer)
        × (every (includes issuer.trusted_for_permissions) claims.permissions ≡ true)
        × (validate_audience claims.aud r.audiences ≡ true)
        × (revocation_step r credential presenter skip_proof claims issuer ≡ verified p)
  unfolding issuer_step audience_step
  issuer_step_sound none p h = cc
  issuer_step_sound (some issuer) p h =
      let (trusted, (audience, rest)) : (every (includes issuer.trusted_for_permissions)
              claims.permissions
            ≡ true)
          × ((validate_audience claims.aud r.audiences ≡ true)
              × (revocation_step r credential presenter skip_proof claims issuer ≡ verified p)) =
        ground arith in
      (issuer, refl, trusted, audience, rest)

  signature_step_sound :
      (o : Option JwtError) (p : Payload)
      → signature_step r credential presenter skip_proof claims o ≡ verified p
      → (o ≡ none)
        × (issuer_step r credential presenter skip_proof claims (r.trusted_issuer claims.iss)
            ≡ verified p)
  unfolding signature_step
  signature_step_sound (some error) p h = cc
  signature_step_sound none p h = (refl, h)

  -- A plain JWT verifies only if its signature and times do, its issuer is trusted for every
  -- permission that it grants, its audience lets this evaluator in, it is not known to be revoked
  -- (nor unknown, where failures are closed), the presenter is its subject, if one is to be bound,
  -- and possession of its key is proved where that is asked for; the payload is its own claims.
  pub verify_plain_jwt_sound :
      (p : Payload)
      → verify_plain_jwt r credential presenter skip_proof claims ≡ verified p
      → (p ≡ normalized r credential presenter skip_proof claims)
        × (r.jwt_error credential ≡ none)
        × Possessed
        × ((issuer : TrustedIssuer) × (r.trusted_issuer claims.iss ≡ some issuer)
            × (every (includes issuer.trusted_for_permissions) claims.permissions ≡ true)
            × (validate_audience claims.aud r.audiences ≡ true)
            × PassesRevocation issuer)
  unfolding verify_plain_jwt
  verify_plain_jwt_sound p h =
      let (signed, at_issuer) = signature_step_sound (r.jwt_error credential) p h in
      let (issuer, known, trusted, audience, at_revocation) =
        issuer_step_sound (r.trusted_issuer claims.iss) p at_issuer in
      let (fine, at_subject) = revocation_step_sound issuer p at_revocation in
      let (same, possessed) = subject_step_sound p at_subject in
      (same, signed, possessed, (issuer, known, trusted, audience, fine))
