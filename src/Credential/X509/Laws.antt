-- ===== src/Credential/X509/Laws.antt =====
-- Laws of `verifyX509Jwt` in portauth-engine/src/services/credentialVerifier.js.
use mathlib.Core.Path.{subst}
use aiagent_portable_authori.Base.{
  String, Bool, true, false, not, ◌↔◌, ◌≡◌, refl, sym, ◌⊎◌, inl, inr, Option, none, some, List, ◌∷◌,
  arith, every, includes, if◌then◌else◌, str_eq,
}
use aiagent_portable_authori.Codes.{
  ErrorCode, issuer_untrusted, audience_mismatch, proof_of_possession_failed,
  subject_binding_mismatch,
}
use aiagent_portable_authori.Value.{Value, member, items, is_array, includes_value}
use aiagent_portable_authori.Payload.{Payload}
use aiagent_portable_authori.Delegation.Chain.{Verification, verified, rejected}
use aiagent_portable_authori.Credential.{JwtError, validate_audience}
use aiagent_portable_authori.Credential.VcJose.Laws.{includes-texts}
use aiagent_portable_authori.Credential.Certificates.{
  Certificate, ChainCheck, chain_pass, chain_fail, parse_entries, certificate_fingerprint_sha256,
  verify_x509_chain_from_header,
}
use aiagent_portable_authori.Credential.Certificates.Identity.{
  X509Issuer, IdentityCheck, validate_certificate_identity,
}
use aiagent_portable_authori.Credential.Certificates.Laws.{IsTrustedChain, verify_x509_chain_sound}
use aiagent_portable_authori.Credential.X509.{
  RevokedRow, query_failed, not_listed, listed, X509Receiver, policy_of, check_x509_revocation,
  row_error, anchor_options, verified_permissions, verified_constraints, x509_normalized,
  x509_possession, x509_proof_step, x509_bound, x509_subject_step, x509_revocation_step,
  x509_trust_step, x509_signed_step, x509_identity_step, x509_chain_step, x509_issuer_step,
  verify_x509_jwt,
}

-- A certificate passes the revocation check exactly if the check is skipped, or it is not listed, or
-- the query failed and the policy in force is not to fail hard.
pub check_x509_revocation_iff :
    (r : X509Receiver) (fingerprint : String) (issuer : X509Issuer)
    → (check_x509_revocation r fingerprint issuer ≡ none) ↔ (
        (r.skip_revocation ≡ true)
        ⊎ ((r.revoked_certificate fingerprint ≡ not_listed)
            ⊎ ((r.revoked_certificate fingerprint ≡ query_failed)
                × (str_eq (policy_of r issuer) "hard-fail" ≡ false))))
unfolding check_x509_revocation
check_x509_revocation_iff r fingerprint issuer =
    row_lem r.skip_revocation issuer (r.revoked_certificate fingerprint)
  where
    row_lem :
        (skip : Bool) (issuer : X509Issuer) (row : RevokedRow)
        → ((if skip then none else row_error r issuer row) ≡ none) ↔ (
            (skip ≡ true)
            ⊎ ((row ≡ not_listed)
                ⊎ ((row ≡ query_failed) × (str_eq (policy_of r issuer) "hard-fail" ≡ false))))
    row_lem true issuer row = (λ h. inl refl, λ h. refl)
    row_lem false issuer listed = ground arith
    row_lem false issuer not_listed = ground arith
    row_lem false issuer query_failed = ground arith

-- Three guards in front of a step: the first throws.
trust_guards :
    (a b c : Bool) (rest : Option Verification) (p : Payload)
    → (if not a
        then none
        else if not b
        then some (rejected issuer_untrusted)
        else if not c
        then some (rejected audience_mismatch)
        else rest)
      ≡ some (verified p)
    → (a ≡ true) × (b ≡ true) × (c ≡ true) × (rest ≡ some (verified p))
trust_guards a b c rest p h = ground arith

subject_guards :
    (bound possessed array : Bool) (q p : Payload)
    → (if bound
        then (if not possessed
            then some (rejected proof_of_possession_failed)
            else if array
            then some (verified q)
            else none)
        else some (rejected subject_binding_mismatch))
      ≡ some (verified p)
    → (p ≡ q) × ((bound ≡ true) × (possessed ≡ true) × (array ≡ true))
subject_guards bound possessed array q p h = ground arith

module _ (r : X509Receiver) (presenter : Option String) (skip_proof : Bool)
    (permissions constraints payload : Value) where
  -- The claims are arrays, the presenter is the subject, and possession is proved where it must be.
  abbrev pub X509Bound : Type 0
  X509Bound =
      (x509_bound r presenter skip_proof permissions constraints payload presenter ≡ true)
      × (x509_possession r presenter skip_proof permissions constraints payload ≡ true)
      × (is_array (verified_constraints r presenter skip_proof permissions constraints payload)
          ≡ true)

  subject_sound :
      (p : Payload)
      → x509_subject_step r presenter skip_proof permissions constraints payload ≡ some (verified p)
      → (p ≡ x509_normalized r presenter skip_proof permissions constraints payload) × X509Bound
  unfolding x509_subject_step x509_proof_step
  subject_sound p h =
      subject_guards (x509_bound r presenter skip_proof permissions constraints payload presenter)
        (x509_possession r presenter skip_proof permissions constraints payload)
        (is_array (verified_constraints r presenter skip_proof permissions constraints payload))
        (x509_normalized r presenter skip_proof permissions constraints payload) p h

  revocation_sound :
      (o : Option ErrorCode) (p : Payload)
      → x509_revocation_step r presenter skip_proof permissions constraints payload o
        ≡ some (verified p)
      → (o ≡ none)
        × (x509_subject_step r presenter skip_proof permissions constraints payload
            ≡ some (verified p))
  unfolding x509_revocation_step
  revocation_sound none p h = (refl, h)
  revocation_sound (some code) p h = cc

  trust_sound :
      (issuer : X509Issuer) (leaf : Certificate) (p : Payload)
      → x509_trust_step r presenter skip_proof permissions constraints payload issuer leaf
        ≡ some (verified p)
      → (every
            (includes_value issuer.trusted_for_permissions)
            (items (verified_permissions r presenter skip_proof permissions constraints payload))
          ≡ true)
        × (validate_audience (member "aud" payload) r.audiences ≡ true)
        × (check_x509_revocation r (certificate_fingerprint_sha256 r.platform leaf) issuer ≡ none)
        × ((p ≡ x509_normalized r presenter skip_proof permissions constraints payload) × X509Bound)
  unfolding x509_trust_step
  trust_sound issuer leaf p h =
      let error = check_x509_revocation r (certificate_fingerprint_sha256 r.platform leaf) issuer in
      let (array, trusted, audience, at_revocation) =
        trust_guards
          (is_array (verified_permissions r presenter skip_proof permissions constraints payload))
          (every (includes_value issuer.trusted_for_permissions)
            (items (verified_permissions r presenter skip_proof permissions constraints payload)))
          (validate_audience (member "aud" payload) r.audiences)
          (x509_revocation_step r presenter skip_proof permissions constraints payload error) p h in
      let (fine, at_subject) = revocation_sound error p at_revocation in
      (trusted, audience, fine, subject_sound p at_subject)

module _ (r : X509Receiver) (credential : String) (presenter : Option String) (skip_proof : Bool)
    (permissions constraints : Value) (iss : String) where
  signed_sound :
      (issuer : X509Issuer) (leaf : Certificate) (o : JwtError ⊎ Value) (p : Payload)
      → x509_signed_step r credential presenter skip_proof permissions constraints iss issuer leaf o
        ≡ some (verified p)
      → (payload : Value) × (o ≡ inr payload)
        × (x509_trust_step r presenter skip_proof permissions constraints payload issuer leaf
            ≡ some (verified p))
  unfolding x509_signed_step
  signed_sound issuer leaf (inl error) p h = cc
  signed_sound issuer leaf (inr payload) p h = (payload, refl, h)

  identity_sound :
      (issuer : X509Issuer) (leaf : Certificate) (o : Option (Option IdentityCheck)) (p : Payload)
      → x509_identity_step r credential presenter skip_proof permissions constraints iss issuer leaf
          o
        ≡ some (verified p)
      → (check : IdentityCheck) × (o ≡ some (some check))
        × (x509_signed_step r credential presenter skip_proof permissions constraints iss issuer
              leaf
              (r.jwt_verify credential leaf.public_key iss)
            ≡ some (verified p))
  unfolding x509_identity_step
  identity_sound issuer leaf none p h = cc
  identity_sound issuer leaf (some none) p h = cc
  identity_sound issuer leaf (some (some check)) p h = (check, refl, h)

  chain_sound :
      (issuer : X509Issuer) (o : ChainCheck) (p : Payload)
      → x509_chain_step r credential presenter skip_proof permissions constraints iss issuer o
        ≡ some (verified p)
      → (leaf : Certificate) × ((f : String) × (o ≡ chain_pass leaf f)
          × (x509_identity_step r credential presenter skip_proof permissions constraints iss issuer
                leaf
                (validate_certificate_identity r.platform leaf iss issuer)
              ≡ some (verified p)))
  unfolding x509_chain_step
  chain_sound issuer (chain_fail code) p h = cc
  chain_sound issuer (chain_pass leaf f) p h = (leaf, (f, refl, h))

  issuer_sound :
      (header : Value) (o : Option X509Issuer) (p : Payload)
      → x509_issuer_step r credential presenter skip_proof permissions constraints iss header o
        ≡ some (verified p)
      → (issuer : X509Issuer) × (o ≡ some issuer)
        × (x509_chain_step r credential presenter skip_proof permissions constraints iss issuer
              (verify_x509_chain_from_header r.platform header (anchor_options r issuer))
            ≡ some (verified p))
  unfolding x509_issuer_step
  issuer_sound header none p h = cc
  issuer_sound header (some issuer) p h = (issuer, refl, h)

  -- An X.509-backed JWT verifies only if its issuer is known at tier 2 and trusted for every permission
  -- that the result grants, the chain in its header is a trusted one for the issuer's anchors, the
  -- leaf is bound to the issuer and passes the revocation check, the payload is signed with the
  -- leaf's key, the audience lets this evaluator in, the presenter is the subject if one is to be
  -- bound, possession is proved where that is asked for, and the result is the payload in normalized
  -- form.
  pub verify_x509_jwt_sound :
      (header : Value) (p : Payload)
      → verify_x509_jwt r credential presenter skip_proof permissions constraints iss header
        ≡ some (verified p)
      → (issuer : X509Issuer) × ((leaf : Certificate) × ((payload : Value) × (r.x509_issuer iss
              ≡ some issuer)
            × ((rest : List Certificate) × (parse_entries r.platform (items (member "x5c" header))
                  ≡ inr (leaf ∷ rest))
                × IsTrustedChain r.platform (anchor_options r issuer) leaf rest)
            × ((check : IdentityCheck) × (validate_certificate_identity r.platform leaf iss issuer
                  ≡ some (some check)))
            × (r.jwt_verify credential leaf.public_key iss ≡ inr payload)
            × (every (includes issuer.trusted_for_permissions) p.permissions ≡ true)
            × (validate_audience (member "aud" payload) r.audiences ≡ true)
            × (check_x509_revocation r (certificate_fingerprint_sha256 r.platform leaf) issuer
                ≡ none)
            × X509Bound r presenter skip_proof permissions constraints payload
            × (p ≡ x509_normalized r presenter skip_proof permissions constraints payload)))
  unfolding verify_x509_jwt
  verify_x509_jwt_sound header p h =
      let (issuer, known, at_chain) = issuer_sound header (r.x509_issuer iss) p h in
      let (leaf, (f, chain, at_identity)) =
        chain_sound issuer
          (verify_x509_chain_from_header r.platform header (anchor_options r issuer)) p at_chain in
      let (check, identity, at_signature) =
        identity_sound issuer leaf (validate_certificate_identity r.platform leaf iss issuer) p
          at_identity in
      let (payload, signed, at_trust) =
        signed_sound issuer leaf (r.jwt_verify credential leaf.public_key iss) p at_signature in
      let (trusted, audience, fine, (same, bound)) =
        trust_sound r presenter skip_proof permissions constraints payload issuer leaf p at_trust in
      let granted : every (includes issuer.trusted_for_permissions) p.permissions ≡ true =
        subst (λ q. every (includes issuer.trusted_for_permissions) q.permissions ≡ true) (sym same)
          (includes-texts issuer.trusted_for_permissions
            (items (verified_permissions r presenter skip_proof permissions constraints payload))
            trusted) in
      (
        issuer,
        (
          leaf,
          (
            payload,
            known,
            verify_x509_chain_sound r.platform header (anchor_options r issuer) leaf f chain,
            (check, identity),
            signed,
            granted,
            audience,
            fine,
            bound,
            same,
          ),
        ),
      )
