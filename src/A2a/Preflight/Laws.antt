-- ===== src/A2a/Preflight/Laws.antt =====
-- Laws of the compatibility rules of extensions/a2a/sdk/src/index.js and of
-- sdks/preflight/src/index.js.
use aiagent_portable_authori.Base.{
  String, Bool, true, not, ◌&&◌, ◌≡◌, refl, ◌↔◌, ◌∙◌, List, [], ◌∷◌, ◌++◌, arith, is_empty, filter,
  every,
}
use aiagent_portable_authori.Value.{Value, str, member, includes_value}
use aiagent_portable_authori.A2a.Preflight.{
  Incompatibility, Manifest, Decoded, detect_profile, collect_constraint_types,
  collect_vocabulary_fields, check_profile, check_constraint_types, check_vocabulary, check_issuer,
  check_trust_anchors, check_required_context_fields, has_missing, vocabulary_of, supplies,
  incompatibilities_of, compatibility_of, is_error,
}

-- The four demands of a manifest on a credential and a request.
pub record Fits (m : Manifest) (d : Decoded) (ctx : Value) : Type 0 where
  pub profile :
      includes_value m.credential_profiles (str (detect_profile d.header d.payload)) ≡ true
  pub types : every (includes_value m.constraint_types) (collect_constraint_types d.payload) ≡ true
  pub vocabulary :
      every (includes_value (vocabulary_of m)) (collect_vocabulary_fields d.payload) ≡ true
  pub context : every (supplies ctx) m.required_context_fields ≡ true

-- No rule of the list is broken in earnest.
abbrev silent : List Incompatibility → Bool
silent is = is_empty (filter is_error is)

silent-append : (xs ys : List Incompatibility) → silent (xs ++ ys) ≡ (silent xs && silent ys)
silent-append [] ys = refl
silent-append (x ∷ xs) ys = ground (arith, silent-append xs ys)

has_missing-every :
    (known : List String) (values : List Value)
    → not (has_missing known values) ≡ every (includes_value known) values
has_missing-every known [] = refl
has_missing-every known (v ∷ vs) = ground (arith, has_missing-every known vs)

silent-check_profile :
    (profile : String) (m : Manifest)
    → silent (check_profile profile m) ≡ includes_value m.credential_profiles (str profile)
unfolding check_profile
silent-check_profile profile m = ground arith

silent-check_constraint_types :
    (types : List Value) (m : Manifest)
    → silent (check_constraint_types types m) ≡ every (includes_value m.constraint_types) types
unfolding check_constraint_types
silent-check_constraint_types types m = ground (arith, has_missing-every m.constraint_types types)

silent-check_vocabulary :
    (fields : List Value) (m : Manifest)
    → silent (check_vocabulary fields m) ≡ every (includes_value (vocabulary_of m)) fields
unfolding check_vocabulary
silent-check_vocabulary fields m = ground (arith, has_missing-every (vocabulary_of m) fields)

silent-check_issuer :
    (known : List String) (issuer : Value) → silent (check_issuer known issuer) ≡ true
silent-check_issuer known issuer = ground arith

silent-check_trust_anchors :
    (profile : String) (issuer : Value) (m : Manifest)
    → silent (check_trust_anchors profile issuer m) ≡ true
unfolding check_trust_anchors
silent-check_trust_anchors profile issuer m =
    ground (
      arith,
      silent-check_issuer m.tier1_issuers issuer,
      silent-check_issuer m.tier3_issuers issuer,
    )

silent-check_required_context_fields :
    (required : List String) (ctx : Value)
    → silent (check_required_context_fields required ctx) ≡ every (supplies ctx) required
unfolding check_required_context_fields
silent-check_required_context_fields required ctx = ground arith

silent-five :
    (a b c d e : List Incompatibility)
    → silent (a ++ (b ++ (c ++ (d ++ e))))
      ≡ (silent a && (silent b && (silent c && (silent d && silent e))))
silent-five a b c d e = rw (silent-append a (b ++ (c ++ (d ++ e)))) (
    rw (silent-append b (c ++ (d ++ e)))
      (rw (silent-append c (d ++ e)) (rw (silent-append d e) refl)))

five_and :
    {a b c d e a' b' c' d' e' : Bool}
    → a ≡ a'
    → b ≡ b'
    → c ≡ c'
    → d ≡ d'
    → e ≡ e'
    → (a && (b && (c && (d && e)))) ≡ (a' && (b' && (c' && (d' && e'))))
five_and p q r s t = rw p (rw q (rw r (rw s (rw t refl))))

silent-rules :
    (m : Manifest) (d : Decoded) (ctx : Value)
    → (compatibility_of (incompatibilities_of m d ctx)).compatible ≡ (
        includes_value m.credential_profiles (str (detect_profile d.header d.payload))
        && (every (includes_value m.constraint_types) (collect_constraint_types d.payload)
            && (every (includes_value (vocabulary_of m)) (collect_vocabulary_fields d.payload)
                && (true && every (supplies ctx) m.required_context_fields))))
unfolding compatibility_of incompatibilities_of
silent-rules m d ctx =
    let profile = detect_profile d.header d.payload in
    silent-five (check_profile profile m)
      (check_constraint_types (collect_constraint_types d.payload) m)
      (check_vocabulary (collect_vocabulary_fields d.payload) m)
      (check_trust_anchors profile (member "iss" d.payload) m)
      (check_required_context_fields m.required_context_fields ctx)
    ∙ five_and (silent-check_profile profile m)
        (silent-check_constraint_types (collect_constraint_types d.payload) m)
        (silent-check_vocabulary (collect_vocabulary_fields d.payload) m)
        (silent-check_trust_anchors profile (member "iss" d.payload) m)
        (silent-check_required_context_fields m.required_context_fields ctx)

-- The rules find a credential and a request compatible exactly if the manifest lists the profile,
-- all the types of the constraints and all their semantic fields, and the request has the fields
-- that are required; an issuer that is not registered does not count.
pub compatibility_iff :
    (m : Manifest) (d : Decoded) (ctx : Value)
    → ((compatibility_of (incompatibilities_of m d ctx)).compatible ≡ true) ↔ Fits m d ctx
compatibility_iff m d ctx =
    let whole = silent-rules m d ctx in
    (
      λ h. record {
        profile = ground arith;
        types = ground arith;
        vocabulary = ground arith;
        context = ground arith;
      },
      λ f. whole ∙ five_and {d = true} f.profile f.types f.vocabulary refl f.context,
    )
