-- ===== src/A2a/Manifest/Laws.antt =====
-- Laws of the verification of a governance manifest in extensions/a2a/sdk/src/index.js.
use aiagent_portable_authori.Base.{
  In-filter, In, String, true, ◌≡◌, refl, ◌∙◌, Option, none, some, List, [], ◌∷◌, arith, Bool-cases,
  Option-cases, inl, inr, eq_iff, includes, filter,
}
use aiagent_portable_authori.Value.{Value, Fields, str, member, elements, fields_of}
use aiagent_portable_authori.A2a.Manifest.{
  split, Outside, Reply, Verification, verified, failed, unavailable, webcrypto_jws_algs, may_use,
  try_keys, some_keys, alg_step, header_step, parts_step, verify_compact_jws_with_jwks,
  governance_manifest_signing_payload, compare_payload, jwks_step, reply_step, jws_of,
  verify_governance_manifest,
}

module _ (o : Outside) where
  -- A signature of a compact JWS by a key of a set, with an algorithm that is supported.
  pub record Signed (jwks : Value) (payload : String) : Type 0 where
    pub header : String
    pub body : String
    pub signature : String
    pub alg : String
    pub key : Value
    pub within : In key (elements (fields_of (member "keys" jwks)))
    pub supported : includes webcrypto_jws_algs alg ≡ true
    pub checks : o.verifies alg key header body signature ≡ true
    pub text : o.text_of_part body ≡ some payload

  try_keys-Signed :
      (jwks : Value) (alg header body signature payload : String) (keys : List Value)
      → ((key : Value) → In key keys → In key (elements (fields_of (member "keys" jwks))))
      → includes webcrypto_jws_algs alg ≡ true
      → try_keys o alg header body signature keys ≡ verified payload
      → Signed jwks payload
  unfolding try_keys
  try_keys-Signed jwks alg header body signature payload [] sub known h = absurd (ground arith)
  try_keys-Signed jwks alg header body signature payload (key ∷ keys) sub known h =
      elim (Bool-cases (o.verifies alg key header body signature)) [
        | inr e ↦
            try_keys-Signed jwks alg header body signature payload keys (λ k m. sub k (inr m)) known
              (ground arith)
        | inl e ↦ elim (Option-cases (o.text_of_part body)) [
          | inl t ↦
              try_keys-Signed jwks alg header body signature payload keys (λ k m. sub k (inr m))
                known (ground arith)
          | inr (text, t) ↦ record {
            header = header;
            body = body;
            signature = signature;
            alg = alg;
            key = key;
            within = sub key (inl refl);
            supported = known;
            checks = e;
            text = ground arith;
          }
        ]
      ]

  alg_step-Signed :
      (alg : Value) (header body signature payload : String) (parsed jwks : Value)
      → alg_step o alg header body signature parsed jwks ≡ verified payload
      → Signed jwks payload
  unfolding alg_step some_keys
  alg_step-Signed (str alg) header body signature payload parsed jwks h =
      elim (Bool-cases (includes webcrypto_jws_algs alg)) [
        | inr e ↦ absurd (ground arith)
        | inl e ↦
            try_keys-Signed jwks alg header body signature payload
              (filter (may_use o parsed) (elements (fields_of (member "keys" jwks))))
              (λ k m. In-filter (may_use o parsed) k (elements (fields_of (member "keys" jwks))) m)
              e (ground arith)
      ]
  alg_step-Signed _ header body signature payload parsed jwks h = absurd (ground arith)

  header_step-Signed :
      (p : Option Value) (header body signature payload : String) (jwks : Value)
      → header_step o p header body signature jwks ≡ verified payload
      → Signed jwks payload
  unfolding header_step
  header_step-Signed none header body signature payload jwks h = absurd (ground arith)
  header_step-Signed (some parsed) header body signature payload jwks h =
      alg_step-Signed (member "alg" parsed) header body signature payload parsed jwks (ground arith)

  parts_step-Signed :
      (parts : List String) (payload : String) (jwks : Value)
      → parts_step o parts jwks ≡ verified payload
      → Signed jwks payload
  unfolding parts_step
  parts_step-Signed (header ∷ body ∷ signature ∷ []) payload jwks h =
      header_step-Signed (o.parse_part header) header body signature payload jwks h
  parts_step-Signed [] payload jwks h = absurd (ground arith)
  parts_step-Signed (_ ∷ []) payload jwks h = absurd (ground arith)
  parts_step-Signed (_ ∷ _ ∷ []) payload jwks h = absurd (ground arith)
  parts_step-Signed (_ ∷ _ ∷ _ ∷ _ ∷ _) payload jwks h = absurd (ground arith)

  -- A key of the set that was fetched from the signer's URL has signed the manifest.
  pub record Authentic (manifest : Fields) (url payload : String) : Type 0 where
    pub jwks : Value
    pub reply : o.fetch url ≡ some (record { ok = true; body = some jwks })
    pub signed : Signed jwks payload
    pub same : payload ≡ governance_manifest_signing_payload o manifest

  compare_sound :
      (manifest : Fields) (v : Verification) (payload : String)
      → compare_payload o manifest v ≡ verified payload
      → (v ≡ verified payload) × (payload ≡ governance_manifest_signing_payload o manifest)
  unfolding compare_payload
  compare_sound manifest (verified p) payload h =
      ground (arith, eq_iff p (governance_manifest_signing_payload o manifest))
  compare_sound manifest failed payload h = absurd (ground arith)
  compare_sound manifest unavailable payload h = absurd (ground arith)

  reply_step-Authentic :
      (manifest : Fields) (url jws payload : String) (r : Option Reply)
      → o.fetch url ≡ r
      → reply_step o manifest jws r ≡ verified payload
      → Authentic manifest url payload
  unfolding reply_step jwks_step verify_compact_jws_with_jwks
  reply_step-Authentic manifest url jws payload none e h = absurd (ground arith)
  reply_step-Authentic manifest url jws payload (some r) e h = elim (Option-cases r.body) [
    | inl b ↦ absurd (ground arith)
    | inr (jwks, b) ↦
        let step : compare_payload o manifest (parts_step o (split b'.' jws) jwks)
            ≡ verified payload =
          ground arith in
        let (signed, same) =
          compare_sound manifest (parts_step o (split b'.' jws) jwks) payload step in
        record {
          jwks = jwks;
          reply = e ∙ ground arith;
          signed = parts_step-Signed (split b'.' jws) payload jwks signed;
          same = same;
        }
  ]

  -- A manifest is verified only if WebCrypto is there, a set of keys came from the signer's URL, one
  -- of these keys has signed with a supported algorithm, and what is signed is the canonical text of
  -- the manifest without its proof.
  pub verify_governance_manifest_sound :
      (manifest : Fields) (url payload : String)
      → verify_governance_manifest o manifest url ≡ verified payload
      → (o.has_webcrypto ≡ true) × Authentic manifest url payload
  unfolding verify_governance_manifest
  verify_governance_manifest_sound manifest url payload h = (
    ground arith,
    reply_step-Authentic manifest url (jws_of o manifest) payload (o.fetch url) refl (ground arith),
  )
