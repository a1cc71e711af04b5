-- ===== src/A2a/Manifest.antt =====
-- extensions/a2a/sdk/src/index.js: `verifyGovernanceManifest` with `verifyCompactJwsWithJwks` and
-- `canonicalJson`. Base64url, JSON, WebCrypto and the network are arguments.
pub mod Laws
use Prim.Native.Nat.{Ordering}
use Prim.Native.String.{compare, ◌++◌ as text_append}
use aiagent_portable_authori.Base.{
  ℕ, String, Bool, true, false, not, ◌&&◌, Option, none, some, List, [], ◌∷◌, if◌then◌else◌, filter,
  includes, is_empty, str_eq,
}
use aiagent_portable_authori.Base.Text.{split}
use aiagent_portable_authori.Value.{
  Value, Fields, undefined, null, bool, num, str, arr, obj, nil, field, get, member, fields_of,
  elements, is_truthy, is_text, is_blank,
}

-- `WEBCRYPTO_JWS_ALGS`
abbrev pub webcrypto_jws_algs : List String
webcrypto_jws_algs =
    "ES256" ∷ "ES384" ∷ "ES512" ∷ "RS256" ∷ "RS384" ∷ "RS512" ∷ "PS256" ∷ "PS384" ∷ "PS512"
    ∷ "EdDSA" ∷ []

-- A response that came in: none where its body is not JSON.
pub record Reply : Type 0 where
  pub ok : Bool
  pub body : Option Value

-- What is outside: `fetch` (none: it throws), whether there is WebCrypto, the JSON of a part of a
-- JWS, whether a key verifies a signature (false also where it throws), a part as text (none: it is
-- not UTF-8), `JSON.stringify` of a value that is no object, and the equality of two values.
pub record Outside : Type 0 where
  pub fetch : String → Option Reply
  pub has_webcrypto : Bool
  pub parse_part : String → Option Value
  pub verifies : String → Value → String → String → String → Bool
  pub text_of_part : String → Option String
  pub stringify : Value → String
  pub same : Value → Value → Bool

-- Verified, with the payload; attempted and failed; or not possible, which throws.
pub data Verification : Type 0 where
  verified : String → Verification
  failed unavailable : Verification

module _ (o : Outside) where
  -- A key of the set may be used if the header or the key names none, or both name the same.
  abbrev pub may_use : Value → Value → Bool
  may_use header key =
      if is_truthy (member "kid" header) && is_truthy (member "kid" key)
      then o.same (member "kid" key) (member "kid" header)
      else true

  abbrev try_text : Option String → Verification → Verification
  try_text (some payload) rest = verified payload
  try_text none rest = rest

  -- The loop over the keys: one that verifies, and whose payload is text, is the answer.
  unfoldable pub try_keys : String → String → String → String → List Value → Verification
  try_keys alg header payload signature [] = failed
  try_keys alg header payload signature (key ∷ keys) =
      let rest = try_keys alg header payload signature keys in
      if o.verifies alg key header payload signature
      then try_text (o.text_of_part payload) rest
      else rest

  unfoldable pub some_keys : String → String → String → String → List Value → Verification
  unfolding try_keys
  some_keys alg header payload signature keys =
      if is_empty keys then failed else try_keys alg header payload signature keys

  -- The algorithm is looked up as it stands: only a text is found.
  unfoldable pub alg_step : Value → String → String → String → Value → Value → Verification
  unfolding some_keys is_truthy get
  alg_step (str alg) header payload signature parsed jwks =
      if includes webcrypto_jws_algs alg
      then some_keys alg header payload signature
          (filter (may_use parsed) (elements (fields_of (member "keys" jwks))))
      else unavailable
  alg_step _ header payload signature parsed jwks = unavailable

  abbrev is_false : Value → Bool
  is_false (bool b) = not b
  is_false _ = false

  unfoldable pub header_step : Option Value → String → String → String → Value → Verification
  unfolding alg_step
  header_step none header payload signature jwks = failed
  header_step (some parsed) header payload signature jwks =
      if is_false (member "b64" parsed)
      then unavailable
      else alg_step (member "alg" parsed) header payload signature parsed jwks

  unfoldable pub parts_step : List String → Value → Verification
  unfolding header_step
  parts_step (header ∷ payload ∷ signature ∷ []) jwks =
      header_step (o.parse_part header) header payload signature jwks
  parts_step _ jwks = failed

  unfoldable pub verify_compact_jws_with_jwks : String → Value → Verification
  unfolding parts_step split
  verify_compact_jws_with_jwks jws jwks = parts_step (split b'.' jws) jwks

  -- A property in front of those whose names come later.
  unfoldable pub insert_sorted : String × String → List (String × String) → List (String × String)
  insert_sorted p [] = p ∷ []
  insert_sorted p (q ∷ qs) =
      let rest = insert_sorted p qs in
      elim (compare p.0 q.0) [ Ordering.gt ↦ q ∷ rest | _ ↦ p ∷ q ∷ qs ]

  abbrev property_text : String × String → String
  property_text p = text_append (o.stringify (str p.0)) (text_append ":" p.1)

  unfoldable pub join_from : List (String × String) → String
  join_from [] = "}"
  join_from (p ∷ ps) = text_append "," (text_append (property_text p) (join_from ps))

  unfoldable pub object_text : List (String × String) → String
  unfolding join_from
  object_text [] = "{}"
  object_text (p ∷ ps) = text_append "{" (text_append (property_text p) (join_from ps))

  abbrev or_null_text : Option String → String
  or_null_text none = "null"
  or_null_text (some s) = s

  unfoldable pub with_property :
      String → Option String → List (String × String) → List (String × String)
  unfolding insert_sorted
  with_property key none ps = ps
  with_property key (some s) ps = insert_sorted (key, s) ps

  unfoldable mutual
    unfolding object_text with_property

    -- None is undefined.
    pub canonical_json : Value → Option String
    canonical_json undefined = none
    canonical_json null = some "null"
    canonical_json (arr nil) = some "[]"
    canonical_json (arr (field _ v fs)) =
        some
          (text_append "[" (text_append (or_null_text (canonical_json v)) (canonical_elements fs)))
    canonical_json (obj fs) = some (object_text (canonical_properties fs))
    canonical_json v = some (o.stringify v)

    pub canonical_elements : Fields → String
    canonical_elements nil = "]"
    canonical_elements (field _ v fs) =
        text_append "," (text_append (or_null_text (canonical_json v)) (canonical_elements fs))

    pub canonical_properties : Fields → List (String × String)
    canonical_properties nil = []
    canonical_properties (field key v fs) =
        with_property key (canonical_json v) (canonical_properties fs)

  -- `stripProof`
  unfoldable pub strip_proof : Fields → Fields
  strip_proof nil = nil
  strip_proof (field key v fs) =
      if str_eq key "proof" then strip_proof fs else field key v (strip_proof fs)

  unfoldable pub governance_manifest_signing_payload : Fields → String
  unfolding canonical_json strip_proof
  governance_manifest_signing_payload manifest =
      object_text (canonical_properties (strip_proof manifest))

  unfoldable pub compare_payload : Fields → Verification → Verification
  unfolding governance_manifest_signing_payload
  compare_payload manifest (verified payload) =
      if str_eq payload (governance_manifest_signing_payload manifest)
      then verified payload
      else failed
  compare_payload manifest v = v

  -- `jwks?.keys?.length`, of an array.
  abbrev has_keys : Value → Bool
  has_keys jwks = not (is_empty (elements (fields_of (member "keys" jwks))))

  unfoldable pub jwks_step : Fields → String → Option Value → Verification
  unfolding compare_payload verify_compact_jws_with_jwks get
  jwks_step manifest jws none = unavailable
  jwks_step manifest jws (some jwks) =
      if has_keys jwks
      then compare_payload manifest (verify_compact_jws_with_jwks jws jwks)
      else failed

  unfoldable pub reply_step : Fields → String → Option Reply → Verification
  unfolding jwks_step
  reply_step manifest jws none = unavailable
  reply_step manifest jws (some r) = if r.ok then jwks_step manifest jws r.body else failed

  -- `manifest?.proof?.jws`, a text.
  unfoldable pub jws_of : Fields → String
  unfolding get
  jws_of manifest = elim (member "jws" (get "proof" manifest)) [ str s ↦ s | _ ↦ "" ]

  -- A URL that is missing is the empty text.
  unfoldable pub verify_governance_manifest : Fields → String → Verification
  unfolding reply_step jws_of
  verify_governance_manifest manifest signing_key_url =
      if is_blank signing_key_url
      then unavailable
      else if not o.has_webcrypto
      then unavailable
      else if is_blank (jws_of manifest)
      then failed
      else reply_step manifest (jws_of manifest) (o.fetch signing_key_url)
