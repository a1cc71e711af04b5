-- ===== src/A2a/Preflight.antt =====
-- extensions/a2a/sdk/src/index.js: the compatibility rules and `preflight`. The same rules stand in
-- sdks/preflight/src/index.js, whose `preflightCheck` is here, too. The rules read a manifest through
-- manifest_of, where a list that is absent or no array is empty, and an entry that is no text is passed
-- over; the texts of the details are left out. What throws gives none.
pub mod Laws
pub mod Run
use aiagent_portable_authori.Base.{
  ℕ, String, Bool, true, false, not, ◌&&◌, ◌||◌, Option, none, some, List, [], ◌∷◌, ◌++◌,
  if◌then◌else◌, is_empty, filter, map, any, every, str_eq,
}
use aiagent_portable_authori.Base.Text.{codes, starts_with, split}
use aiagent_portable_authori.Value.{
  Value, Fields, nil, field, str, arr, obj, get, member, fields_of, elements, items, is_truthy,
  is_object, is_filled, is_undefined, is_nullish, is_text, is_blank, includes_value, or_value,
}
use aiagent_portable_authori.A2a.{extension_uri}
use aiagent_portable_authori.A2a.Manifest.{
  Outside, Verification, verified, failed, unavailable, verify_governance_manifest,
}

pub data Severity : Type 0 where
  error warning : Severity

pub record Incompatibility : Type 0 where
  pub rule : String
  pub severity : Severity

-- The parts of a manifest: the ids of its profiles, the lists under `recognizedFields`, the names of
-- the fields of each mapping profile, and the issuers trusted in the tiers 1 and 3.
pub record Manifest : Type 0 where
  pub credential_profiles : List String
  pub constraint_types : List String
  pub recognized_fields : List (List String)
  pub mapping_profiles : List (List String)
  pub tier1_issuers : List String
  pub tier3_issuers : List String
  pub required_context_fields : List String

abbrev texts : List Value → List String
texts [] = []
texts (str s ∷ vs) = s ∷ texts vs
texts (_ ∷ vs) = texts vs

abbrev texts_at : String → Value → List String
unfolding get
texts_at key v = texts (items (member key v))

-- `list.map((x) => x[key])`
abbrev members : String → List Value → List Value
members key vs = map (member key) vs

-- `Object.keys`
abbrev keys_of : Fields → List String
keys_of nil = []
keys_of (field k _ fs) = k ∷ keys_of fs

abbrev issuers_of : String → Value → List String
unfolding get
issuers_of tier anchors =
    texts (members "issuerId" (items (member "trustedIssuers" (member tier anchors))))

-- A manifest as the rules read it.
unfoldable pub manifest_of : Fields → Manifest
unfolding texts_at issuers_of get
manifest_of fs =
    let m = obj fs in
    let anchors = member "acceptedTrustAnchors" m in
    record {
      credential_profiles = texts (members "id" (items (member "credentialProfiles" m)));
      constraint_types = texts_at "constraintTypes" m;
      recognized_fields =
          map (λ v. texts (items v)) (elements (fields_of (member "recognizedFields" m)));
      mapping_profiles =
          map (λ p. keys_of (fields_of (member "fields" p))) (items (member "mappingProfiles" m));
      tier1_issuers = issuers_of "tier1" anchors;
      tier3_issuers = issuers_of "tier3" anchors;
      required_context_fields = texts_at "requiredContextFields" m;
    }

abbrev is_filled_array : Value → Bool
is_filled_array (arr fs) = not (is_empty (elements fs))
is_filled_array _ = false

abbrev is_did : Value → Bool
is_did (str s) = starts_with (codes s) (codes "did:")
is_did _ = false

unfoldable pub detect_profile : Value → Value → String
unfolding starts_with is_truthy get
detect_profile header payload =
    if is_filled_array (member "x5c" header)
    then "tier2-x509-jwt"
    else if is_did (member "iss" payload)
    then "tier3-vc-jose"
    else if is_truthy (member "vc" payload) && is_object (member "vc" payload)
    then "tier3-vc-jose"
    else "tier1-jwt"

-- `payload.constraints || payload.termsOfUse || []`, of arrays.
unfoldable pub constraints_of : Value → List Value
unfolding is_truthy get
constraints_of payload =
    elements (fields_of (or_value (member "constraints" payload) (member "termsOfUse" payload)))

abbrev types_in : List Value → List Value
types_in [] = []
types_in (c ∷ cs) = member "type" c ∷ types_in cs

-- The set of types; a rule does not see how often one stands in it.
unfoldable pub collect_constraint_types : Value → List Value
unfolding constraints_of is_truthy get
collect_constraint_types payload = filter is_truthy (types_in (constraints_of payload))

unfoldable pub is_semantic : Value → Bool
unfolding starts_with
is_semantic (str s) =
    any (λ p. starts_with (codes s) (codes p))
      ("core." ∷ "insurance." ∷ "aerospace." ∷ "supply_chain." ∷ [])
is_semantic _ = false

abbrev fields_in : List Value → List Value
fields_in [] = []
fields_in (c ∷ cs) = member "field" c ∷ fields_in cs

unfoldable pub collect_vocabulary_fields : Value → List Value
unfolding constraints_of is_semantic get
collect_vocabulary_fields payload = filter is_semantic (fields_in (constraints_of payload))

abbrev pub found : String → Severity → List Incompatibility
found rule severity = record { rule = rule; severity = severity } ∷ []

unfoldable pub check_profile : String → Manifest → List Incompatibility
unfolding includes_value
check_profile profile m =
    if includes_value m.credential_profiles (str profile) then [] else found "profileMatch" error

-- `values.filter((v) => !set.has(v)).length > 0`
abbrev pub has_missing : List String → List Value → Bool
has_missing known values = not (is_empty (filter (λ v. not (includes_value known v)) values))

unfoldable pub check_constraint_types : List Value → Manifest → List Incompatibility
unfolding includes_value
check_constraint_types types m =
    if has_missing m.constraint_types types then found "constraintTypes" error else []

abbrev pub concat : List (List String) → List String
concat [] = []
concat (xs ∷ xss) = xs ++ concat xss

-- All names that the manifest knows.
unfoldable pub vocabulary_of : Manifest → List String
vocabulary_of m = concat m.recognized_fields ++ concat m.mapping_profiles

unfoldable pub check_vocabulary : List Value → Manifest → List Incompatibility
unfolding vocabulary_of includes_value
check_vocabulary fields m =
    if has_missing (vocabulary_of m) fields then found "vocabulary" error else []

abbrev pub check_issuer : List String → Value → List Incompatibility
check_issuer known issuer =
    if not (is_empty known) && not (includes_value known issuer)
    then found "trustAnchors" warning
    else []

unfoldable pub check_trust_anchors : String → Value → Manifest → List Incompatibility
unfolding includes_value
check_trust_anchors profile issuer m =
    if str_eq profile "tier1-jwt"
    then check_issuer m.tier1_issuers issuer
    else if str_eq profile "tier3-vc-jose"
    then check_issuer m.tier3_issuers issuer
    else []

-- `f in supplied`
unfoldable pub has_key : String → Fields → Bool
has_key key nil = false
has_key key (field k _ fs) = str_eq k key || has_key key fs

abbrev pub supplies : Value → String → Bool
supplies supplied key = is_truthy supplied && has_key key (fields_of supplied)

unfoldable pub check_required_context_fields : List String → Value → List Incompatibility
unfolding has_key is_truthy
check_required_context_fields required supplied =
    if every (supplies supplied) required then [] else found "requiredContextFields" error

-- A credential that is decoded: its header and its payload.
pub record Decoded : Type 0 where
  pub header : Value
  pub payload : Value

abbrev decoded : Option Value → Option Value → Option Decoded
decoded (some h) (some p) =
    if is_nullish h || is_nullish p then none else some (record { header = h; payload = p })
decoded _ _ = none

abbrev decoded_parts : Outside → List String → Option Decoded
decoded_parts o (header ∷ payload ∷ _ ∷ []) = decoded (o.parse_part header) (o.parse_part payload)
decoded_parts o _ = none

unfoldable pub decode_credential : Outside → String → Option Decoded
unfolding split
decode_credential o credential = decoded_parts o (split b'.' credential)

pub record Compatibility : Type 0 where
  pub compatible : Bool
  pub incompatibilities : List Incompatibility

abbrev pub is_error : Incompatibility → Bool
is_error i = elim i.severity [ error ↦ true | warning ↦ false ]

-- The five rules, in order.
unfoldable pub incompatibilities_of : Manifest → Decoded → Value → List Incompatibility
unfolding check_profile check_constraint_types check_vocabulary check_trust_anchors
    check_required_context_fields detect_profile collect_constraint_types collect_vocabulary_fields
    get
incompatibilities_of m d ctx =
    let profile = detect_profile d.header d.payload in
    check_profile profile m
    ++ (check_constraint_types (collect_constraint_types d.payload) m
        ++ (check_vocabulary (collect_vocabulary_fields d.payload) m
            ++ (check_trust_anchors profile (member "iss" d.payload) m
                ++ check_required_context_fields m.required_context_fields ctx)))

unfoldable pub compatibility_of : List Incompatibility → Compatibility
compatibility_of is = record { compatible = is_empty (filter is_error is); incompatibilities = is }

abbrev pub ruled : Manifest → Value → Option Decoded → Option Compatibility
ruled m ctx none = none
ruled m ctx (some d) = some (compatibility_of (incompatibilities_of m d ctx))

unfoldable pub run_compatibility_rules : Outside → Fields → String → Value → Option Compatibility
unfolding incompatibilities_of compatibility_of decode_credential manifest_of
run_compatibility_rules o manifest credential ctx =
    ruled (manifest_of manifest) ctx (decode_credential o credential)
