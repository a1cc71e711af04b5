-- ===== src/A2a/Preflight/Run.antt =====
-- extensions/a2a/sdk/src/index.js: `preflight`, with the extension and the interface of an Agent
-- Card; and `preflightCheck` of sdks/preflight/src/index.js. What throws gives none.
pub mod Laws
use aiagent_portable_authori.Base.{
  ℕ, ◌+◌, ◌-◌, String, Bool, true, false, not, ◌&&◌, ◌||◌, Option, none, some, List, [], ◌∷◌,
  if◌then◌else◌, str_eq, leb,
}
use aiagent_portable_authori.Value.{
  Value, Fields, null, obj, get, member, fields_of, elements, is_truthy, is_nullish, is_text,
  is_blank,
}
use aiagent_portable_authori.A2a.{extension_uri}
use aiagent_portable_authori.A2a.Header.{same_name}
use aiagent_portable_authori.A2a.Manifest.{
  Outside, Verification, verified, failed, unavailable, verify_governance_manifest,
}
use aiagent_portable_authori.A2a.Preflight.{
  or_value, str, Severity, error, warning, Incompatibility, Compatibility, run_compatibility_rules,
}

-- `list.find(test) || null`; an element without properties throws before a later one is found.
abbrev pub find_value : (Value → Bool) → List Value → Option Value
find_value test [] = some null
find_value test (v ∷ vs) =
    let rest = find_value test vs in if is_nullish v then none else if test v then some v else rest

-- `getPortAuthExtension`
unfoldable pub get_port_auth_extension : Value → String → Option Value
unfolding get
get_port_auth_extension card uri =
    find_value (λ e. is_text uri (member "uri" e))
      (elements (fields_of (member "extensions" (member "capabilities" card))))

-- `String(v).toUpperCase() === "HTTP+JSON"` of a text.
abbrev is_http_json : Value → Bool
unfolding same_name
is_http_json (str s) = same_name s "HTTP+JSON"
is_http_json _ = false

-- `selectHttpJsonInterface`
unfoldable pub select_http_json_interface : Value → Option Value
unfolding get same_name
select_http_json_interface card =
    find_value (λ e. is_http_json (member "protocolBinding" e))
      (elements (fields_of (member "supportedInterfaces" card)))

-- What `preflight` is given, and what it fetches (none: it throws).
pub record Options : Type 0 where
  pub agent_card : Value
  pub fetched_card : Option Value
  pub manifest : Option Fields
  pub fetched_manifest : String → Option Fields
  pub signing_key_url : String
  pub verify_manifest : Bool

pub record Result : Type 0 where
  pub compatible : Bool
  pub manifest_verified : Bool
  pub incompatibilities : List Incompatibility

abbrev pub incompatible : String → Option Result
incompatible rule = some (record {
  compatible = false;
  manifest_verified = false;
  incompatibilities = record { rule = rule; severity = error } ∷ [];
})

abbrev pub concluded : Bool → Option Compatibility → Option Result
concluded checked none = none
concluded checked (some c) = some (record {
  compatible = c.compatible;
  manifest_verified = checked;
  incompatibilities = c.incompatibilities;
})

-- A text of an address, empty where there is none.
abbrev pub text_of : Value → String
text_of (str s) = s
text_of _ = ""

-- `intendedAction.requestContext || intendedAction`
abbrev pub context_of : Value → Value
context_of action = or_value (member "requestContext" action) action

module _ (o : Outside) (options : Options) (vc : String) (action : Value) where
  abbrev pub rules_step : Bool → Fields → Option Result
  rules_step checked m = concluded checked (run_compatibility_rules o m vc (context_of action))

  unfoldable pub signature_step : Fields → Verification → Option Result
  unfolding run_compatibility_rules
  signature_step m (verified _) = rules_step true m
  signature_step m failed = incompatible "manifestSignature"
  signature_step m unavailable = none

  unfoldable pub manifest_step : Option Fields → Option Result
  unfolding signature_step verify_governance_manifest
  manifest_step none = none
  manifest_step (some m) =
      if options.verify_manifest
      then signature_step m (verify_governance_manifest o m options.signing_key_url)
      else rules_step false m

  abbrev pub manifest_or_fetch : Option Fields → String → Option Fields
  manifest_or_fetch (some m) url = some m
  manifest_or_fetch none url = options.fetched_manifest url

  abbrev pub is_given : Option Fields → Bool
  is_given none = false
  is_given (some _) = true

  unfoldable pub extension_step : Value → Option Result
  unfolding manifest_step is_truthy get
  extension_step extension =
      let url = text_of (member "governanceManifestUrl" (member "params" extension)) in
      if not (is_truthy extension)
      then incompatible "a2aExtension"
      else if is_truthy (member "required" extension) && is_blank vc
      then incompatible "credentialRequired"
      else if is_blank url && not (is_given options.manifest)
      then incompatible "governanceManifest"
      else manifest_step (manifest_or_fetch options.manifest url)

  abbrev pub found_step : Option Value → Option Result
  found_step none = none
  found_step (some extension) = extension_step extension

  abbrev pub card_step : Option Value → Option Result
  card_step none = none
  card_step (some card) = found_step (get_port_auth_extension card extension_uri)

  unfoldable pub preflight : Option Result
  unfolding extension_step get_port_auth_extension is_truthy
  preflight =
      card_step
        (if is_truthy options.agent_card then some options.agent_card else options.fetched_card)

-- `verifyManifest` of the other SDK: a manifest with a signature, a set of keys that was fetched, and
-- a signature that one of these verifies (`jose.compactVerify`).
pub record Signer : Type 0 where
  pub has_jws : Bool
  pub keys_fetched : Bool
  pub signature_valid : Bool

unfoldable pub verify_manifest : Signer → Bool
verify_manifest s = s.has_jws && s.keys_fetched && s.signature_valid

unfoldable pub preflight_check :
    Outside → Option Fields → Signer → Bool → String → String → Value → Option Result
unfolding verify_manifest run_compatibility_rules
preflight_check o none signer verify signing_key_url vc ctx = none
preflight_check o (some m) signer verify signing_key_url vc ctx =
    if verify && not (is_blank signing_key_url) && not (verify_manifest signer)
    then incompatible "manifestSignature"
    else concluded false (run_compatibility_rules o m vc ctx)
