-- ===== src/A2a/Preflight/Run/Laws.antt =====
-- Laws of `preflight` of extensions/a2a/sdk/src/index.js and of `preflightCheck` of
-- sdks/preflight/src/index.js.
use aiagent_portable_authori.Base.{
  String, Bool, true, false, not, ◌&&◌, ◌≡◌, refl, Option, none, some, arith, Option-cases, inl,
  inr, if_holds, if◌then◌else◌,
}
use aiagent_portable_authori.Value.{Value, Fields, member, is_truthy, is_blank}
use aiagent_portable_authori.A2a.{extension_uri}
use aiagent_portable_authori.A2a.Manifest.{
  Outside, Verification, verified, failed, unavailable, verify_governance_manifest,
}
use aiagent_portable_authori.A2a.Manifest.Laws.{Authentic, verify_governance_manifest_sound}
use aiagent_portable_authori.A2a.Preflight.{Compatibility, run_compatibility_rules}
use aiagent_portable_authori.A2a.Preflight.Run.{
  manifest_or_fetch, is_given, text_of, Options, Result, Signer, incompatible, context_of,
  signature_step, manifest_step, extension_step, found_step, card_step, preflight, preflight_check,
  get_port_auth_extension,
}

module _ (o : Outside) (options : Options) (vc : String) (action : Value) where
  abbrev url_of : Value → String
  url_of extension = text_of (member "governanceManifestUrl" (member "params" extension))

  -- The agent card that was given, or else fetched.
  abbrev pub card_in_use : Option Value
  unfolding is_truthy
  card_in_use =
      if is_truthy options.agent_card then some options.agent_card else options.fetched_card

  -- What stands behind a preflight that finds a credential compatible.
  pub record Checked (r : Result) : Type 0 where
    pub card : Value
    pub card_used : card_in_use ≡ some card
    pub extension : Value
    pub advertised : get_port_auth_extension card extension_uri ≡ some extension
    pub manifest : Fields
    pub used :
        manifest_or_fetch o options vc action options.manifest (url_of extension) ≡ some manifest
    pub rules : Compatibility
    pub run : run_compatibility_rules o manifest vc (context_of action) ≡ some rules
    pub passed : rules.compatible ≡ true
    pub payload : String
    pub authentic : Authentic o manifest options.signing_key_url payload
    pub told : r.manifest_verified ≡ true

  abbrev Sound : Option Result → Type 0
  Sound x = (r : Result) → x ≡ some r → r.compatible ≡ true → Checked r

  incompatible-Sound : (rule : String) → Sound (incompatible rule)
  incompatible-Sound rule r e h = absurd (ground arith)

  none-Sound : Sound none
  none-Sound r e h = absurd (ground arith)

  module _ (card : Value) (c : card_in_use ≡ some card) (extension : Value)
      (a : get_port_auth_extension card extension_uri ≡ some extension) where
    signature_step-Sound :
        (m : Fields) (v : Verification)
        → manifest_or_fetch o options vc action options.manifest (url_of extension) ≡ some m
        → verify_governance_manifest o m options.signing_key_url ≡ v
        → Sound (signature_step o options vc action m v)
    unfolding signature_step
    signature_step-Sound m failed u k r e h = incompatible-Sound "manifestSignature" r e h
    signature_step-Sound m unavailable u k r e h = none-Sound r e h
    signature_step-Sound m (verified payload) u k r e h =
        elim (Option-cases (run_compatibility_rules o m vc (context_of action))) [
          | inl n ↦ absurd (ground arith)
          | inr (rules, n) ↦ record {
            card = card;
            card_used = c;
            extension = extension;
            advertised = a;
            manifest = m;
            used = u;
            rules = rules;
            run = n;
            passed = ground arith;
            payload = payload;
            authentic = (verify_governance_manifest_sound o m options.signing_key_url payload k).1;
            told = ground arith;
          }
        ]

    module _ (strict : options.verify_manifest ≡ true) where
      manifest_step-Sound :
          (m : Option Fields)
          → manifest_or_fetch o options vc action options.manifest (url_of extension) ≡ m
          → Sound (manifest_step o options vc action m)
      unfolding manifest_step
      manifest_step-Sound none u = none-Sound
      manifest_step-Sound (some m) u =
          if_holds Sound options.verify_manifest
            (λ _.
              signature_step-Sound m (verify_governance_manifest o m options.signing_key_url) u
                refl)
            (λ e. absurd (ground arith))

      extension_step-Sound : Sound (extension_step o options vc action extension)
      unfolding extension_step
      extension_step-Sound =
          if_holds Sound (not (is_truthy extension)) (λ _. incompatible-Sound "a2aExtension")
            (λ _.
              if_holds Sound (is_truthy (member "required" extension) && is_blank vc)
                (λ _. incompatible-Sound "credentialRequired")
                (λ _.
                  if_holds Sound
                    (is_blank (url_of extension)
                      && not (is_given o options vc action options.manifest))
                    (λ _. incompatible-Sound "governanceManifest")
                    (λ _.
                      manifest_step-Sound
                        (manifest_or_fetch o options vc action options.manifest (url_of extension))
                        refl)))

  module _ (strict : options.verify_manifest ≡ true) where
    found_step-Sound :
        (card : Value)
        → card_in_use ≡ some card
        → (e : Option Value) → get_port_auth_extension card extension_uri ≡ e
        → Sound (found_step o options vc action e)
    found_step-Sound card c none a = none-Sound
    found_step-Sound card c (some extension) a = extension_step-Sound card c extension a strict

    card_step-Sound :
        (card : Option Value) → card_in_use ≡ card → Sound (card_step o options vc action card)
    card_step-Sound none c = none-Sound
    card_step-Sound (some card) c =
        found_step-Sound card c (get_port_auth_extension card extension_uri) refl

    -- With the verification of the manifest asked for, a preflight finds a credential compatible only
    -- if the manifest that was given, or else fetched from the URL in the extension of the agent card
    -- in use, was signed by a key from the signer's URL over its own canonical text, and the rules that
    -- are read from this very manifest find nothing against the credential; the result says that it
    -- was verified.
    pub preflight_fail_closed :
        (r : Result) → preflight o options vc action ≡ some r → r.compatible ≡ true → Checked r
    unfolding preflight
    preflight_fail_closed = card_step-Sound card_in_use refl

-- Without a URL of the signer's keys, the other SDK asks for no verification, whatever its argument
-- `verify` says.
pub preflight_check_unsigned :
    (o : Outside) (m : Option Fields) (signer signer' : Signer) (verify verify' : Bool)
    (vc : String) (ctx : Value)
    → preflight_check o m signer verify "" vc ctx ≡ preflight_check o m signer' verify' "" vc ctx
unfolding preflight_check
preflight_check_unsigned o none signer signer' verify verify' vc ctx = refl
preflight_check_unsigned o (some m) signer signer' true true vc ctx = refl
preflight_check_unsigned o (some m) signer signer' true false vc ctx = refl
preflight_check_unsigned o (some m) signer signer' false true vc ctx = refl
preflight_check_unsigned o (some m) signer signer' false false vc ctx = refl
