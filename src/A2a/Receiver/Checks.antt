-- ===== src/A2a/Receiver/Checks.antt =====
-- Laws of the checks that come first in `handleSendMessage` of
-- extensions/a2a/receiver-middleware/src/index.js.
use aiagent_portable_authori.Base.{
  not, ◌&&◌, String, if_holds, ◌≢◌, sym, Bool, true, false, ◌≡◌, refl, ◌⊎◌, inl, inr, Option, none,
  some, List, [], ◌∷◌, arith, Bool-cases, ap,
}
use mathlib.Core.Path.{subst}
use aiagent_portable_authori.Value.{Value, member, is_truthy, includes_value}
use aiagent_portable_authori.A2a.{extension_uri}
use aiagent_portable_authori.A2a.Header.{Headers, get_header, extension_header_includes}
use aiagent_portable_authori.A2a.Metadata.{PortAuth, extract_port_auth_metadata}
use aiagent_portable_authori.A2a.Message.{Violation, validate_a2a_send_message_request}
use aiagent_portable_authori.A2a.Receiver.{
  null, Response, Config, Admitted, Admission, thrown, refused, admitted, admit, validated_step,
  activation_step, extracted_step, mapped_step, possession_step, validate_request_context,
  carries_metadata, lists_extension, is_proof_of_possession_required,
}

-- `extensionHeaderIncludes(getHeader(headers, "a2a-extensions"))`
abbrev pub activates : Headers → Bool
activates headers =
    extension_header_includes (get_header headers "a2a-extensions" "a2a-extensions") extension_uri

-- What a message that is admitted has passed.
pub record Passes (c : Config) (headers : Headers) (body : Value) (a : Admitted) : Type 0 where
  pub valid : validate_a2a_send_message_request body ≡ some []
  pub message : a.message ≡ member "message" body
  pub active :
      (activates headers ≡ true)
      ⊎ ((c.required ≡ false) × (carries_metadata (member "message" body) ≡ true))
  pub listed : lists_extension (member "extensions" (member "message" body)) ≡ true
  pub extracted : extract_port_auth_metadata (member "message" body) ≡ some a.portauth
  pub profile : includes_value c.accepted_profiles a.portauth.vc_format ≡ true
  pub mapped : c.map_request_context (member "message" body) body a.portauth ≡ some a.context
  pub context : validate_request_context a.context ≡ true
  pub possession :
      is_proof_of_possession_required c.require_proof_of_possession a.context a.portauth
          (member "message" body)
        ≡ true
      → is_truthy a.portauth.proof_of_possession ≡ true

module _ (c : Config) (headers : Headers) (body : Value) (a : Admitted) where
  -- The parts of the check, from the last to the first.
  possession_iff :
      (message : Value) (portauth : PortAuth) (ctx : Value)
      → possession_step c message portauth ctx ≡ admitted a
      → (a ≡ record { message = message; portauth = portauth; context = ctx })
        × (is_proof_of_possession_required c.require_proof_of_possession ctx portauth message ≡ true
            → is_truthy portauth.proof_of_possession ≡ true)
  unfolding possession_step
  possession_iff message portauth ctx h = (ground arith, λ r. ground arith)

  mapped_sound :
      (message : Value) (portauth : PortAuth) (o : Option Value)
      → mapped_step c message portauth o ≡ admitted a
      → (o ≡ some a.context)
        × (validate_request_context a.context ≡ true)
        × (a ≡ record { message = message; portauth = portauth; context = a.context })
        × (is_proof_of_possession_required c.require_proof_of_possession a.context portauth message
              ≡ true
            → is_truthy portauth.proof_of_possession ≡ true)
  unfolding mapped_step
  mapped_sound message portauth none h = absurd (ground arith)
  mapped_sound message portauth (some ctx) h = elim (Bool-cases (validate_request_context ctx)) [
    | inr e ↦ absurd (ground arith)
    | inl e ↦
        let (same, proof) = possession_iff message portauth ctx (ground arith) in
        let ctx_same : ctx ≡ a.context = ground arith in
        (
          ap some ctx_same,
          rw (← ctx_same) e,
          subst (λ x. a ≡ record { message = message; portauth = portauth; context = x }) ctx_same
              same,
          rw (← ctx_same) proof,
        )
  ]

  extracted_sound :
      (message : Value) (o : Option PortAuth)
      → extracted_step c body message o ≡ admitted a
      → (o ≡ some a.portauth)
        × (includes_value c.accepted_profiles a.portauth.vc_format ≡ true)
        × (mapped_step c message a.portauth (c.map_request_context message body a.portauth)
            ≡ admitted a)
  unfolding extracted_step
  extracted_sound message none h = absurd (ground arith)
  extracted_sound message (some p) h =
      elim (Bool-cases (includes_value c.accepted_profiles p.vc_format)) [
        | inr e ↦ absurd (ground arith)
        | inl e ↦
            let step : mapped_step c message p (c.map_request_context message body p) ≡ admitted a =
              ground arith in
            let same : p ≡ a.portauth =
              ap (λ x. x.portauth)
                (sym (mapped_sound message p (c.map_request_context message body p) step).2) in
            (
              ap some same,
              rw (← same) e,
              subst
                  (λ x. mapped_step c message x (c.map_request_context message body x) ≡ admitted a)
                  same step,
            )
      ]

  activation_sound :
      (activated : Bool) (message : Value)
      → activation_step c activated body message ≡ admitted a
      → ((activated ≡ true) ⊎ ((c.required ≡ false) × (carries_metadata message ≡ true)))
        × (lists_extension (member "extensions" message) ≡ true)
        × (extracted_step c body message (extract_port_auth_metadata message) ≡ admitted a)
  unfolding activation_step
  activation_sound true message h = (inl refl, ground arith, ground arith)
  activation_sound false message h = (inr (ground arith), ground arith, ground arith)

  validated_sound :
      (o : Option (List Violation))
      → validated_step c headers body o ≡ admitted a
      → (o ≡ some [])
        × (activation_step c (activates headers) body (member "message" body) ≡ admitted a)
  unfolding validated_step
  validated_sound none h = absurd (ground arith)
  validated_sound (some []) h = (refl, h)
  validated_sound (some (x ∷ xs)) h = absurd (ground arith)

  -- A message that is admitted has passed every check.
  pub admit-Passes : admit c headers body ≡ admitted a → Passes c headers body a
  unfolding admit
  admit-Passes h =
      let (valid, step) = validated_sound (validate_a2a_send_message_request body) h in
      let (active, listed, step) =
        activation_sound (activates headers) (member "message" body) step in
      let (extracted, profile, step) =
        extracted_sound (member "message" body) (extract_port_auth_metadata (member "message" body))
          step in
      let (mapped, context, same, possession) =
        mapped_sound (member "message" body) a.portauth
          (c.map_request_context (member "message" body) body a.portauth) step in
      record {
        valid = valid;
        message = ap (λ x. x.message) same;
        active = active;
        listed = listed;
        extracted = extracted;
        profile = profile;
        mapped = mapped;
        context = context;
        possession = possession;
      }

  -- A message that passes every check is admitted.
  pub admit_complete : Passes c headers body a → admit c headers body ≡ admitted a
  unfolding admit validated_step activation_step extracted_step mapped_step possession_step
  admit_complete p = rw p.valid (
      rw p.listed (
        ground
          (arith, p.active, p.extracted, p.profile, p.mapped, p.context, p.possession, p.message)))

module _ (c : Config) where
  abbrev Returns : Admission → Type 0
  Returns d = d ≢ thrown

  refused-Returns : (answer : Response) (reason : String) → Returns (refused answer reason)
  refused-Returns answer reason e = cc

  mapped-Returns :
      (message : Value) (portauth : PortAuth) (o : Option Value)
      → Returns (mapped_step c message portauth o)
  unfolding mapped_step possession_step
  mapped-Returns message portauth none = refused-Returns _ _
  mapped-Returns message portauth (some ctx) =
      if_holds Returns (validate_request_context ctx)
        (λ _.
          if_holds Returns
            (is_proof_of_possession_required c.require_proof_of_possession ctx portauth message
              && not (is_truthy portauth.proof_of_possession))
            (λ _. refused-Returns _ _) (λ _ e. cc))
        (λ _. refused-Returns _ _)

  extracted-Returns :
      (body message : Value) (o : Option PortAuth) → Returns (extracted_step c body message o)
  unfolding extracted_step
  extracted-Returns body message none = refused-Returns _ _
  extracted-Returns body message (some portauth) =
      if_holds Returns (includes_value c.accepted_profiles portauth.vc_format)
        (λ _. mapped-Returns message portauth (c.map_request_context message body portauth))
        (λ _. refused-Returns _ _)

  activation-Returns :
      (activated : Bool) (body message : Value) → Returns (activation_step c activated body message)
  unfolding activation_step
  activation-Returns activated body message =
      if_holds Returns (c.required && not activated) (λ _. refused-Returns _ _)
        (λ _.
          if_holds Returns (not activated && not (carries_metadata message))
            (λ _. refused-Returns _ _)
            (λ _.
              if_holds Returns (lists_extension (member "extensions" message))
                (λ _. extracted-Returns body message (extract_port_auth_metadata message))
                (λ _. refused-Returns _ _)))

  validated-Returns :
      (headers : Headers) (body : Value) (o : Option (List Violation))
      → o ≢ none
      → Returns (validated_step c headers body o)
  unfolding validated_step
  validated-Returns headers body none h = absurd (h refl)
  validated-Returns headers body (some []) h =
      activation-Returns (activates headers) body (member "message" body)
  validated-Returns headers body (some (x ∷ xs)) h = refused-Returns _ _

  validate-ne-none : (body : Value) → body ≢ null → validate_a2a_send_message_request body ≢ none
  unfolding validate_a2a_send_message_request
  validate-ne-none null h e = h refl
  validate-ne-none _ h e = cc

  -- The checks throw only for a body that is null.
  pub admit-ne-thrown :
      (headers : Headers) (body : Value) → body ≢ null → admit c headers body ≢ thrown
  unfolding admit
  admit-ne-thrown headers body h =
      validated-Returns headers body (validate_a2a_send_message_request body)
        (validate-ne-none body h)
