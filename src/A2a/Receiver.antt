-- ===== src/A2a/Receiver.antt =====
-- extensions/a2a/receiver-middleware/src/index.js: `handleSendMessage` up to the store. Here are
-- the checks that a message passes before anything is stored, and the request that is made of it
-- for the engine; Receiver/Verdict and Receiver/Handler go on.
pub mod Verdict
pub mod Handler
pub mod Checks
pub mod Laws
pub mod Replay
pub mod History
use aiagent_portable_authori.Base.{
  ℕ, String, Bool, true, false, not, ◌&&◌, ◌||◌, Option, none, some, List, [], ◌∷◌, ◌++◌,
  if◌then◌else◌, is_empty, any, str_eq,
}
use aiagent_portable_authori.Base.Text.{codes, starts_with}
use aiagent_portable_authori.Value.{
  array, Value, Fields, nil, field, null, str, arr, obj, get, member, fields_of, elements,
  is_truthy, is_filled, is_object, is_blank, is_text, or_value, or_default, if_truthy,
  includes_value,
}
use aiagent_portable_authori.A2a.{extension_uri, a2a_media_type}
use aiagent_portable_authori.A2a.Header.{Headers, get_header, extension_header_includes}
use aiagent_portable_authori.A2a.Metadata.{PortAuth, extract_port_auth_metadata}
use aiagent_portable_authori.A2a.Message.{Violation, validate_a2a_send_message_request}
use aiagent_portable_authori.A2a.Status.{build_google_rpc_status}
use aiagent_portable_authori.A2a.TaskStore.{Response}

-- A request to the engine, and what comes back.
pub record EngineCall : Type 0 where
  pub endpoint : String
  pub body : Value

pub record EngineResult : Type 0 where
  pub ok : Bool
  pub status : ℕ
  pub body : Value

-- `requireProofOfPossession`: a value, or a function of the request, none where it throws.
pub data Policy : Type 0 where
  fixed : Bool → Policy
  asked : (Value → PortAuth → Value → Option Bool) → Policy

-- The options of `createPortAuthReceiver` other than its store, and what it calls: a mapper that
-- throws gives none, and so does a request to the engine that fails without a response.
pub record Config : Type 0 where
  pub required : Bool
  pub accepted_profiles : List String
  pub map_request_context : Value → Value → PortAuth → Option Value
  pub require_proof_of_possession : Policy
  pub post : EngineCall → Option EngineResult
  -- the text under which a store keeps a key
  pub key_text : Value → String
  -- `JSON.stringify` of the violations
  pub violations_text : List Violation → String

-- What is drawn from `randomUUID` for a request, and the time.
pub record Fresh : Type 0 where
  pub request_id : String
  pub task_id : String
  pub record_id : String
  pub context_id : String
  pub message_id : String
  pub final_message_id : String
  pub now : String

abbrev pub response_headers : List (String × String)
response_headers =
    ("Content-Type", a2a_media_type)
    ∷ ("A2A-Version", "1.0")
    ∷ ("A2A-Extensions", extension_uri)
    ∷ []

unfoldable pub a2a_error : ℕ → String → Fields → Response
unfolding build_google_rpc_status
a2a_error status reason metadata = record {
  status = status;
  headers = response_headers;
  body = build_google_rpc_status status reason null null metadata;
}

-- A valid request context is none; the texts of the messages are left out, and numbers of this
-- model are finite.
unfoldable pub validate_request_context : Value → Bool
unfolding is_truthy get
validate_request_context ctx =
    is_truthy ctx
    && is_object ctx
    && is_filled (member "action" ctx)
    && is_filled (member "resource" ctx)

-- A predicate that throws requires the proof.
abbrev pub or_required : Option Bool → Bool
or_required none = true
or_required (some b) = b

unfoldable pub is_proof_of_possession_required : Policy → Value → PortAuth → Value → Bool
is_proof_of_possession_required (fixed b) ctx portauth message = b
is_proof_of_possession_required (asked policy) ctx portauth message =
    or_required (policy ctx portauth message)

-- `portauth.idempotencyKey || message.messageId`
unfoldable pub resolve_receiver_idempotency_key : PortAuth → Value → Value
unfolding is_truthy get
resolve_receiver_idempotency_key portauth message =
    or_value portauth.idempotency_key (member "messageId" message)

unfoldable pub build_engine_request : PortAuth → Value → Value → Value
unfolding is_truthy get array
build_engine_request portauth ctx key =
    let rest = field "presenterId" portauth.presenter_id (
      field "requestContext" ctx (
        if_truthy "proofOfPossession" portauth.proof_of_possession (
          if_truthy "idempotencyKey"
            (or_value portauth.idempotency_key (or_value key (member "idempotencyKey" ctx)))
            nil))) in
    if is_empty portauth.delegation_chain
    then obj (field "credential" portauth.credential rest)
    else obj (
        field "credentials" (arr (array (portauth.delegation_chain ++ (portauth.credential ∷ []))))
          rest)

unfoldable pub engine_call : PortAuth → Value → Value → EngineCall
unfolding build_engine_request
engine_call portauth ctx key = record {
  endpoint = if is_empty portauth.delegation_chain then "/evaluate" else "/evaluate/batch";
  body = build_engine_request portauth ctx key;
}

-- A message that passes the checks.
pub record Admitted : Type 0 where
  pub message : Value
  pub portauth : PortAuth
  pub context : Value

-- The checks throw, reject with a response and a reason, or admit.
pub data Admission : Type 0 where
  thrown : Admission
  refused : Response → String → Admission
  admitted : Admitted → Admission

abbrev pub refuse : ℕ → String → Fields → Admission
refuse status reason metadata = refused (a2a_error status reason metadata) reason

abbrev pub uri_metadata : Fields
uri_metadata = field "extensionUri" (str extension_uri) nil

-- `Object.keys(message.metadata || {}).some((key) => key.startsWith(EXTENSION_URI + "/"))`
unfoldable pub has_key_under : Fields → Bool
unfolding starts_with
has_key_under nil = false
has_key_under (field key _ fs) =
    starts_with (codes key)
      (codes "https://kyndryl-open-source.github.io/aiagent-portable-authorization/a2a/v1/")
    || has_key_under fs

unfoldable pub carries_metadata : Value → Bool
unfolding has_key_under get
carries_metadata message = has_key_under (fields_of (member "metadata" message))

-- `!Array.isArray(extensions) || extensions.includes(EXTENSION_URI)`
abbrev pub lists_extension : Value → Bool
lists_extension (arr fs) = any (is_text extension_uri) (elements fs)
lists_extension _ = true

module _ (c : Config) where
  unfoldable pub possession_step : Value → PortAuth → Value → Admission
  unfolding is_proof_of_possession_required is_truthy get
  possession_step message portauth ctx =
      if is_proof_of_possession_required c.require_proof_of_possession ctx portauth message
        && not (is_truthy portauth.proof_of_possession)
      then refuse 401 "PORTAUTH_POP_REQUIRED" (field "action" (member "action" ctx) nil)
      else admitted (record { message = message; portauth = portauth; context = ctx })

  unfoldable pub mapped_step : Value → PortAuth → Option Value → Admission
  unfolding validate_request_context possession_step
  mapped_step message portauth none = refuse 400 "PORTAUTH_REQUEST_CONTEXT_INVALID" nil
  mapped_step message portauth (some ctx) =
      if validate_request_context ctx
      then possession_step message portauth ctx
      else refuse 400 "PORTAUTH_REQUEST_CONTEXT_INVALID" nil

  unfoldable pub extracted_step : Value → Value → Option PortAuth → Admission
  unfolding mapped_step includes_value
  extracted_step body message none = refuse 400 "PORTAUTH_METADATA_INVALID" uri_metadata
  extracted_step body message (some portauth) =
      if includes_value c.accepted_profiles portauth.vc_format
      then mapped_step message portauth (c.map_request_context message body portauth)
      else refuse 400 "PORTAUTH_UNSUPPORTED_VC_FORMAT" (field "vcFormat" portauth.vc_format nil)

  unfoldable pub activation_step : Bool → Value → Value → Admission
  unfolding extracted_step extract_port_auth_metadata carries_metadata get
  activation_step activated body message =
      if c.required && not activated
      then refuse 412 "PORTAUTH_EXTENSION_REQUIRED" uri_metadata
      else if not activated && not (carries_metadata message)
      then refuse 400 "PORTAUTH_EXTENSION_NOT_ACTIVATED" uri_metadata
      else if lists_extension (member "extensions" message)
      then extracted_step body message (extract_port_auth_metadata message)
      else refuse 400 "PORTAUTH_MESSAGE_EXTENSION_MISSING" uri_metadata

  unfoldable pub validated_step : Headers → Value → Option (List Violation) → Admission
  unfolding activation_step extension_header_includes get_header get
  validated_step headers body none = thrown
  validated_step headers body (some []) =
      activation_step
        (extension_header_includes (get_header headers "a2a-extensions" "a2a-extensions")
          extension_uri)
        body (member "message" body)
  validated_step headers body (some violations) =
      refuse 400 "PORTAUTH_A2A_INVALID_MESSAGE"
        (field "violations" (str (c.violations_text violations)) nil)

  unfoldable pub admit : Headers → Value → Admission
  unfolding validated_step validate_a2a_send_message_request
  admit headers body = validated_step headers body (validate_a2a_send_message_request body)

-- `getHeader(headers, "x-request-id") || randomUUID()`
unfoldable pub request_id_of : Headers → Fresh → String
unfolding get_header
request_id_of headers f = or_default (get_header headers "x-request-id" "x-request-id") f.request_id
