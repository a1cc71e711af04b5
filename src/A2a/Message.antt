-- ===== src/A2a/Message.antt =====
-- extensions/a2a/sdk/src/index.js: the message of a request (`validateA2aSendMessageRequest`,
-- `buildA2aSendMessageRequest`). A call that throws gives none.
pub mod Laws
use aiagent_portable_authori.Base.{
  ℕ, suc, String, Bool, true, false, not, ◌&&◌, ◌||◌, Option, none, some, List, [], ◌∷◌, ◌++◌,
  if◌then◌else◌, is_empty, filter, length, ◌==◌,
}
use aiagent_portable_authori.Value.{
  Value, Fields, nil, field, undefined, null, str, arr, obj, get, member, elements, is_undefined,
  is_filled, is_truthy, is_object, is_text, if_truthy, or_value,
}
use aiagent_portable_authori.A2a.{extension_uri}

-- What is wrong with a request: a field of it, or the part of its message at an index.
pub data Violation : Type 0 where
  at_field : String → Violation
  at_part : ℕ → Violation

-- `["text", "raw", "url", "data"].filter((key) => part?.[key] !== undefined).length === 1`
abbrev has_member : Value → String → Bool
has_member part key = not (is_undefined (member key part))

unfoldable pub has_one_member : Value → Bool
unfolding get
has_one_member part = length (filter (has_member part) ("text" ∷ "raw" ∷ "url" ∷ "data" ∷ [])) == 1

unfoldable pub part_errors : ℕ → List Value → List Violation
unfolding has_one_member
part_errors index [] = []
part_errors index (part ∷ parts) =
    let rest = part_errors (suc index) parts in
    if has_one_member part then rest else at_part index ∷ rest

unfoldable pub parts_errors : Value → List Violation
unfolding part_errors
parts_errors (arr nil) = at_field "message.parts" ∷ []
parts_errors (arr parts) = part_errors 0 (elements parts)
parts_errors _ = at_field "message.parts" ∷ []

abbrev pub violation_unless : Bool → String → List Violation
violation_unless ok name = if ok then [] else at_field name ∷ []

unfoldable pub message_errors : Value → List Violation
unfolding parts_errors get is_truthy
message_errors message =
    if is_truthy message && is_object message
    then violation_unless (is_filled (member "messageId" message)) "message.messageId"
      ++ (violation_unless
            (is_text "ROLE_USER" (member "role" message)
              || is_text "ROLE_AGENT" (member "role" message))
            "message.role"
          ++ parts_errors (member "parts" message))
    else at_field "message" ∷ []

-- The errors; the request is valid if there are none. A body that is null throws.
unfoldable pub validate_a2a_send_message_request : Value → Option (List Violation)
unfolding message_errors get
validate_a2a_send_message_request null = none
validate_a2a_send_message_request body = some (message_errors (member "message" body))

-- The argument of `buildA2aSendMessageRequest`, with the defaults filled in: `payload` is its
-- `data`, `text` is a text or missing, `messageId` the one given or a fresh one.
pub record Draft : Type 0 where
  pub text : Option String
  pub payload : Value
  pub metadata : Value
  pub message_id : String
  pub context_id : Value
  pub task_id : Value
  pub role : Value
  pub extensions : Value
  pub configuration : Value

abbrev text_parts : Option String → List Value
text_parts none = []
text_parts (some s) = obj (field "text" (str s) nil) ∷ []

abbrev data_parts : Value → List Value
data_parts undefined = []
data_parts v = obj (field "data" v (field "mediaType" (str "application/json") nil)) ∷ []

-- An array of at most two elements.
abbrev pub array_of : List Value → Fields
array_of [] = nil
array_of (a ∷ []) = field "0" a nil
array_of (a ∷ b ∷ _) = field "0" a (field "1" b nil)

unfoldable pub message_of : Draft → Fields → Fields
unfolding is_truthy
message_of d parts = field "messageId" (str d.message_id) (
    field "role" d.role (
      field "parts" (arr parts) (
        field "extensions" d.extensions (
          field "metadata" (or_value d.metadata (obj nil))
            (if_truthy "contextId" d.context_id (if_truthy "taskId" d.task_id nil))))))

unfoldable pub build_a2a_send_message_request : Draft → Option Value
unfolding message_of
build_a2a_send_message_request d =
    let parts = text_parts d.text ++ data_parts d.payload in
    if is_empty parts
    then none
    else some (
        obj (
          field "message" (obj (message_of d (array_of parts)))
            (field "configuration" d.configuration nil)))
