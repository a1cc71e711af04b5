-- ===== src/A2a/Message/Laws.antt =====
-- Laws of the messages of extensions/a2a/sdk/src/index.js: what the SDK builds, the receiver reads.
use aiagent_portable_authori.Base.{
  ◌++◌, ◌||◌, Bool-cases, is_empty, String, true, false, ◌≡◌, refl, inl, inr, Option, none, some,
  [], arith,
}
use aiagent_portable_authori.Value.{
  Value, Fields, undefined, arr, obj, get, member, is_text, is_blank,
}
use aiagent_portable_authori.A2a.Metadata.{
  Parts, build_port_auth_metadata, extract_port_auth_metadata, metadata_in,
}
use aiagent_portable_authori.A2a.Metadata.Laws.{meant, HasChain, extract-build}
use aiagent_portable_authori.A2a.Message.{
  Draft, build_a2a_send_message_request, validate_a2a_send_message_request, message_errors,
  part_errors, parts_errors, has_one_member, array_of, text_parts, data_parts,
}

-- A role that the protocol knows.
abbrev pub HasRole : Draft → Type 0
HasRole d = (is_text "ROLE_USER" d.role || is_text "ROLE_AGENT" d.role) ≡ true

-- The metadata of a message that is built are those of its draft.
metadata_in-build :
    (d : Draft) (metadata : Fields) (body : Value)
    → build_a2a_send_message_request (record d { metadata = obj metadata }) ≡ some body
    → metadata_in (member "message" body) ≡ metadata
unfolding build_a2a_send_message_request get
metadata_in-build d metadata body h = ground arith

parts_errors-array_of :
    (text : Option String) (payload : Value)
    → is_empty (text_parts text ++ data_parts payload) ≡ false
    → parts_errors (arr (array_of (text_parts text ++ data_parts payload))) ≡ []
unfolding parts_errors part_errors has_one_member get
parts_errors-array_of none undefined h = cc
parts_errors-array_of (some s) undefined h = refl
parts_errors-array_of none _ h = refl
parts_errors-array_of (some s) _ h = refl

-- A request that the SDK builds passes the check of the receiver.
pub validate-build :
    (d : Draft) (body : Value)
    → build_a2a_send_message_request d ≡ some body
    → is_blank d.message_id ≡ false
    → HasRole d
    → validate_a2a_send_message_request body ≡ some []
unfolding validate_a2a_send_message_request build_a2a_send_message_request get message_errors
validate-build d body h k r =
    elim (Bool-cases (is_empty (text_parts d.text ++ data_parts d.payload))) [
      | inl e ↦ ground arith
      | inr e ↦ ground (arith, parts_errors-array_of d.text d.payload e)
    ]

-- Where the delegation chain is left out or is one that the receiver takes, the metadata that the SDK
-- puts in a request, the receiver reads back from its message.
pub extract-build-message :
    (p : Parts) (metadata : Fields) (d : Draft) (body : Value)
    → build_port_auth_metadata p ≡ some metadata
    → HasChain p
    → build_a2a_send_message_request (record d { metadata = obj metadata }) ≡ some body
    → extract_port_auth_metadata (member "message" body) ≡ some (meant p)
extract-build-message p metadata d body h k b =
    extract-build p metadata (member "message" body) h k (metadata_in-build d metadata body b)
