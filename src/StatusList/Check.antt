-- ===== src/StatusList/Check.antt =====
-- portauth-engine/src/services/statusListChecker.js: `checkBitstringStatus`, `fetchStatusList` with
-- its cache, and `extractEncodedListFromPayload`. An exception gives none.
pub mod Laws
use aiagent_portable_authori.Base.{
  ℕ, String, Bool, true, false, not, ◌&&◌, ◌||◌, Option, none, some, List, [], ◌∷◌, if◌then◌else◌,
  ◌==◌, str_eq,
}
use aiagent_portable_authori.Base.Assoc.{lookup, insert}
use aiagent_portable_authori.Base.Int.{ℤ, pos, negsuc}
use aiagent_portable_authori.Base.Num.{Num, nan, fin}
use aiagent_portable_authori.Base.Text.{split}
use aiagent_portable_authori.Value.{
  Value, str, get, member, is_truthy, is_text, is_nullish, or_value, is_blank, text_in,
}
use aiagent_portable_authori.StatusList.{Bytes, decode_bit_at_index}

-- A response that came in: its text, and its body, none where it is not JSON.
pub record Fetched : Type 0 where
  pub ok : Bool
  pub is_vc_jwt : Bool
  pub text : String
  pub body : Option Value

-- What the checker calls: `parseInt` to base 10, `fetch` (none: it throws), the decoding of a part of
-- a JWT as JSON, and the unpacking of a list. The list of a payload is a text.
pub record StatusNet : Type 0 where
  pub parse_int : Value → Num
  pub fetch : Value → Option Fetched
  pub parse_part : String → Option Value
  pub unpack : String → Option Bytes
  pub key_text : Value → String

-- The rows of portauth_status_list_cache that have not expired.
abbrev pub Cache : Type 0
Cache = List (String × String)

abbrev encoded_in : Value → Value
encoded_in v = member "encodedList" v

-- `payload.credentialSubject?.encodedList`, then under `vc`, then at the top.
unfoldable pub extract_encoded_list_from_payload : Value → String
unfolding get is_truthy
extract_encoded_list_from_payload payload = text_in (
    or_value (encoded_in (member "credentialSubject" payload)) (
      or_value (encoded_in (member "credentialSubject" (member "vc" payload)))
        (encoded_in payload)))

-- A payload that is null has no properties to read.
abbrev list_of : Option Value → Option String
unfolding extract_encoded_list_from_payload
list_of none = none
list_of (some payload) =
    if is_nullish payload then none else some (extract_encoded_list_from_payload payload)

abbrev jwt_list : StatusNet → List String → Option String
unfolding list_of
jwt_list net (_ ∷ payload ∷ _ ∷ []) = list_of (net.parse_part payload)
jwt_list net _ = some ""

abbrev fetched_list : StatusNet → Fetched → Option String
unfolding list_of jwt_list split
fetched_list net r =
    if not r.ok
    then some ""
    else if r.is_vc_jwt
    then jwt_list net (split b'.' r.text)
    else list_of r.body

-- The cache, and the list: none where something throws, the empty text where there is no list.
abbrev keep : String → Option String → Cache → Cache × Option String
unfolding insert
keep url none cache = (cache, none)
keep url (some encoded) cache =
    if is_blank encoded then (cache, some "") else (insert url encoded cache, some encoded)

abbrev fetched_step : StatusNet → String → Option Fetched → Cache → Cache × Option String
unfolding keep fetched_list
fetched_step net url none cache = (cache, none)
fetched_step net url (some r) cache = keep url (fetched_list net r) cache

abbrev cached_step : StatusNet → Value → Option String → Cache → Cache × Option String
unfolding fetched_step
cached_step net url (some encoded) cache = (cache, some encoded)
cached_step net url none cache = fetched_step net (net.key_text url) (net.fetch url) cache

unfoldable pub fetch_status_list : StatusNet → Value → Cache → Cache × Option String
unfolding cached_step lookup
fetch_status_list net url cache = cached_step net url (lookup (net.key_text url) cache) cache

-- `{ revoked, suspended, error }`
pub record Status : Type 0 where
  pub revoked : Bool
  pub suspended : Bool
  pub failed : Bool

abbrev clear : Bool → Status
clear failed = record { revoked = false; suspended = false; failed = failed }

-- Fail-closed: what the entry is for counts as set.
abbrev pub closed : Value → Status
closed purpose = record {
  revoked = is_text "revocation" purpose;
  suspended = is_text "suspension" purpose;
  failed = true;
}

abbrev bit_status : Value → Option ℕ → Status
bit_status purpose none = closed purpose
bit_status purpose (some bit) = record {
  revoked = is_text "revocation" purpose && (bit == 1);
  suspended = is_text "suspension" purpose && (bit == 1);
  failed = false;
}

-- An encoded list that is empty is none.
unfoldable pub list_status : StatusNet → Value → ℕ → Option String → Status
unfolding decode_bit_at_index
list_status net purpose index none = closed purpose
list_status net purpose index (some encoded) =
    if is_blank encoded
    then closed purpose
    else bit_status purpose (decode_bit_at_index net.unpack encoded index)

-- `credentialStatus.statusPurpose || "revocation"`
abbrev pub purpose_of : Value → Value
purpose_of entry = or_value (member "statusPurpose" entry) (str "revocation")

-- `type === "BitstringStatusListEntry" || type === "StatusList2021Entry"`
abbrev pub is_known_type : Value → Bool
is_known_type entry =
    let type = or_value (member "type" entry) (member "statusType" entry) in
    is_text "BitstringStatusListEntry" type || is_text "StatusList2021Entry" type

abbrev found_status : StatusNet → Value → ℕ → Cache × Option String → Cache × Status
found_status net entry index r = (r.0, list_status net (purpose_of entry) index r.1)

unfoldable pub index_step : StatusNet → Value → Cache → Num → Cache × Status
unfolding fetch_status_list list_status is_truthy get
index_step net entry cache (fin (pos index)) =
    if is_truthy (member "statusListCredential" entry)
    then found_status net entry index
        (fetch_status_list net (member "statusListCredential" entry) cache)
    else (cache, clear true)
index_step net entry cache _ = (cache, clear true)

unfoldable pub check_bitstring_status : StatusNet → Value → Cache → Cache × Status
unfolding index_step is_truthy get
check_bitstring_status net entry cache =
    if not (is_truthy entry)
    then (cache, clear false)
    else if is_known_type entry
    then index_step net entry cache (net.parse_int (member "statusListIndex" entry))
    else (cache, clear true)

-- `clearStatusListCache`
unfoldable pub clear_status_list_cache : Cache → Cache
clear_status_list_cache cache = []
