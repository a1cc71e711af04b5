-- ===== src/Examples/Published.antt =====
-- Runs of the status lists and of a preflight.
use Prim.Native.Char.{code}
use Prim.Native.String.{◌++◌ as text_append}
use aiagent_portable_authori.Base.{
  arith, inr, suc, ℕ, zero, suc, ◌==◌, ap, ◌∙◌, String, Bool, true, false, ◌≡◌, ◌≢◌, refl, Option,
  none, some, List, [], ◌∷◌, any, if◌then◌else◌, ltb,
}
use aiagent_portable_authori.Base.Int.{pos}
use aiagent_portable_authori.Base.Num.{fin}
use aiagent_portable_authori.Base.Assoc.{lookup}
use aiagent_portable_authori.Value.{
  is_text, Value, Fields, nil, field, str, arr, obj, get, member, is_truthy, is_blank,
}
use aiagent_portable_authori.StatusList.{
  Entry, Bytes, build_encoded_status_list, decode_bit_at_index,
}
use aiagent_portable_authori.StatusList.Laws.{marks, capacity, IsRoom, decode-build}
use aiagent_portable_authori.StatusList.Check.{
  purpose_of, is_known_type, StatusNet, Cache, fetch_status_list, check_bitstring_status,
}
use aiagent_portable_authori.StatusList.Check.Laws.{check_fail_closed, check-published}
use aiagent_portable_authori.A2a.{extension_uri}
use aiagent_portable_authori.A2a.Manifest.{Outside, verified, verify_governance_manifest}
use aiagent_portable_authori.A2a.Manifest.Laws.{Authentic, verify_governance_manifest_sound}
use aiagent_portable_authori.A2a.Preflight.Run.{Options, Result, preflight}
use aiagent_portable_authori.A2a.Preflight.Run.Laws.{Checked, preflight_fail_closed}

-- A packing of lists of bytes as texts that can be undone: each byte in unary, with a mark after it.
pack_byte : ℕ → String → String
pack_byte zero s = String.◌∷◌ ";" s
pack_byte (suc n) s = String.◌∷◌ "1" (pack_byte n s)

pack : Bytes → String
unfolding pack_byte
pack [] = ""
pack (b ∷ bs) = pack_byte b (pack bs)

add_one : Bytes → Bytes
add_one [] = []
add_one (b ∷ bs) = suc b ∷ bs

unpack_list : String → Bytes
unfolding add_one
unpack_list String.[] = []
unpack_list (String.◌∷◌ c s) =
    let rest = unpack_list s in if code c == b'1' then add_one rest else 0 ∷ rest

unpack : String → Option Bytes
unpack s = some (unpack_list s)

unpack-pack_byte : (n : ℕ) (s : String) → unpack_list (pack_byte n s) ≡ n ∷ unpack_list s
unfolding pack_byte unpack_list
unpack-pack_byte zero s = refl
unpack-pack_byte (suc n) s = rw (unpack-pack_byte n s) refl

unpack_list-pack : (bytes : Bytes) → unpack_list (pack bytes) ≡ bytes
unfolding pack unpack_list
unpack_list-pack [] = refl
unpack_list-pack (b ∷ bs) = unpack-pack_byte b (pack bs) ∙ ap (λ x. b ∷ x) (unpack_list-pack bs)

unpack-pack : (bytes : Bytes) → unpack (pack bytes) ≡ some bytes
unfolding unpack
unpack-pack bytes = ap some (unpack_list-pack bytes)

abbrev entry_of : ℕ → Bool → Entry
entry_of i revoked = record { status_list_index = pos i; revoked = revoked; suspended = false }

abbrev entries : List Entry
entries = entry_of 3 true ∷ entry_of 9 false ∷ []

entries-IsRoom : IsRoom 16 entries
entries-IsRoom = record {
  whole = refl;
  some_byte = omega arith;
  enough = (omega arith, (omega arith, tt));
  tight = inr refl;
}

decode-build_example :
    decode_bit_at_index unpack (build_encoded_status_list pack entries) 3
    ≡ (if any (marks 3) entries then some 1 else if ltb 3 16 then some 0 else none)
decode-build_example = decode-build pack unpack entries 3 unpack-pack 16 entries-IsRoom

abbrev net : StatusNet
net = record {
  parse_int = λ v. fin (pos 3);
  fetch = λ url. none;
  parse_part = λ part. none;
  unpack = unpack;
  key_text = λ v. "list";
}

abbrev entry : Value
entry = obj (
    field "type" (str "BitstringStatusListEntry")
      (field "statusListIndex" (str "3") (field "statusListCredential" (str "list") nil)))

abbrev published : Cache
published = ("list", build_encoded_status_list pack entries) ∷ []

abbrev published_unset : Cache
published_unset = ("list", build_encoded_status_list pack []) ∷ []

entry_there : is_truthy entry ≡ true
unfolding is_truthy
entry_there = refl

entry_known : is_known_type entry ≡ true
unfolding get is_truthy
entry_known = refl

entry_location : is_truthy (member "statusListCredential" entry) ≡ true
unfolding get is_truthy
entry_location = refl

entry_purpose : is_text "revocation" (purpose_of entry) ≡ true
unfolding get is_truthy
entry_purpose = refl

list_filled : is_blank (build_encoded_status_list pack entries) ≡ false
unfolding build_encoded_status_list pack
list_filled = refl

list_cached :
    lookup (net.key_text (member "statusListCredential" entry)) published
    ≡ some (build_encoded_status_list pack entries)
unfolding lookup
list_cached = refl

not_revoked : (check_bitstring_status net entry published_unset).1.revoked ≡ false
unfolding check_bitstring_status lookup get is_truthy unpack build_encoded_status_list pack
    unpack_list
not_revoked = refl

check_fail_closed_example :
    (encoded : String) × ((bit : ℕ) × ((fetch_status_list net
          (member "statusListCredential" entry)
          published_unset).1
        ≡ some encoded)
      × (decode_bit_at_index net.unpack encoded 3 ≡ some bit)
      × (bit ≢ 1))
check_fail_closed_example =
    check_fail_closed net entry 3 published_unset entry_there entry_known refl entry_location
      entry_purpose not_revoked

check-published_example :
    (check_bitstring_status net entry published).1.revoked
    ≡ (if ltb 3 (capacity entries) then any (marks 3) entries else true)
check-published_example =
    check-published net entry 3 published entry_there entry_known refl entry_location entry_purpose
      pack entries unpack-pack list_filled list_cached

abbrev one_text : String → Value
one_text s = arr (field "0" (str s) nil)

abbrev manifest_fields : Fields
manifest_fields = field "requiredContextFields" (one_text "action") (
    field "credentialProfiles" (arr (field "0" (obj (field "id" (str "tier1-jwt") nil)) nil))
      (field "proof" (obj (field "jws" (str "header.payload.signature") nil)) nil))

-- The text that is signed.
abbrev signed_text : String
signed_text =
    "{\"credentialProfiles\":[{\"id\":\"tier1-jwt\"}],\"requiredContextFields\":[\"action\"]}"

quoted : Value → String
quoted (str s) = text_append "\"" (text_append s "\"")
quoted _ = ""

abbrev jwks : Value
jwks = obj (field "keys" (arr (field "0" (obj nil) nil)) nil)

abbrev outside : Outside
outside = record {
  fetch = λ url. some (record { ok = true; body = some jwks });
  has_webcrypto = true;
  parse_part = λ part. some (obj (field "alg" (str "ES256") nil));
  verifies = λ alg key header payload signature. true;
  text_of_part = λ part. some signed_text;
  stringify = quoted;
  same = λ a b. true;
}

manifest_verified :
    verify_governance_manifest outside manifest_fields "https://keys" ≡ verified signed_text
unfolding verify_governance_manifest is_truthy quoted
manifest_verified = refl

verify_governance_manifest_sound_example :
    (outside.has_webcrypto ≡ true) × Authentic outside manifest_fields "https://keys" signed_text
verify_governance_manifest_sound_example =
    verify_governance_manifest_sound outside manifest_fields "https://keys" signed_text
      manifest_verified

abbrev context : Value
context = obj (field "action" (str "pay") nil)

abbrev options : Options
options = record {
  agent_card = obj (
      field "capabilities"
        (obj (
          field "extensions" (arr (field "0" (obj (field "uri" (str extension_uri) nil)) nil)) nil))
        nil);
  fetched_card = none;
  manifest = some manifest_fields;
  fetched_manifest = λ url. none;
  signing_key_url = "https://keys";
  verify_manifest = true;
}

abbrev found_compatible : Result
found_compatible = record { compatible = true; manifest_verified = true; incompatibilities = [] }

preflight_run : preflight outside options "header.payload.signature" context ≡ some found_compatible
unfolding preflight is_truthy quoted
preflight_run = refl

preflight_fail_closed_example :
    Checked outside options "header.payload.signature" context found_compatible
preflight_fail_closed_example =
    preflight_fail_closed outside options "header.payload.signature" context refl found_compatible
      preflight_run refl
