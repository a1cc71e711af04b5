-- ===== src/StatusList/Check/Laws.antt =====
-- Laws of the check of a status list in portauth-engine/src/services/statusListChecker.js.
use aiagent_portable_authori.Base.{
  ltb, ℕ, String, true, false, ◌≡◌, ◌≢◌, refl, ◌∙◌, Option, none, some, List, arith, any,
  Option-cases, inl, inr, if◌then◌else◌,
}
use aiagent_portable_authori.Base.Assoc.{lookup}
use aiagent_portable_authori.Base.Int.{pos}
use aiagent_portable_authori.Base.Num.{fin}
use aiagent_portable_authori.Value.{Value, member, is_truthy, is_text, is_blank}
use aiagent_portable_authori.StatusList.{
  Entry, Bytes, decode_bit_at_index, build_encoded_status_list,
}
use aiagent_portable_authori.StatusList.Laws.{marks, capacity, decode-build_bits}
use aiagent_portable_authori.StatusList.Check.{
  StatusNet, Cache, purpose_of, is_known_type, list_status, index_step, fetch_status_list,
  check_bitstring_status,
}

module _ (net : StatusNet) (entry : Value) (index : ℕ) (cache : Cache)
    (there : is_truthy entry ≡ true) (known : is_known_type entry ≡ true)
    (index_is : net.parse_int (member "statusListIndex" entry) ≡ fin (pos index))
    (location : is_truthy (member "statusListCredential" entry) ≡ true)
    (purpose : is_text "revocation" (purpose_of entry) ≡ true) where
  check-eq :
      (check_bitstring_status net entry cache).1
      ≡ list_status net
          (purpose_of entry)
          index
          (fetch_status_list net (member "statusListCredential" entry) cache).1
  unfolding check_bitstring_status index_step
  check-eq = rw there (rw known (rw index_is (rw location refl)))

  list_status-open :
      (o : Option String)
      → (list_status net (purpose_of entry) index o).revoked ≡ false
      → (encoded : String) × ((bit : ℕ) × (o ≡ some encoded)
          × (decode_bit_at_index net.unpack encoded index ≡ some bit)
          × (bit ≢ 1))
  unfolding list_status
  list_status-open none h = absurd (ground arith)
  list_status-open (some encoded) h =
      elim (Option-cases (decode_bit_at_index net.unpack encoded index)) [
        | inl e ↦ absurd (ground arith)
        | inr (bit, e) ↦ (encoded, (bit, refl, e, λ one. ground arith))
      ]

  -- A credential with a readable revocation entry passes the check only if its list was obtained and
  -- could be unpacked, the index lies in it, and the bit there is not 1: each failure revokes.
  pub check_fail_closed :
      (check_bitstring_status net entry cache).1.revoked ≡ false
      → (encoded : String) × ((bit : ℕ) × ((fetch_status_list net
              (member "statusListCredential" entry)
              cache).1
            ≡ some encoded)
          × (decode_bit_at_index net.unpack encoded index ≡ some bit)
          × (bit ≢ 1))
  check_fail_closed h =
      list_status-open (fetch_status_list net (member "statusListCredential" entry) cache).1
        (rw (← check-eq) h)

  -- With the list of the issuer at hand, the engine's verdict is the issuer's record: revoked if an
  -- entry of the index is set, or if the index lies past the list.
  pub check-published :
      (pack : Bytes → String) (entries : List Entry)
      → ((bytes : Bytes) → net.unpack (pack bytes) ≡ some bytes)
      → is_blank (build_encoded_status_list pack entries) ≡ false
      → lookup (net.key_text (member "statusListCredential" entry)) cache
        ≡ some (build_encoded_status_list pack entries)
      → (check_bitstring_status net entry cache).1.revoked
        ≡ (if ltb index (capacity entries) then any (marks index) entries else true)
  unfolding list_status fetch_status_list
  check-published pack entries law filled cached = check_revoked ∙ published
    where
      check_revoked :
          (check_bitstring_status net entry cache).1.revoked
          ≡ (list_status net
              (purpose_of entry)
              index
              (some (build_encoded_status_list pack entries))).revoked
      check_revoked = rw check-eq (rw cached refl)

      published :
          (list_status net
            (purpose_of entry)
            index
            (some (build_encoded_status_list pack entries))).revoked
          ≡ (if ltb index (capacity entries) then any (marks index) entries else true)
      published = ground (arith, decode-build_bits pack net.unpack entries index law)
