-- ===== src/StatusList.antt =====
-- Bit lists of revoked credentials. Here is the list itself, as
-- portauth-issuer/src/services/statusListPublisher.js makes it and
-- portauth-engine/src/services/statusListChecker.js reads it; StatusList/Check is the checker's
-- decision. The compression (gzip under base64url) is an argument.
pub mod Bits
pub mod Check
pub mod Laws
use aiagent_portable_authori.Base.{
  ℕ, zero, suc, ◌+◌, ◌-◌, ◌*◌, ◌/◌, ◌%◌, String, Bool, true, false, ◌||◌, Option, none, some, List,
  [], ◌∷◌, if◌then◌else◌, ltb, leb, length,
}
use aiagent_portable_authori.Base.Int.{ℤ, pos, negsuc}
use aiagent_portable_authori.StatusList.Bits.{bit_of, with_bit}

-- A row of the issuer's list of states.
pub record Entry : Type 0 where
  pub status_list_index : ℤ
  pub revoked : Bool
  pub suspended : Bool

abbrev pub Bytes : Type 0
Bytes = List ℕ

-- `buffer[i]`, none past the end.
unfoldable pub byte_at : Bytes → ℕ → Option ℕ
byte_at [] i = none
byte_at (b ∷ bs) zero = some b
byte_at (b ∷ bs) (suc i) = byte_at bs i

-- `buffer[i] |= 1 << bit`; past the end nothing is written.
unfoldable pub set_at : Bytes → ℕ → ℕ → Bytes
unfolding with_bit
set_at [] i bit = []
set_at (b ∷ bs) zero bit = with_bit b bit ∷ bs
set_at (b ∷ bs) (suc i) bit = b ∷ set_at bs i bit

-- `setBit(buffer, index)`; the bits of a byte are counted from the highest. A negative index is no
-- place of the buffer.
unfoldable pub set_bit : Bytes → ℤ → Bytes
unfolding set_at
set_bit buffer (pos index) = set_at buffer (index / 8) (7 - index % 8)
set_bit buffer (negsuc _) = buffer

-- One more than the highest index, 0 if there is none.
unfoldable pub size_of : List Entry → ℕ
size_of [] = 0
size_of (entry ∷ entries) =
    let rest = size_of entries in
    elim entry.status_list_index [
      | pos index ↦ if ltb rest (index + 1) then index + 1 else rest
      | negsuc _ ↦ rest
    ]

-- `Buffer.alloc(n)`
unfoldable pub zeros : ℕ → Bytes
zeros zero = []
zeros (suc n) = 0 ∷ zeros n

abbrev pub is_set : Entry → Bool
is_set entry = entry.revoked || entry.suspended

-- The loop that sets the bits.
unfoldable pub set_all : List Entry → Bytes → Bytes
unfolding set_bit
set_all [] buffer = buffer
set_all (entry ∷ entries) buffer =
    set_all entries (if is_set entry then set_bit buffer entry.status_list_index else buffer)

-- `Math.max(1, Math.ceil((maxIndex + 1) / 8))`
abbrev pub byte_length : ℕ → ℕ
byte_length size = if leb size 8 then 1 else (size + 7) / 8

-- `buildEncodedStatusListFromEntries`
unfoldable pub build_encoded_status_list : (Bytes → String) → List Entry → String
unfolding set_all zeros size_of
build_encoded_status_list pack entries =
    pack (set_all entries (zeros (byte_length (size_of entries))))

abbrev pub bit_in : Option ℕ → ℕ → Option ℕ
bit_in none bit = none
bit_in (some b) bit = some (bit_of b bit)

abbrev decoded : Option Bytes → ℕ → Option ℕ
decoded none index = none
decoded (some bytes) index = bit_in (byte_at bytes (index / 8)) (7 - index % 8)

-- `decodeBitAtIndex`: none where the list cannot be unpacked, or ends before the index.
unfoldable pub decode_bit_at_index : (String → Option Bytes) → String → ℕ → Option ℕ
unfolding byte_at bit_of
decode_bit_at_index unpack encoded index = decoded (unpack encoded) index
