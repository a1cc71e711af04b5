-- ===== src/StatusList/Laws.antt =====
-- Laws of the bit lists: what the issuer publishes, the engine reads back.
use aiagent_portable_authori.Base.{
  ◌⊎◌, ◌+◌, ◌||◌, leb, true, ℕ, zero, suc, ◌-◌, ◌*◌, ◌/◌, ◌%◌, ◌<◌, ◌≤◌, String, Bool, false, ◌&&◌,
  ◌≡◌, refl, ◌∙◌, ap, Option, none, some, List, [], ◌∷◌, arith, if◌then◌else◌, ltb, length, any,
  All, inl, inr, Bool-cases, ◌==◌,
}
use aiagent_portable_authori.Base.Int.{ℤ, pos, negsuc}
use aiagent_portable_authori.StatusList.Bits.{bit_of-zero, bit_of-with_bit}
use aiagent_portable_authori.StatusList.{
  bit_in, Entry, Bytes, byte_at, set_at, set_bit, size_of, zeros, is_set, set_all, byte_length,
  build_encoded_status_list, decode_bit_at_index,
}

-- Every element is a byte.
abbrev AreBytes : Bytes → Type 0
AreBytes bytes = All (λ b. b < 256) bytes

set_at-AreBytes : (bytes : Bytes) (i k : ℕ) → k < 8 → AreBytes bytes → AreBytes (set_at bytes i k)
unfolding set_at
set_at-AreBytes [] i k h v = tt
set_at-AreBytes (b ∷ bs) zero k h (v, vs) = ((bit_of-with_bit b k k v h h).0, vs)
set_at-AreBytes (b ∷ bs) (suc i) k h (v, vs) = (v, set_at-AreBytes bs i k h vs)

length-set_at : (bytes : Bytes) (i k : ℕ) → length (set_at bytes i k) ≡ length bytes
unfolding set_at
length-set_at [] i k = refl
length-set_at (b ∷ bs) zero k = refl
length-set_at (b ∷ bs) (suc i) k = omega (arith, length-set_at bs i k)

-- The bit at a place, of a byte that is there.
abbrev bit_at : Bytes → ℕ → ℕ → Option ℕ
bit_at bytes i k = bit_in (byte_at bytes i) k

bit_at-set_at :
    (bytes : Bytes) (i k j m : ℕ)
    → k < 8
    → m < 8
    → i < length bytes
    → AreBytes bytes
    → bit_at (set_at bytes i k) j m ≡ (if (i == j) && (k == m) then some 1 else bit_at bytes j m)
unfolding set_at byte_at
bit_at-set_at [] i k j m hk hm lt v = absurd (omega arith)
bit_at-set_at (b ∷ bs) zero k zero m hk hm lt (v, vs) =
    ground (arith, bit_of-with_bit b k m v hk hm)
bit_at-set_at (b ∷ bs) zero k (suc j) m hk hm lt v = ground arith
bit_at-set_at (b ∷ bs) (suc i) k zero m hk hm lt v = ground arith
bit_at-set_at (b ∷ bs) (suc i) k (suc j) m hk hm lt (v, vs) =
    bit_at-set_at bs i k j m hk hm (omega arith) vs ∙ ground arith

length-zeros : (n : ℕ) → length (zeros n) ≡ n
unfolding zeros
length-zeros zero = refl
length-zeros (suc n) = omega (arith, length-zeros n)

zeros-AreBytes : (n : ℕ) → AreBytes (zeros n)
unfolding zeros
zeros-AreBytes zero = tt
zeros-AreBytes (suc n) = (omega arith, zeros-AreBytes n)

bit_at-zeros : (n i k : ℕ) → k < 8 → i < n → bit_at (zeros n) i k ≡ some 0
unfolding zeros byte_at
bit_at-zeros zero i k hk h = absurd (omega arith)
bit_at-zeros (suc n) zero k hk h = ap some (bit_of-zero k hk)
bit_at-zeros (suc n) (suc i) k hk h = bit_at-zeros n i k hk (omega arith)

abbrev is_index : ℤ → ℕ → Bool
is_index (pos x) i = x == i
is_index (negsuc _) i = false

-- An entry that sets the bit of an index.
abbrev pub marks : ℕ → Entry → Bool
marks i entry = is_set entry && is_index entry.status_list_index i

abbrev Below : ℕ → ℤ → Type 0
Below n (pos x) = x < n
Below n (negsuc _) = Unit

abbrev read : Bytes → ℕ → Option ℕ
read bytes i = bit_at bytes (i / 8) (7 - i % 8)

read-set_bit :
    (bytes : Bytes) (z : ℤ) (i : ℕ)
    → Below (8 * length bytes) z
    → AreBytes bytes
    → read (set_bit bytes z) i ≡ (if is_index z i then some 1 else read bytes i)
unfolding set_bit
read-set_bit bytes (negsuc _) i h v = refl
read-set_bit bytes (pos x) i h v =
    bit_at-set_at bytes (x / 8) (7 - x % 8) (i / 8) (7 - i % 8) (omega arith) (omega arith)
      (omega arith) v
    ∙ ground arith

set_bit-AreBytes : (bytes : Bytes) (z : ℤ) → AreBytes bytes → AreBytes (set_bit bytes z)
unfolding set_bit
set_bit-AreBytes bytes (negsuc _) v = v
set_bit-AreBytes bytes (pos x) v = set_at-AreBytes bytes (x / 8) (7 - x % 8) (omega arith) v

length-set_bit : (bytes : Bytes) (z : ℤ) → length (set_bit bytes z) ≡ length bytes
unfolding set_bit
length-set_bit bytes (negsuc _) = refl
length-set_bit bytes (pos x) = length-set_at bytes (x / 8) (7 - x % 8)

read-set_all :
    (entries : List Entry) (bytes : Bytes) (i : ℕ)
    → All (λ e. Below (8 * length bytes) e.status_list_index) entries
    → AreBytes bytes
    → read (set_all entries bytes) i ≡ (if any (marks i) entries then some 1 else read bytes i)
unfolding set_all
read-set_all [] bytes i h v = refl
read-set_all (e ∷ es) bytes i (h, hs) v = elim (Bool-cases (is_set e)) [
  | inl t ↦
      let more =
        read-set_all es (set_bit bytes e.status_list_index) i
          (rw (length-set_bit bytes e.status_list_index) hs)
          (set_bit-AreBytes bytes e.status_list_index v) in
      let one = read-set_bit bytes e.status_list_index i h v in rw t (more ∙ ground arith)
  | inr t ↦ rw t (read-set_all es bytes i hs v)
]

size_of-Below :
    (entries : List Entry) (n : ℕ)
    → size_of entries ≤ n
    → All (λ e. Below n e.status_list_index) entries
unfolding size_of
size_of-Below [] n h = tt
size_of-Below (e ∷ es) n h = (head e.status_list_index refl, size_of-Below es n (ground arith))
  where
    head : (z : ℤ) → z ≡ e.status_list_index → Below n e.status_list_index
    head (pos x) k = rw (← k) (ground arith)
    head (negsuc _) k = rw (← k) tt

byte_at-eq_none : (bytes : Bytes) (i : ℕ) → length bytes ≤ i → byte_at bytes i ≡ none
unfolding byte_at
byte_at-eq_none [] i h = refl
byte_at-eq_none (b ∷ bs) zero h = absurd (omega arith)
byte_at-eq_none (b ∷ bs) (suc i) h = byte_at-eq_none bs i (omega arith)

length-set_all :
    (entries : List Entry) (bytes : Bytes) → length (set_all entries bytes) ≡ length bytes
unfolding set_all
length-set_all [] bytes = refl
length-set_all (e ∷ es) bytes = elim (Bool-cases (is_set e)) [
  | inl t ↦ rw t (
      length-set_all es (set_bit bytes e.status_list_index)
      ∙ length-set_bit bytes e.status_list_index)
  | inr t ↦ rw t (length-set_all es bytes)
]

-- How many bits are published.
abbrev pub capacity : List Entry → ℕ
capacity entries = 8 * byte_length (size_of entries)

abbrev reaches : ℕ → ℤ → Bool
reaches n (pos x) = leb n x
reaches n (negsuc _) = false

-- A number of bits is the room that a list of entries takes: whole bytes, at least one, more than every
-- index, and no byte more than the highest index needs.
pub record IsRoom (n : ℕ) (entries : List Entry) : Type 0 where
  pub whole : n % 8 ≡ 0
  pub some_byte : 8 ≤ n
  pub enough : All (λ e. Below n e.status_list_index) entries
  pub tight : (n ≡ 8) ⊎ (any (λ e. reaches (n - 8) e.status_list_index) entries ≡ true)

size_of-le :
    (entries : List Entry) (n : ℕ)
    → All (λ e. Below n e.status_list_index) entries
    → size_of entries ≤ n
unfolding size_of
size_of-le [] n h = omega arith
size_of-le (e ∷ es) n (h, hs) =
    let rest = size_of-le es n hs in head e.status_list_index (size_of es) h rest
  where
    head :
        (z : ℤ) (rest : ℕ)
        → Below n z
        → rest ≤ n
        → (elim z [
          | pos index ↦ if ltb rest (index + 1) then index + 1 else rest
          | negsuc _ ↦ rest
        ])
          ≤ n
    head (pos x) rest h k = ground arith
    head (negsuc _) rest h k = k

size_of-reaches :
    (entries : List Entry) (n : ℕ)
    → any (λ e. reaches n e.status_list_index) entries ≡ true
    → n < size_of entries
unfolding size_of
size_of-reaches [] n h = ground arith
size_of-reaches (e ∷ es) n h =
    head e.status_list_index (size_of es) _ h (λ k. size_of-reaches es n k)
  where
    head :
        (z : ℤ) (rest : ℕ) (later : Bool)
        → (reaches n z || later) ≡ true
        → (later ≡ true → n < rest)
        → n < (elim z [
          | pos index ↦ if ltb rest (index + 1) then index + 1 else rest
          | negsuc _ ↦ rest
        ])
    head (pos x) rest true h k = let kept = k refl in ground arith
    head (pos x) rest false h k = ground arith
    head (negsuc _) rest later h k = k h

-- The published list has that many bits.
pub capacity-IsRoom : (entries : List Entry) (n : ℕ) → IsRoom n entries → capacity entries ≡ n
capacity-IsRoom entries n room =
    let most = size_of-le entries n room.enough in
    let whole = room.whole in
    let some_byte = room.some_byte in
    elim room.tight [
      | inl e ↦ ground arith
      | inr e ↦ let least = size_of-reaches entries (n - 8) e in ground arith
    ]

-- The index of an entry that is set lies in the room.
any-marks-Below :
    (entries : List Entry) (n i : ℕ)
    → All (λ e. Below n e.status_list_index) entries
    → any (marks i) entries ≡ true
    → i < n
any-marks-Below [] n i v h = ground arith
any-marks-Below (e ∷ es) n i (v, vs) h =
    head e.status_list_index (is_set e) _ v h (λ k. any-marks-Below es n i vs k)
  where
    head :
        (z : ℤ) (set later : Bool)
        → Below n z
        → ((set && is_index z i) || later) ≡ true
        → (later ≡ true → i < n)
        → i < n
    head z set true v h k = k refl
    head (pos x) set false v h k = ground arith
    head (negsuc _) set false v h k = ground arith

module _ (pack : Bytes → String) (unpack : String → Option Bytes) (entries : List Entry) (i : ℕ)
    (law : (bytes : Bytes) → unpack (pack bytes) ≡ some bytes) where
  pub decode-build_bits :
      decode_bit_at_index unpack (build_encoded_status_list pack entries) i
      ≡ (if ltb i (capacity entries) then some (if any (marks i) entries then 1 else 0) else none)
  unfolding decode_bit_at_index build_encoded_status_list
  decode-build_bits =
      let size = byte_length (size_of entries) in
      let bytes = set_all entries (zeros size) in
      let size_is : length bytes ≡ size = length-set_all entries (zeros size) ∙ length-zeros size in
      elim (Bool-cases (ltb i (capacity entries))) [
        | inl t ↦
            let bound : All (λ e. Below (8 * length (zeros size)) e.status_list_index) entries =
              rw (length-zeros size) (size_of-Below entries (8 * size) (ground arith)) in
            let bit = read-set_all entries (zeros size) i bound (zeros-AreBytes size) in
            let zero_bit = bit_at-zeros size (i / 8) (7 - i % 8) (omega arith) (ground arith) in
            rw (law bytes) (rw t (bit ∙ ground arith))
        | inr t ↦
            let past = byte_at-eq_none bytes (i / 8) (ground arith) in
            rw (law bytes) (rw t (rw past refl))
      ]

  -- Where a number of bits is the least multiple of eight, itself at least eight, above the index of
  -- every entry, and unpacking undoes packing, the engine reads 1 at the index of every entry that is
  -- set, 0 at the other indices below this number, and nothing from there on.
  pub decode-build :
      (n : ℕ)
      → IsRoom n entries
      → decode_bit_at_index unpack (build_encoded_status_list pack entries) i
        ≡ (if any (marks i) entries then some 1 else if ltb i n then some 0 else none)
  decode-build n room =
      let below = any-marks-Below entries n i room.enough in
      decode-build_bits ∙ (rw (capacity-IsRoom entries n room) (ground arith))
