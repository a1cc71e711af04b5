-- ===== src/StatusList/Bits.antt =====
-- The bits of a byte: `(b >> k) & 1` and `b | (1 << k)`.
use aiagent_portable_authori.Base.{
  ℕ, zero, suc, ◌+◌, ◌*◌, ◌/◌, ◌%◌, ◌<◌, Bool, true, ◌&&◌, ◌≡◌, refl, arith, if◌then◌else◌, ◌==◌,
  ltb,
}

abbrev power_of_two : ℕ → ℕ
power_of_two zero = 1
power_of_two (suc k) = 2 * power_of_two k

unfoldable pub bit_of : ℕ → ℕ → ℕ
bit_of b k = b / power_of_two k % 2

unfoldable pub with_bit : ℕ → ℕ → ℕ
unfolding bit_of
with_bit b k = if bit_of b k == 1 then b else b + power_of_two k

-- A test that holds of all numbers below a bound.
holds_below : ℕ → (ℕ → Bool) → Bool
holds_below zero p = true
holds_below (suc n) p = p n && holds_below n p

holds_below_sound : (n : ℕ) (p : ℕ → Bool) (x : ℕ) → holds_below n p ≡ true → x < n → p x ≡ true
unfolding holds_below
holds_below_sound zero p x h lt = absurd (omega arith)
holds_below_sound (suc n) p x h lt = ground (arith, holds_below_sound n p x)

table :
    holds_below 256 (λ b. holds_below 8 (λ k. holds_below 8 (λ j.
      ltb (with_bit b k) 256 && (bit_of (with_bit b k) j == (if k == j then 1 else bit_of b j)))))
    ≡ true
unfolding holds_below with_bit
table = refl

-- Setting a bit of a byte gives a byte, and changes no other bit.
pub bit_of-with_bit :
    (b k j : ℕ)
    → b < 256
    → k < 8
    → j < 8
    → (with_bit b k < 256) × (bit_of (with_bit b k) j ≡ (if k == j then 1 else bit_of b j))
bit_of-with_bit b k j hb hk hj =
    let row = holds_below_sound 256 _ b table hb in
    let cell = holds_below_sound 8 _ k row hk in
    let h = holds_below_sound 8 _ j cell hj in (ground arith, ground arith)

zero_table : holds_below 8 (λ k. bit_of 0 k == 0) ≡ true
unfolding holds_below bit_of
zero_table = refl

pub bit_of-zero : (k : ℕ) → k < 8 → bit_of 0 k ≡ 0
bit_of-zero k h = let cell = holds_below_sound 8 _ k zero_table h in ground arith
