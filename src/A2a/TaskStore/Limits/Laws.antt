-- ===== src/A2a/TaskStore/Limits/Laws.antt =====
-- Laws of the limit and the order of a listing in extensions/a2a/receiver-middleware/src/index.js.
use aiagent_portable_authori.Base.{
  ℕ, zero, suc, ◌≤◌, Bool, ◌≡◌, refl, List, [], ◌∷◌, arith, length, Bool-cases, inl, inr,
}
use aiagent_portable_authori.Base.Int.{pos, negsuc}
use aiagent_portable_authori.Base.Num.{Num, nan, fin}
use aiagent_portable_authori.A2a.TaskStore.Limits.{bounded_limit, take, place, newest_first}

-- A listing asks for one record at least and a thousand at most.
pub bounded_limit_bounds : (n : Num) → (1 ≤ bounded_limit n) × (bounded_limit n ≤ 1000)
unfolding bounded_limit
bounded_limit_bounds nan = omega arith
bounded_limit_bounds (fin (pos n)) = ground arith
bounded_limit_bounds (fin (negsuc _)) = omega arith

length-take-le {ℓ} : {A : Type ℓ} (n : ℕ) (xs : List A) → length (take n xs) ≤ n
unfolding take
length-take-le zero xs = omega arith
length-take-le (suc n) [] = omega arith
length-take-le (suc n) (x ∷ xs) = omega (arith, length-take-le n xs)

module _ {ℓ} {A : Type ℓ} (is_newer : A → A → Bool) where
  length-place : (x : A) (xs : List A) → length (place is_newer x xs) ≡ suc (length xs)
  unfolding place
  length-place x [] = refl
  length-place x (y ∷ ys) = elim (Bool-cases (is_newer y x)) [
    | inl e ↦ rw e (omega (arith, length-place x ys))
    | inr e ↦ rw e refl
  ]

  -- Sorting loses no record.
  pub length-newest_first : (xs : List A) → length (newest_first is_newer xs) ≡ length xs
  unfolding newest_first
  length-newest_first [] = refl
  length-newest_first (x ∷ xs) =
      omega (arith, length-place x (newest_first is_newer xs), length-newest_first xs)

  -- A listing has a thousand records at most.
  pub length-list-le :
      (n : Num) (xs : List A) → length (take (bounded_limit n) (newest_first is_newer xs)) ≤ 1000
  length-list-le n xs =
      omega
        (arith, length-take-le (bounded_limit n) (newest_first is_newer xs), bounded_limit_bounds n)
