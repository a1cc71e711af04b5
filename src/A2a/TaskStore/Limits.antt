-- ===== src/A2a/TaskStore/Limits.antt =====
-- The order and the limit of `list` and `getByTaskId` of both task stores of
-- extensions/a2a/receiver-middleware/src/index.js.
pub mod Laws
use aiagent_portable_authori.Base.{
  ℕ, zero, suc, Bool, true, false, Option, none, some, List, [], ◌∷◌, if◌then◌else◌, leb, ◌==◌,
}
use aiagent_portable_authori.Base.Int.{pos, negsuc}
use aiagent_portable_authori.Base.Num.{Num, nan, fin}

-- `Math.max(1, Math.min(Number(limit) || 100, 1000))`
unfoldable pub bounded_limit : Num → ℕ
bounded_limit nan = 100
bounded_limit (fin (pos n)) = if n == 0 then 100 else if leb n 1000 then n else 1000
bounded_limit (fin (negsuc _)) = 1

-- `slice(0, n)`
unfoldable pub take {ℓ} : {A : Type ℓ} → ℕ → List A → List A
take zero xs = []
take (suc n) [] = []
take (suc n) (x ∷ xs) = x ∷ take n xs

module _ {ℓ} {A : Type ℓ} (is_newer : A → A → Bool) where
  unfoldable pub place : A → List A → List A
  place x [] = x ∷ []
  place x (y ∷ ys) = let rest = place x ys in if is_newer y x then y ∷ rest else x ∷ y ∷ ys

  -- The newest first; equal ones keep their order.
  unfoldable pub newest_first : List A → List A
  unfolding place
  newest_first [] = []
  newest_first (x ∷ xs) = place x (newest_first xs)

  abbrev first_of : List A → Option A
  first_of [] = none
  first_of (x ∷ _) = some x

  unfoldable pub newest : List A → Option A
  unfolding newest_first
  newest xs = first_of (newest_first xs)
