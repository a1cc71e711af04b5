-- ===== src/Base/Lists.antt =====
-- Array methods as list functions: `every`, `some`, `find`, `filter`, `includes`.
use Prim.Native.Nat.{ℕ, suc}
use Prim.Native.String.{String}
use mathlib.Core.Path.{◌≡◌, refl}
use mathlib.Core.Logic.{◌⊎◌, inl, inr}
use mathlib.Core.Bool.{Bool, true, false, ◌&&◌, ◌||◌, not}
use mathlib.Core.Option.{Option, none, some}
use mathlib.Core.List.{List, [], ◌∷◌}
use native.Mathlib.Omega.{arith}
use text.Mathlib.TextEquality.{eq_iff}
use aiagent_portable_authori.Base.Tests.{if◌then◌else◌, str_eq, Bool-cases}

module _ {ℓ} {A : Type ℓ} where
  abbrev pub length : List A → ℕ
  length [] = 0
  length (x ∷ xs) = suc (length xs)

  abbrev pub every : (A → Bool) → List A → Bool
  every p [] = true
  every p (x ∷ xs) = p x && every p xs

  abbrev pub any : (A → Bool) → List A → Bool
  any p [] = false
  any p (x ∷ xs) = p x || any p xs

  abbrev pub find? : (A → Bool) → List A → Option A
  find? p [] = none
  find? p (x ∷ xs) = if p x then some x else find? p xs

  abbrev pub filter : (A → Bool) → List A → List A
  filter p [] = []
  filter p (x ∷ xs) = if p x then x ∷ filter p xs else filter p xs

  abbrev pub is_empty : List A → Bool
  is_empty [] = true
  is_empty (_ ∷ _) = false

  abbrev pub All {κ} : (A → Type κ) → List A → Type κ
  All P [] = Unit
  All P (x ∷ xs) = P x × All P xs

  -- `find` gives an element of the list that passes the test.
  pub find?-test : (p : A → Bool) (xs : List A) (a : A) → find? p xs ≡ some a → p a ≡ true
  find?-test p (x ∷ xs) a h = ground (arith, find?-test p xs a)
  find?-test p [] a h = ground arith

  pub find?-All {κ} :
      (P : A → Type κ) (p : A → Bool) (xs : List A) (a : A) → find? p xs ≡ some a → All P xs → P a
  find?-All P p [] a h _ = ground arith
  find?-All P p (x ∷ xs) a h (hx, hs) = elim (Bool-cases (p x)) [
    | inl e ↦ let e' : x ≡ a = ground arith in mathlib.Core.Path.subst P e' hx
    | inr e ↦ find?-All P p xs a (ground arith) hs
  ]

  pub All-zip {κ μ ν} :
      (P : A → Type κ) (Q : A → Type μ) (R : A → Type ν) (xs : List A)
      → ((x : A) → P x → Q x → R x)
      → All P xs
      → All Q xs
      → All R xs
  All-zip P Q R [] f hp hq = tt
  All-zip P Q R (x ∷ xs) f (p, hp) (q, hq) = (f x p q, All-zip P Q R xs f hp hq)

  pub every-find? :
      (q p : A → Bool) (xs : List A) (a : A) → find? p xs ≡ some a → every q xs ≡ true → q a ≡ true
  every-find? q p [] a h _ = ground arith
  every-find? q p (x ∷ xs) a h hs = ground (arith, every-find? q p xs a)

  -- `filter(…).length === 0` says that every element fails the test.
  pub filter-eq-nil :
      (p : A → Bool) (xs : List A) → filter p xs ≡ [] → every (λ x. not (p x)) xs ≡ true
  filter-eq-nil p [] h = refl
  filter-eq-nil p (x ∷ xs) h = ground (arith, filter-eq-nil p xs)

-- Membership.
abbrev pub In : {A : Type 0} → A → List A → Type 0
In x [] = ⊥
In x (y ∷ ys) = (x ≡ y) ⊎ In x ys

pub In-filter : {A : Type 0} (p : A → Bool) (x : A) (xs : List A) → In x (filter p xs) → In x xs
In-filter p x [] h = h
In-filter {A} p x (y ∷ ys) h = elim (Bool-cases (p y)) [
  | inl e ↦ elim (kept e) [ inl k ↦ inl k | inr k ↦ inr (In-filter p x ys k) ]
  | inr e ↦ inr (In-filter p x ys (dropped e))
]
  where
    kept : p y ≡ true → (x ≡ y) ⊎ In x (filter p ys)
    kept e = mathlib.Core.Path.subst (λ b. In x (if b then y ∷ filter p ys else filter p ys)) e h

    dropped : p y ≡ false → In x (filter p ys)
    dropped e = mathlib.Core.Path.subst (λ b. In x (if b then y ∷ filter p ys else filter p ys)) e h

-- `xs.includes(s)` on an array of strings.
abbrev pub includes : List String → String → Bool
includes xs s = any (λ x. str_eq x s) xs

pub every-includes :
    (p : String → Bool) (xs : List String) (s : String)
    → every p xs ≡ true
    → includes xs s ≡ true
    → p s ≡ true
every-includes p [] s h k = ground arith
every-includes p (x ∷ xs) s h k = elim (Bool-cases (str_eq x s)) [
  | inl e ↦ mathlib.Core.Path.subst (λ y. p y ≡ true) ((eq_iff x s).0 e) (ground arith)
  | inr e ↦ every-includes p xs s (ground arith) (ground arith)
]
