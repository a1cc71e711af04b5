-- ===== src/Base/Text.antt =====
-- String methods: `split` on one character, `startsWith`, `endsWith`, and the code points of a text.
use Prim.Native.Nat.{ℕ}
use Prim.Native.Char.{code}
use Prim.Native.String.{String}
use mathlib.Core.Path.{◌≡◌, refl}
use mathlib.Core.Bool.{Bool, true, false, ◌&&◌, ◌||◌}
use mathlib.Core.List.{List, [], ◌∷◌, reverse}
use native.Mathlib.Omega.{arith}
use aiagent_portable_authori.Base.Tests.{◌==◌, if◌then◌else◌}

abbrev pub Codes : Type 0
Codes = List ℕ

abbrev pub codes : String → Codes
codes String.[] = []
codes (String.◌∷◌ c s) = code c ∷ codes s

-- A character in front of the first part.
abbrev before : Prim.Native.Char.Char → List String → List String
before c [] = String.◌∷◌ c String.[] ∷ []
before c (part ∷ parts) = String.◌∷◌ c part ∷ parts

-- `s.split(sep)` for a separator of one character.
unfoldable pub split : ℕ → String → List String
split sep String.[] = "" ∷ []
split sep (String.◌∷◌ c s) =
    let parts = split sep s in if code c == sep then "" ∷ parts else before c parts

-- `s.startsWith(p)` over code points.
unfoldable pub starts_with : Codes → Codes → Bool
starts_with s [] = true
starts_with [] (_ ∷ _) = false
starts_with (c ∷ s) (d ∷ p) = (c == d) && starts_with s p

-- `s.includes(p)`.
unfoldable pub contains : Codes → Codes → Bool
unfolding starts_with
contains [] p = starts_with [] p
contains (c ∷ s) p = let later = contains s p in starts_with (c ∷ s) p || later

-- `s.endsWith(p)`.
unfoldable pub ends_with : Codes → Codes → Bool
unfolding starts_with
ends_with s p = starts_with (reverse s) (reverse p)

pub starts_with_trans :
    (s q p : Codes) → starts_with s q ≡ true → starts_with q p ≡ true → starts_with s p ≡ true
unfolding starts_with
starts_with_trans s q [] h k = refl
starts_with_trans s [] (d ∷ p) h k = ground arith
starts_with_trans [] (c ∷ q) (d ∷ p) h k = ground arith
starts_with_trans (b ∷ s) (c ∷ q) (d ∷ p) h k = ground (arith, starts_with_trans s q p)

pub ends_with_trans :
    (s q p : Codes) → ends_with s q ≡ true → ends_with q p ≡ true → ends_with s p ≡ true
unfolding ends_with
ends_with_trans s q p h k = starts_with_trans (reverse s) (reverse q) (reverse p) h k

split_test : split b':' "08:30" ≡ "08" ∷ "30" ∷ []
unfolding split
split_test = refl
