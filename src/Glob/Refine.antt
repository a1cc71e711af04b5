-- ===== src/Glob/Refine.antt =====
-- `isRestrictedGlobRefinement` of portauth-engine/src/services/delegationVerifier.js and its
-- helpers, which compare a parent's glob with a delegate's segment by segment.
use aiagent_portable_authori.Base.{
  ℕ, String, Bool, true, false, not, ◌&&◌, ◌||◌, List, [], ◌∷◌, ◌++◌, if◌then◌else◌, ◌==◌, str_eq,
  ltb, every, is_empty, ◌≡◌, refl,
}
use aiagent_portable_authori.Base.Text.{Codes, codes, split}
use aiagent_portable_authori.Glob.{Token, lit, any_segment, matches}

pub data SegToken : Type 0 where
  star : SegToken
  literal : Codes → SegToken

abbrev is_star : SegToken → Bool
is_star star = true
is_star (literal _) = false

abbrev ends_in_star : List SegToken → Bool
ends_in_star [] = false
ends_in_star (t ∷ []) = is_star t
ends_in_star (t ∷ u ∷ ts) = ends_in_star (u ∷ ts)

-- `if (buf) tokens.push({ literal: buf })`
abbrev pub flush : List SegToken → Codes → List SegToken
flush tokens [] = tokens
flush tokens (c ∷ buf) = tokens ++ literal (c ∷ buf) ∷ []

-- `tokens.push({ star: true })` unless the last token is a star.
abbrev push_star : List SegToken → List SegToken
push_star tokens = if ends_in_star tokens then tokens else tokens ++ star ∷ []

unfoldable pub tokenize_from : List SegToken → Codes → Codes → List SegToken
tokenize_from tokens buf [] = flush tokens buf
tokenize_from tokens buf (ch ∷ seg) =
    let starred = tokenize_from (push_star (flush tokens buf)) [] seg in
    let longer = tokenize_from tokens (buf ++ ch ∷ []) seg in if ch == b'*' then starred else longer

unfoldable pub tokenize_segment : Codes → List SegToken
unfolding tokenize_from
tokenize_segment seg = tokenize_from [] [] seg

unfoldable pub literals : Codes → List Token
literals [] = []
literals (c ∷ cs) = lit c ∷ literals cs

unfoldable pub compile_segment_regex : List SegToken → List Token
unfolding literals
compile_segment_regex [] = []
compile_segment_regex (star ∷ ts) = any_segment ∷ compile_segment_regex ts
compile_segment_regex (literal s ∷ ts) = literals s ++ compile_segment_regex ts

-- The tokens joined, each star replaced by `sub`.
unfoldable pub join_with : Codes → List SegToken → Codes
join_with sub [] = []
join_with sub (star ∷ ts) = sub ++ join_with sub ts
join_with sub (literal s ∷ ts) = s ++ join_with sub ts

unfoldable pub count_stars : List SegToken → ℕ
count_stars [] = 0
count_stars (star ∷ ts) = Prim.Native.Nat.suc (count_stars ts)
count_stars (literal _ ∷ ts) = count_stars ts

unfoldable pub token_subset : List SegToken → List SegToken → Bool
unfolding compile_segment_regex join_with count_stars matches
token_subset parent delegate =
    let regex = compile_segment_regex parent in
    matches regex (join_with [] delegate)
    && matches regex (join_with (b'x' ∷ []) delegate)
    && not (ltb (count_stars parent) (count_stars delegate))

unfoldable pub intra_segment_subset : String → String → Bool
unfolding tokenize_segment token_subset
intra_segment_subset parent delegate =
    if str_eq parent delegate
    then true
    else token_subset (tokenize_segment (codes parent)) (tokenize_segment (codes delegate))

-- `for (let k = j; k <= delegateSegs.length; k++) if (f(delegateSegs.slice(k))) return true`
any_suffix : (List String → Bool) → List String → Bool
any_suffix f [] = f []
any_suffix f (d ∷ ds) = f (d ∷ ds) || any_suffix f ds

unfoldable pub segment_subset : List String → List String → Bool
unfolding any_suffix intra_segment_subset
segment_subset [] ds = is_empty ds
segment_subset (p ∷ ps) [] = every (λ q. str_eq q "**") (p ∷ ps)
segment_subset (p ∷ ps) (d ∷ ds) =
    let rest = segment_subset ps ds in
    let absorbed = any_suffix (segment_subset ps) (d ∷ ds) in
    if str_eq p "**"
    then (is_empty ps || absorbed)
    else if str_eq d "**"
    then false
    else (intra_segment_subset p d && rest)

unfoldable pub is_restricted_glob_refinement : String → String → Bool
unfolding segment_subset split
is_restricted_glob_refinement parent delegate =
    if str_eq parent delegate
    then true
    else segment_subset (split b'/' parent) (split b'/' delegate)

refine_tests :
    (is_restricted_glob_refinement "/claims/CLM-*" "/claims/CLM-2026-*" ≡ true)
    × (is_restricted_glob_refinement "/claims/*" "/claims/**" ≡ false)
    × (is_restricted_glob_refinement "/claims/**" "/claims/a/b" ≡ true)
    × (is_restricted_glob_refinement "/claims/CLM-2026-*" "/claims/CLM-*" ≡ false)
unfolding is_restricted_glob_refinement
refine_tests = (refl, refl, refl, refl)
