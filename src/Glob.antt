-- ===== src/Glob.antt =====
-- The restricted glob of portauth-engine/src/services/constraintEvaluator.js: `**` matches any
-- text without a line terminator, `*` any text without `/`, another character itself. The regular
-- expression that the source builds is a list of tokens here, and its test a function. Texts are
-- code points.
pub mod Refine
pub mod Laws
use aiagent_portable_authori.Base.{
  ℕ, Bool, true, false, not, ◌&&◌, ◌||◌, List, [], ◌∷◌, if◌then◌else◌, ◌==◌, is_empty,
}
use aiagent_portable_authori.Base.Text.{Codes}

pub data Token : Type 0 where
  lit : ℕ → Token
  any_segment any_text : Token

-- `[^/]`
abbrev pub not_slash : ℕ → Bool
not_slash c = not (c == b'/')

-- `.`, which stops at the four line terminators.
abbrev pub not_newline : ℕ → Bool
not_newline c = not (c == 10 || c == 13 || c == 0x2028 || c == 0x2029)

-- `X*` before the rest `k` of the expression, for a class `X` of characters.
unfoldable pub star_match : (ℕ → Bool) → (Codes → Bool) → Codes → Bool
star_match allow k [] = k []
star_match allow k (c ∷ s) = k (c ∷ s) || (allow c && star_match allow k s)

-- `re.test(s)` for an expression anchored at both ends.
unfoldable pub matches : List Token → Codes → Bool
unfolding star_match
matches [] s = is_empty s
matches (lit c ∷ ts) [] = false
matches (lit c ∷ ts) (d ∷ s) = (c == d) && matches ts s
matches (any_segment ∷ ts) s = star_match not_slash (matches ts) s
matches (any_text ∷ ts) s = star_match not_newline (matches ts) s

-- The pattern, translated from the left. The source's placeholder for `**` is the character 0, so
-- that character in a pattern means `**` too.
unfoldable pub compile : Codes → List Token
compile [] = []
compile (c ∷ []) = (if c == b'*' then any_segment else if c == 0 then any_text else lit c) ∷ []
compile (c ∷ d ∷ s) =
    let pair = any_text ∷ compile s in
    let rest = compile (d ∷ s) in
    if c == b'*'
    then (if d == b'*' then pair else any_segment ∷ rest)
    else if c == 0
    then any_text ∷ rest
    else lit c ∷ rest

unfoldable pub glob_test : Codes → Codes → Bool
unfolding compile matches
glob_test pattern s = matches (compile pattern) s
