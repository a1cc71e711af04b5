-- ===== src/Glob/Laws.antt =====
-- Laws of the comparison of globs within a segment.
use mathlib.Core.List.{append-nil, append_assoc}
use aiagent_portable_authori.Base.{
  ℕ, String, true, false, ◌≡◌, refl, ◌≢◌, List, [], ◌∷◌, ◌++◌, ap, sym, ◌∙◌, arith, All, Bool-cases,
  inl, inr, str_eq, eq_iff, &&-eq-true, ◌==◌,
}
use aiagent_portable_authori.Base.Text.{Codes, codes}
use aiagent_portable_authori.Glob.{matches, glob_test}
use aiagent_portable_authori.Glob.Refine.{
  SegToken, flush, tokenize_from, tokenize_segment, token_subset, compile_segment_regex, join_with,
  intra_segment_subset, literals,
}

abbrev pub NoStar : Codes → Type 0
NoStar = All (λ c. c ≢ b'*')

tokenize_from-NoStar :
    (buf seg : Codes) → NoStar seg → tokenize_from [] buf seg ≡ flush [] (buf ++ seg)
unfolding tokenize_from
tokenize_from-NoStar buf [] _ = ap (flush []) (sym (append-nil buf))
tokenize_from-NoStar buf (c ∷ seg) (h, hs) =
    let e : (c == b'*') ≡ false = ground arith in
    rw e
      (tokenize_from-NoStar (buf ++ c ∷ []) seg hs ∙ ap (flush []) (append_assoc buf (c ∷ []) seg))

join_with-flush : (seg : Codes) → join_with [] (flush [] seg) ≡ seg
unfolding join_with
join_with-flush [] = refl
join_with-flush (c ∷ seg) = append-nil (c ∷ seg)

matches-literals : (s : Codes) → matches (literals s) s ≡ true
unfolding matches literals
matches-literals [] = refl
matches-literals (c ∷ s) = ground (arith, matches-literals s)

matches-flush : (s : Codes) → matches (compile_segment_regex (flush [] s)) s ≡ true
unfolding compile_segment_regex
matches-flush [] = unfold matches in refl
matches-flush (c ∷ s) = rw append-nil (matches-literals (c ∷ s))

token_subset-matches :
    (parent delegate : List SegToken)
    → token_subset parent delegate ≡ true
    → matches (compile_segment_regex parent) (join_with [] delegate) ≡ true
unfolding token_subset
token_subset-matches parent delegate h = (&&-eq-true _ _ (&&-eq-true _ _ h).0).0

-- A segment without `*` that the check accepts under a parent's segment is a text that the
-- parent's segment matches.
pub intra_segment_subset-literal :
    (parent delegate : String)
    → NoStar (codes delegate)
    → intra_segment_subset parent delegate ≡ true
    → matches (compile_segment_regex (tokenize_segment (codes parent))) (codes delegate) ≡ true
unfolding intra_segment_subset
intra_segment_subset-literal parent delegate plain h =
    let tokens : tokenize_segment (codes delegate) ≡ flush [] (codes delegate) =
      tokenize_from-NoStar [] (codes delegate) plain in
    elim (Bool-cases (str_eq parent delegate)) [
      | inl same ↦ rw ((eq_iff parent delegate).0 same) (rw tokens (matches-flush (codes delegate)))
      | inr other ↦
          let accepted : token_subset (tokenize_segment (codes parent))
                (tokenize_segment (codes delegate))
              ≡ true =
            rw other at h in
          let joined : join_with [] (tokenize_segment (codes delegate)) ≡ codes delegate =
            ap (join_with []) tokens ∙ join_with-flush (codes delegate) in
          rw joined at (
            token_subset-matches (tokenize_segment (codes parent))
              (tokenize_segment (codes delegate)) accepted)
    ]

-- The check accepts `c*x` under `cx*` for every character `c` but `*` and the character 0, and yet
-- the text `cdx` matches the first glob and not the second, for every `d` but `/` and `x`: its
-- probe replaces a star by the letter x alone.
pub token_subset-too_wide :
    (c d : ℕ)
    → c ≢ b'*'
    → c ≢ 0
    → d ≢ b'/'
    → d ≢ b'x'
    → (token_subset
          (tokenize_segment (c ∷ b'x' ∷ b'*' ∷ []))
          (tokenize_segment (c ∷ b'*' ∷ b'x' ∷ []))
        ≡ true)
      × (glob_test (c ∷ b'*' ∷ b'x' ∷ []) (c ∷ d ∷ b'x' ∷ []) ≡ true)
      × (glob_test (c ∷ b'x' ∷ b'*' ∷ []) (c ∷ d ∷ b'x' ∷ []) ≡ false)
unfolding token_subset tokenize_segment glob_test
token_subset-too_wide c d star zero slash other =
    let e : (c == b'*') ≡ false = ground arith in
    let z : (c == 0) ≡ false = ground arith in
    let r : (c == c) ≡ true = ground arith in
    let x : (b'x' == d) ≡ false = ground arith in
    let s : (d == b'/') ≡ false = ground arith in
    (rw e (rw r), rw (e, z) (rw r (rw s (rw x))), rw (e, z) (rw r (rw x)))
