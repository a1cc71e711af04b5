-- ===== src/Semantic/Profiles.antt =====
-- Laws of `buildMappingCacheFromRows`.
use aiagent_portable_authori.Base.{
  ℕ, String, false, ◌≡◌, refl, ◌≢◌, inl, inr, Option, none, some, List, [], ◌∷◌, ap, sym, ◌∙◌,
  arith, str_eq, if◌then◌else◌, filter, All, Bool-cases, eq_iff,
}
use aiagent_portable_authori.Base.Assoc.{lookup, lookup-insert}
use aiagent_portable_authori.Codes.{semantic_alias_conflict}
use aiagent_portable_authori.Semantic.{
  Row, Mapping, Mappings, is_invalid, mapping_of, entry_for, add_row, add_rows,
  build_mapping_cache_from_rows,
}

abbrev pub rows_for : String → List Row → List Row
rows_for name rows = filter (λ r. str_eq r.semantic_field name) rows

-- The entry of one identifier, as its own rows build it up.
abbrev entry_from : ℕ → Option Mapping → List Row → Option Mapping
entry_from now e [] = e
entry_from now e (row ∷ rows) = entry_from now (some (entry_for e (mapping_of now row))) rows

lookup-add_row :
    (now : ℕ) (name : String) (m : Mappings) (row : Row)
    → lookup name (add_row now m row) ≡ (
        if str_eq row.semantic_field name
        then some (entry_for (lookup name m) (mapping_of now row))
        else lookup name m)
unfolding add_row
lookup-add_row now name m row = ground (
  arith,
  eq_iff row.semantic_field name,
  lookup-insert row.semantic_field name
      (entry_for (lookup row.semantic_field m) (mapping_of now row)) m,
)

lookup-add_rows :
    (now : ℕ) (name : String) (m : Mappings) (rows : List Row)
    → lookup name (add_rows now m rows) ≡ entry_from now (lookup name m) (rows_for name rows)
unfolding add_rows
lookup-add_rows now name m [] = refl
lookup-add_rows now name m (row ∷ rows) = elim (Bool-cases (str_eq row.semantic_field name)) [
  | inl e ↦
      lookup-add_rows now name (add_row now m row) rows
      ∙ rw e
          (ap (λ x. entry_from now x (rows_for name rows)) (lookup-add_row now name m row ∙ rw e))
  | inr e ↦
      lookup-add_rows now name (add_row now m row) rows
      ∙ rw e
          (ap (λ x. entry_from now x (rows_for name rows)) (lookup-add_row now name m row ∙ rw e))
]

-- The cache's entry for an identifier depends on that identifier's rows alone, in their order.
lookup-build :
    (name : String) (rows : List Row) (now : ℕ)
    → lookup name (build_mapping_cache_from_rows rows now)
      ≡ entry_from now none (rows_for name rows)
unfolding build_mapping_cache_from_rows lookup
lookup-build name rows now = lookup-add_rows now name [] rows

-- Rows whose profiles are pairwise different, as the table's UNIQUE(profile_id, semantic_field)
-- makes the rows of one identifier.
abbrev pub DistinctProfiles : List Row → Type 0
DistinctProfiles [] = Unit
DistinctProfiles (r ∷ rs) = All (λ s. s.profile_id ≢ r.profile_id) rs × DistinctProfiles rs

entry_for-conflict :
    (now : ℕ) (mapping : Mapping) (row : Row)
    → row.profile_id ≢ mapping.profile_id
    → (entry_for (some mapping) (mapping_of now row)).error_code ≡ some semantic_alias_conflict
unfolding entry_for mapping_of
entry_for-conflict now mapping row d = ground (arith, eq_iff mapping.profile_id row.profile_id)

entry_for-profile_id :
    (now : ℕ) (e : Option Mapping) (row : Row)
    → (entry_for e (mapping_of now row)).profile_id ≡ row.profile_id
unfolding entry_for mapping_of
entry_for-profile_id now none row = refl
entry_for-profile_id now (some mapping) row = ground arith

entry_from-conflict :
    (now : ℕ) (mapping : Mapping) (rows : List Row)
    → All (λ s. s.profile_id ≢ mapping.profile_id) rows
    → DistinctProfiles rows
    → (rows ≡ [] → mapping.error_code ≡ some semantic_alias_conflict)
    → (mp : Mapping) × (entry_from now (some mapping) rows ≡ some mp)
      × (mp.error_code ≡ some semantic_alias_conflict)
entry_from-conflict now mapping [] _ _ c = (mapping, refl, c refl)
entry_from-conflict now mapping (row ∷ rows) (d, _) (ds, rest) _ =
    entry_from-conflict now (entry_for (some mapping) (mapping_of now row)) rows
      (rw entry_for-profile_id ds) rest (λ _. entry_for-conflict now mapping row d)

-- Two rows or more for one identifier, in different profiles each, leave a conflict in the cache.
pub build-conflict :
    (name : String) (rows : List Row) (now : ℕ) (r s : Row) (rest : List Row)
    → rows_for name rows ≡ r ∷ s ∷ rest
    → DistinctProfiles (rows_for name rows)
    → (mp : Mapping) × (lookup name (build_mapping_cache_from_rows rows now) ≡ some mp)
      × (mp.error_code ≡ some semantic_alias_conflict)
unfolding entry_for mapping_of
build-conflict name rows now r s rest e d =
    let (ds, rest_distinct) : DistinctProfiles (r ∷ s ∷ rest) = rw e at d in
    let (mp, found, code) =
      entry_from-conflict now (entry_for none (mapping_of now r)) (s ∷ rest)
        (rw entry_for-profile_id ds) rest_distinct (λ n. cc n) in
    (mp, lookup-build name rows now ∙ rw e found, code)

single_entry :
    (now : ℕ) (r : Row) (mp : Mapping)
    → entry_for none (mapping_of now r) ≡ mp
    → mp.error_code ≡ none
    → (is_invalid now r ≡ false) × (mp ≡ mapping_of now r)
unfolding entry_for mapping_of
single_entry now r mp e c = ground arith

-- An entry without an error comes from the only row of its identifier, which is trusted and not
-- expired, and carries that row's alias and type.
pub build-error_free :
    (name : String) (rows : List Row) (now : ℕ) (mp : Mapping)
    → DistinctProfiles (rows_for name rows)
    → lookup name (build_mapping_cache_from_rows rows now) ≡ some mp
    → mp.error_code ≡ none
    → (r : Row) × (rows_for name rows ≡ r ∷ [])
      × (is_invalid now r ≡ false)
      × (mp ≡ mapping_of now r)
build-error_free name rows now mp d found clean = go (rows_for name rows) refl
  where
    go :
        (own : List Row)
        → rows_for name rows ≡ own
        → (r : Row) × (rows_for name rows ≡ r ∷ [])
          × (is_invalid now r ≡ false)
          × (mp ≡ mapping_of now r)
    go [] e = cc (lookup-build name rows now, ap (entry_from now none) e)
    go (r ∷ []) e =
        let same : some (entry_for none (mapping_of now r)) ≡ some mp =
          sym (ap (entry_from now none) e) ∙ sym (lookup-build name rows now) ∙ found in
        let inner : entry_for none (mapping_of now r) ≡ mp = cc same in
        let (valid, copied) = single_entry now r mp inner clean in (r, e, valid, copied)
    go (r ∷ s ∷ rest) e =
        let (other, found', code) = build-conflict name rows now r s rest e d in cc
