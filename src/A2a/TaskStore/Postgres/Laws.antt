-- ===== src/A2a/TaskStore/Postgres/Laws.antt =====
-- The store in Postgres of extensions/a2a/receiver-middleware/src/index.js keeps the contract of a
-- task store.
use mathlib.Core.Path.{subst}
use aiagent_portable_authori.Base.{
  Option, Option-cases, ◌≢◌, find?-test, if_holds, String, Bool, true, false, ◌≡◌, refl, ◌∙◌, none,
  some, [], ◌∷◌, arith, inl, inr, eq_iff, str_eq, Bool-cases, if◌then◌else◌, any, filter, find?,
}
use aiagent_portable_authori.A2a.TaskStore.{TaskRecord, Patch, Created, IsLawful}
use aiagent_portable_authori.A2a.TaskStore.Postgres.{
  Rows, clashes, row_of, patch_row, update_rows, update, get, get_by_idempotency_key, raced_with,
  updated_row, insert_row, select_existing, create_between, create_pending, postgres_store,
}

-- No two rows have one id or one key: PRIMARY KEY and UNIQUE.
abbrev pub IsValid : Rows → Type 0
IsValid [] = Unit
IsValid (row ∷ rows) = (any (clashes row) rows ≡ false) × IsValid rows

abbrev pub IsUnused : Rows → String → Type 0
IsUnused rows id = get rows id ≡ none

any-find? :
    (p q : TaskRecord → Bool) (rows : Rows) (r : TaskRecord)
    → find? p rows ≡ some r
    → any q rows ≡ false
    → q r ≡ false
any-find? p q [] r h k = ground arith
any-find? p q (row ∷ rows) r h k = ground (arith, any-find? p q rows r)

no_clash :
    (given : TaskRecord) (rows : Rows)
    → IsUnused rows given.id
    → get_by_idempotency_key rows given.idempotency_key ≡ none
    → any (clashes given) rows ≡ false
unfolding get get_by_idempotency_key
no_clash given [] u h = refl
no_clash given (row ∷ rows) u h = ground (arith, no_clash given rows)

filter-eq_nil : (q : TaskRecord → Bool) (rows : Rows) → any q rows ≡ false → filter q rows ≡ []
filter-eq_nil q [] h = refl
filter-eq_nil q (row ∷ rows) h = ground (arith, filter-eq_nil q rows)

not_found_after :
    (row : TaskRecord) (rows : Rows)
    → any (clashes row) rows ≡ false
    → get_by_idempotency_key rows row.idempotency_key ≡ none
unfolding get_by_idempotency_key
not_found_after row [] h = refl
not_found_after row (x ∷ rows) h = ground (arith, not_found_after row rows)

filter-clashes :
    (given r : TaskRecord) (rows : Rows)
    → IsValid rows
    → IsUnused rows given.id
    → get_by_idempotency_key rows given.idempotency_key ≡ some r
    → filter (clashes given) rows ≡ r ∷ []
unfolding get get_by_idempotency_key
filter-clashes given r [] v u h = ground arith
filter-clashes given r (row ∷ rows) (apart, v) u h =
    elim (Bool-cases (str_eq row.idempotency_key given.idempotency_key)) [
      | inl e ↦
          let rest : get_by_idempotency_key rows row.idempotency_key ≡ none =
            not_found_after row rows apart in
          let none_there : get_by_idempotency_key rows given.idempotency_key ≡ none =
            rw (← (eq_iff row.idempotency_key given.idempotency_key).0 e) rest in
          ground (
            arith,
            filter-eq_nil (clashes given) rows (no_clash given rows (ground arith) none_there),
          )
      | inr e ↦ ground (arith, filter-clashes given r rows v)
    ]

-- The row of the key is the only one that an update of its id reaches.
update-reaches :
    (rows : Rows) (r : TaskRecord) (patch : Patch) (now : String)
    → IsValid rows
    → get_by_idempotency_key rows r.idempotency_key ≡ some r
    → get (update_rows rows r.id patch now) r.id ≡ some (patch_row r patch now)
unfolding get get_by_idempotency_key update_rows
update-reaches [] r patch now v h = ground arith
update-reaches (row ∷ rows) r patch now (apart, v) h =
    elim (Bool-cases (str_eq row.idempotency_key r.idempotency_key)) [
      | inl e ↦ let same : row ≡ r = ground arith in rw same (ground (arith, eq_iff r.id r.id))
      | inr e ↦ ground (
        arith,
        update-reaches rows r patch now v,
        eq_iff r.id row.id,
        eq_iff row.id r.id,
        any-find? (λ x. str_eq x.idempotency_key r.idempotency_key) (clashes row) rows r,
      )
    ]

any-update_rows :
    (given : TaskRecord) (rows : Rows) (id : String) (patch : Patch) (now : String)
    → any (clashes given) (update_rows rows id patch now) ≡ any (clashes given) rows
unfolding update_rows
any-update_rows given [] id patch now = refl
any-update_rows given (row ∷ rows) id patch now = elim (Bool-cases (str_eq row.id id)) [
  | inl e ↦ rw e refl
  | inr e ↦ rw e (rw (any-update_rows given rows id patch now) refl)
]

clashes-patch_row :
    (row x : TaskRecord) (patch : Patch) (now : String)
    → clashes (patch_row row patch now) x ≡ clashes row x
unfolding patch_row
clashes-patch_row row x patch now = refl

any-patch_row :
    (row : TaskRecord) (rows : Rows) (patch : Patch) (now : String)
    → any (clashes (patch_row row patch now)) rows ≡ any (clashes row) rows
unfolding patch_row
any-patch_row row rows patch now = refl

update_rows-IsValid :
    (rows : Rows) (id : String) (patch : Patch) (now : String)
    → IsValid rows
    → IsValid (update_rows rows id patch now)
unfolding update_rows
update_rows-IsValid [] id patch now v = tt
update_rows-IsValid (row ∷ rows) id patch now (apart, v) =
    if_holds IsValid (str_eq row.id id) (λ _. (any-patch_row row rows patch now ∙ apart, v))
      (λ _.
        (any-update_rows row rows id patch now ∙ apart, update_rows-IsValid rows id patch now v))

get-update_rows :
    (rows : Rows) (r : TaskRecord) (patch : Patch) (now other : String)
    → IsValid rows
    → get_by_idempotency_key rows r.idempotency_key ≡ some r
    → get_by_idempotency_key (update_rows rows r.id patch now) other ≡ (
        if str_eq r.idempotency_key other
        then some (patch_row r patch now)
        else get_by_idempotency_key rows other)
unfolding get_by_idempotency_key update_rows patch_row
get-update_rows [] r patch now other v h = ground arith
get-update_rows (row ∷ rows) r patch now other (apart, v) h =
    elim (Bool-cases (str_eq row.idempotency_key r.idempotency_key)) [
      | inl e ↦ let same : row ≡ r = ground arith in rw same (ground (arith, eq_iff r.id r.id))
      | inr e ↦ ground (
        arith,
        get-update_rows rows r patch now other v,
        eq_iff r.id row.id,
        eq_iff row.id r.id,
        eq_iff row.idempotency_key other,
        eq_iff r.idempotency_key other,
        eq_iff row.idempotency_key r.idempotency_key,
        any-find? (λ x. str_eq x.idempotency_key r.idempotency_key) (clashes row) rows r,
      )
    ]

filter-clash_any :
    (q : TaskRecord → Bool) (rows : Rows) (r : TaskRecord)
    → filter q rows ≡ r ∷ []
    → any q rows ≡ true
filter-clash_any q [] r h = ground arith
filter-clash_any q (row ∷ rows) r h = ground (arith, filter-clash_any q rows r)

update-eq :
    (rows : Rows) (r : TaskRecord) (patch : Patch) (now : String)
    → IsValid rows
    → get_by_idempotency_key rows r.idempotency_key ≡ some r
    → update rows r.id patch now ≡ some (update_rows rows r.id patch now, patch_row r patch now)
unfolding update get
update-eq rows r patch now v h = rw (update-reaches rows r patch now v h) refl

some-fst :
    {A B : Type 0} {a c : A} {b d : B} → Path (Option (A × B)) (some (a, b)) (some (c, d)) → a ≡ c
some-fst h = cc

update_rows-IsUnused :
    (rows : Rows) (id : String) (patch : Patch) (now other : String)
    → IsUnused rows other
    → IsUnused (update_rows rows id patch now) other
unfolding get update_rows patch_row
update_rows-IsUnused [] id patch now other u = refl
update_rows-IsUnused (row ∷ rows) id patch now other u =
    if_holds (λ x. IsUnused x other) (str_eq row.id id) (λ _. ground arith)
      (λ _. ground (arith, update_rows-IsUnused rows id patch now other))

updated_row-IsUnused :
    (rows rows' : Rows) (found : Option TaskRecord) (r : TaskRecord) (other : String)
    → updated_row rows found ≡ some (rows', r)
    → IsUnused rows other
    → IsUnused rows' other
updated_row-IsUnused rows rows' none r other h u = absurd (ground arith)
updated_row-IsUnused rows rows' (some x) r other h u = subst (λ y. IsUnused y other) (some-fst h) u

row_of-IsUnused :
    (rows : Rows) (given : TaskRecord) (now id : String)
    → IsUnused rows id
    → id ≢ given.id
    → IsUnused (row_of given now ∷ rows) id
unfolding get row_of
row_of-IsUnused rows given now id u apart = ground (arith, eq_iff given.id id)

module _ (is_newer : TaskRecord → TaskRecord → Bool) where
  raced-fst :
      (rows rows' : Rows) (o : Option TaskRecord) (c : Created)
      → raced_with is_newer rows o ≡ some (rows', c)
      → rows ≡ rows'
  raced-fst rows rows' none c h = absurd (ground arith)
  raced-fst rows rows' (some r) c h = some-fst h

  create_pending-IsUnused :
      (rows rows' : Rows) (given : TaskRecord) (now : String) (c : Created)
      → create_pending is_newer rows given now ≡ some (rows', c)
      → (id : String) → IsUnused rows id
      → id ≢ given.id
      → IsUnused rows' id
  unfolding create_pending create_between insert_row
  create_pending-IsUnused rows rows' given now c h id u apart =
      elim (Option-cases (select_existing is_newer rows given)) [
        | inr (r, e) ↦
            subst (λ x. IsUnused x id) (some-fst (rw (e, create_pending, create_between) at h)) u
        | inl e ↦ elim (Bool-cases (any (clashes (row_of given now)) rows)) [
          | inl t ↦
              subst (λ x. IsUnused x id)
                (raced-fst rows rows' (select_existing is_newer rows given) c
                  (rw (e, insert_row, t, create_pending, create_between) at h))
                u
          | inr t ↦
              subst (λ x. IsUnused x id)
                (some-fst (rw (e, insert_row, t, create_pending, create_between) at h))
                (row_of-IsUnused rows given now id u apart)
        ]
      ]

  create_pending-eq_found :
      (rows : Rows) (given r : TaskRecord) (now : String)
      → IsValid rows
      → IsUnused rows given.id
      → get_by_idempotency_key rows given.idempotency_key ≡ some r
      → create_pending is_newer rows given now
        ≡ some (rows, record { created = false; record_found = r })
  unfolding create_pending
  create_pending-eq_found rows given r now v u h = ground (arith, filter-clashes given r rows v u h)

  create_pending-eq_new :
      (rows : Rows) (given : TaskRecord) (now : String)
      → IsUnused rows given.id
      → get_by_idempotency_key rows given.idempotency_key ≡ none
      → create_pending is_newer rows given now
        ≡ some (row_of given now ∷ rows, record { created = true; record_found = row_of given now })
  unfolding create_pending
  create_pending-eq_new rows given now u h =
      ground (
        arith,
        filter-eq_nil (clashes given) rows (no_clash given rows u h),
        no_clash given rows u h,
      )

  -- Two requests with one key race to insert it: the one that comes second gets the record of the
  -- first, and the table is as the first has left it.
  pub create_between-raced :
      (rows rows' : Rows) (given r : TaskRecord) (now : String)
      → IsValid rows'
      → IsUnused rows given.id
      → IsUnused rows' given.id
      → get_by_idempotency_key rows given.idempotency_key ≡ none
      → get_by_idempotency_key rows' given.idempotency_key ≡ some r
      → create_between is_newer rows rows' given now
        ≡ some (rows', record { created = false; record_found = r })
  unfolding create_between
  create_between-raced rows rows' given r now v u u' h h' =
      let found = filter-clashes given r rows' v u' h' in
      ground (
        arith,
        filter-eq_nil (clashes given) rows (no_clash given rows u h),
        found,
        filter-clash_any (clashes given) rows' r found,
      )

  -- The store in Postgres keeps the contract of a task store, its two unique columns and the order of
  -- its selections included: records are found by their keys, one to a key, a record is made only
  -- for a key that has none, and an update reaches the record of its id and keeps its key.
  pub postgres_store-IsLawful : IsLawful (postgres_store is_newer)
  unfolding update get_by_idempotency_key get row_of patch_row
  postgres_store-IsLawful = record {
    IsValid = IsValid;
    IsUnused = IsUnused;
    initial = [];
    initial_valid = tt;
    initial_empty = λ key. refl;
    initial_unused = λ id h. refl;
    create_unused = create_pending-IsUnused;
    update_unused = λ rows rows' id patch now r h other u.
        updated_row-IsUnused (update_rows rows id patch now) rows' _ r other h
          (update_rows-IsUnused rows id patch now other u);
    found_key = λ rows key r v h.
        (eq_iff r.idempotency_key key).0
          (find?-test (λ row. str_eq row.idempotency_key key) rows r h);
    create_found = λ rows given r now v u h. create_pending-eq_found rows given r now v u h;
    create_new = λ rows given now v u h. (
      row_of given now ∷ rows,
      (
        row_of given now,
        create_pending-eq_new rows given now u h,
        record { same_id = refl; same_key = refl; lifecycle = refl; answer = refl },
        (no_clash given rows u h, v),
        λ other. refl,
      ),
    );
    update_found = λ rows r patch now v h. (
      update_rows rows r.id patch now,
      (
        patch_row r patch now,
        update-eq rows r patch now v h,
        record { same_id = refl; same_key = refl; lifecycle = refl; answer = refl },
        update_rows-IsValid rows r.id patch now v,
        λ other. get-update_rows rows r patch now other v h,
      ),
    );
  }
