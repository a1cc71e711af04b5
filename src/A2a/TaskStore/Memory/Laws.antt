-- ===== src/A2a/TaskStore/Memory/Laws.antt =====
-- The store in memory of extensions/a2a/receiver-middleware/src/index.js keeps the contract of a
-- task store.
use mathlib.Core.Path.{subst}
use aiagent_portable_authori.Base.{
  Option, ◌≢◌, [], String, true, false, ◌≡◌, refl, none, some, arith, inl, inr, eq_iff, str_eq,
  Option-cases, Bool-cases,
}
use aiagent_portable_authori.Base.Assoc.{lookup, lookup-insert}
use aiagent_portable_authori.Value.{is_blank}
use aiagent_portable_authori.A2a.TaskStore.{TaskRecord, Patch, Created, SetsKey, IsLawful}
use aiagent_portable_authori.A2a.TaskStore.Memory.{
  MemoryStore, get_by_idempotency_key, find_existing, create_pending, update, patch_record, stored,
  dated, memory_store,
}

-- The two maps agree.
pub record IsValid (s : MemoryStore) : Type 0 where
  pub indexed :
      (key id : String)
      → lookup key s.ids_by_idempotency_key ≡ some id
      → (is_blank id ≡ false)
        × ((r : TaskRecord) × (lookup id s.records_by_id ≡ some r) × (r.idempotency_key ≡ key))
  pub recorded :
      (id : String) (r : TaskRecord)
      → lookup id s.records_by_id ≡ some r
      → (r.id ≡ id) × (lookup r.idempotency_key s.ids_by_idempotency_key ≡ some id)

abbrev pub IsUnused : MemoryStore → String → Type 0
IsUnused s id = (lookup id s.records_by_id ≡ none) × (is_blank id ≡ false)

-- A record that may be stored: its id and its key belong to no other.
pub record Fits (s : MemoryStore) (r : TaskRecord) : Type 0 where
  pub filled : is_blank r.id ≡ false
  pub by_id :
      (old : TaskRecord)
      → lookup r.id s.records_by_id ≡ some old
      → old.idempotency_key ≡ r.idempotency_key
  pub by_key :
      (id : String) → lookup r.idempotency_key s.ids_by_idempotency_key ≡ some id → id ≡ r.id

stored-indexed :
    (s : MemoryStore) (r : TaskRecord)
    → IsValid s
    → Fits s r
    → (key id : String) → lookup key (stored s r).ids_by_idempotency_key ≡ some id
    → (is_blank id ≡ false)
      × ((x : TaskRecord) × (lookup id (stored s r).records_by_id ≡ some x)
          × (x.idempotency_key ≡ key))
stored-indexed s r v f key id h = elim (Bool-cases (str_eq r.idempotency_key key)) [
  | inl e ↦
      let same : r.id ≡ id =
        ground (arith, lookup-insert r.idempotency_key key r.id s.ids_by_idempotency_key) in
      (
        rw (← same) f.filled,
        (
          r,
          rw (← same) (ground (arith, lookup-insert r.id r.id r s.records_by_id, eq_iff r.id r.id)),
          (eq_iff r.idempotency_key key).0 e,
        ),
      )
  | inr e ↦
      let old : lookup key s.ids_by_idempotency_key ≡ some id =
        ground (arith, lookup-insert r.idempotency_key key r.id s.ids_by_idempotency_key) in
      let (filled, (x, found, k)) = v.indexed key id old in
      elim (Bool-cases (str_eq r.id id)) [
        | inl i ↦
            let x_key : x.idempotency_key ≡ r.idempotency_key =
              f.by_id x (rw ((eq_iff r.id id).0 i) found) in
            absurd (ground (arith, eq_iff r.idempotency_key key))
        | inr i ↦ (filled, (x, ground (arith, lookup-insert r.id id r s.records_by_id), k))
      ]
]

stored-recorded :
    (s : MemoryStore) (r : TaskRecord)
    → IsValid s
    → Fits s r
    → (id : String) (x : TaskRecord) → lookup id (stored s r).records_by_id ≡ some x
    → (x.id ≡ id) × (lookup x.idempotency_key (stored s r).ids_by_idempotency_key ≡ some id)
stored-recorded s r v f id x h = elim (Bool-cases (str_eq r.id id)) [
  | inl i ↦
      let same : r ≡ x = ground (arith, lookup-insert r.id id r s.records_by_id) in
      let found : r.id ≡ id = (eq_iff r.id id).0 i in
      rw (← same) (
        found,
        ground (
          arith,
          eq_iff r.idempotency_key r.idempotency_key,
          lookup-insert r.idempotency_key r.idempotency_key r.id s.ids_by_idempotency_key,
        ),
      )
  | inr i ↦
      let old : lookup id s.records_by_id ≡ some x =
        ground (arith, lookup-insert r.id id r s.records_by_id) in
      let (same, found) = v.recorded id x old in
      elim (Bool-cases (str_eq r.idempotency_key x.idempotency_key)) [
        | inl k ↦
            let back : id ≡ r.id =
              f.by_key id (rw ((eq_iff r.idempotency_key x.idempotency_key).0 k) found) in
            absurd (ground (arith, eq_iff r.id id))
        | inr k ↦ (
          same,
          ground (
            arith,
            lookup-insert r.idempotency_key x.idempotency_key r.id s.ids_by_idempotency_key,
          ),
        )
      ]
]

pub stored-IsValid :
    (s : MemoryStore) (r : TaskRecord) → IsValid s → Fits s r → IsValid (stored s r)
stored-IsValid s r v f = record {
  indexed = stored-indexed s r v f;
  recorded = stored-recorded s r v f;
}

-- What a key that is found says.
pub record Found (s : MemoryStore) (key : String) (r : TaskRecord) : Type 0 where
  pub by_key : lookup key s.ids_by_idempotency_key ≡ some r.id
  pub by_id : lookup r.id s.records_by_id ≡ some r
  pub same_key : r.idempotency_key ≡ key
  pub filled : is_blank r.id ≡ false

pub get-Found :
    (s : MemoryStore) (key : String) (r : TaskRecord)
    → IsValid s
    → get_by_idempotency_key s key ≡ some r
    → Found s key r
unfolding get_by_idempotency_key
get-Found s key r v h = elim (Option-cases (lookup key s.ids_by_idempotency_key)) [
  | inl e ↦ absurd (ground arith)
  | inr (id, e) ↦
      let (filled, (x, found, k)) = v.indexed key id e in
      let same : x ≡ r = ground arith in
      let (own, _) = v.recorded id x found in
      record {
        by_key = ground arith;
        by_id = ground arith;
        same_key = ground arith;
        filled = ground arith;
      }
]

-- A key that is not found is in neither map.
get-eq_none :
    (s : MemoryStore) (key : String)
    → IsValid s
    → get_by_idempotency_key s key ≡ none
    → lookup key s.ids_by_idempotency_key ≡ none
unfolding get_by_idempotency_key
get-eq_none s key v h = elim (Option-cases (lookup key s.ids_by_idempotency_key)) [
  | inl e ↦ e
  | inr (id, e) ↦ let (filled, (x, found, k)) = v.indexed key id e in absurd (ground arith)
]

pub get-stored :
    (s : MemoryStore) (r : TaskRecord)
    → IsValid s
    → Fits s r
    → SetsKey memory_store s r.idempotency_key r (stored s r)
unfolding get_by_idempotency_key
get-stored s r v f other = elim (Bool-cases (str_eq r.idempotency_key other)) [
  | inl e ↦ ground (
    arith,
    f.filled,
    eq_iff r.id r.id,
    lookup-insert r.idempotency_key other r.id s.ids_by_idempotency_key,
    lookup-insert r.id r.id r s.records_by_id,
  )
  | inr e ↦ elim (Option-cases (lookup other s.ids_by_idempotency_key)) [
    | inl o ↦ ground (arith, lookup-insert r.idempotency_key other r.id s.ids_by_idempotency_key)
    | inr (id, o) ↦
        let (filled, (x, found, k)) = v.indexed other id o in
        elim (Bool-cases (str_eq r.id id)) [
          | inl i ↦
              let x_key : x.idempotency_key ≡ r.idempotency_key =
                f.by_id x (rw ((eq_iff r.id id).0 i) found) in
              absurd (ground (arith, eq_iff r.idempotency_key other))
          | inr i ↦ ground (
            arith,
            lookup-insert r.idempotency_key other r.id s.ids_by_idempotency_key,
            lookup-insert r.id id r s.records_by_id,
          )
        ]
  ]
]

pub new-Fits :
    (s : MemoryStore) (r : TaskRecord)
    → IsValid s
    → IsUnused s r.id
    → get_by_idempotency_key s r.idempotency_key ≡ none
    → Fits s r
new-Fits s r v u h = record {
  filled = u.1;
  by_id = λ old e. absurd (ground (arith, u.0));
  by_key = λ id e. absurd (ground (arith, get-eq_none s r.idempotency_key v h));
}

pub patched-Fits :
    (s : MemoryStore) (r : TaskRecord) (patch : Patch) (now : String)
    → Found s r.idempotency_key r
    → Fits s (patch_record r patch now)
unfolding patch_record
patched-Fits s r patch now f = record {
  filled = f.filled;
  by_id = λ old e. ground (arith, f.by_id);
  by_key = λ id e. ground (arith, f.by_key);
}

pub create_pending-eq_found :
    (s : MemoryStore) (given r : TaskRecord) (now : String)
    → IsUnused s given.id
    → get_by_idempotency_key s given.idempotency_key ≡ some r
    → create_pending s given now ≡ some (s, record { created = false; record_found = r })
unfolding create_pending
create_pending-eq_found s given r now u h = ground arith

pub create_pending-eq_new :
    (s : MemoryStore) (given : TaskRecord) (now : String)
    → IsUnused s given.id
    → get_by_idempotency_key s given.idempotency_key ≡ none
    → create_pending s given now
      ≡ some (stored s (dated given now), record { created = true; record_found = dated given now })
unfolding create_pending
create_pending-eq_new s given now u h = ground arith

pub update-eq :
    (s : MemoryStore) (r : TaskRecord) (patch : Patch) (now : String)
    → Found s r.idempotency_key r
    → update s r.id patch now ≡ some (stored s (patch_record r patch now), patch_record r patch now)
unfolding update
update-eq s r patch now f = ground (arith, f.by_id)

some-fst :
    {A B : Type 0} {a c : A} {b d : B} → Path (Option (A × B)) (some (a, b)) (some (c, d)) → a ≡ c
some-fst h = cc

stored-IsUnused :
    (s : MemoryStore) (r : TaskRecord) (id : String)
    → IsUnused s id
    → id ≢ r.id
    → IsUnused (stored s r) id
stored-IsUnused s r id u apart =
    (ground (arith, u.0, lookup-insert r.id id r s.records_by_id, eq_iff r.id id), u.1)

pub create_pending-IsUnused :
    (s s' : MemoryStore) (given : TaskRecord) (now : String) (c : Created)
    → create_pending s given now ≡ some (s', c)
    → (id : String) → IsUnused s id
    → id ≢ given.id
    → IsUnused s' id
unfolding create_pending
create_pending-IsUnused s s' given now c h id u apart =
    elim (Option-cases (find_existing s given)) [
      | inl e ↦
          subst (λ x. IsUnused x id) (some-fst (rw (e, create_pending) at h))
            (stored-IsUnused s (dated given now) id u apart)
      | inr (r, e) ↦ subst (λ x. IsUnused x id) (some-fst (rw (e, create_pending) at h)) u
    ]

pub update-IsUnused :
    (s s' : MemoryStore) (id : String) (patch : Patch) (now : String) (r : TaskRecord)
    → update s id patch now ≡ some (s', r)
    → (other : String) → IsUnused s other
    → IsUnused s' other
unfolding update
update-IsUnused s s' id patch now r h other u = elim (Option-cases (lookup id s.records_by_id)) [
  | inl e ↦ absurd (none-ne-some (rw (e, update) at h))
  | inr (old, e) ↦
      subst (λ x. IsUnused x other) (some-fst (rw (e, update) at h))
        (
          ground (
            arith,
            u.0,
            e,
            lookup-insert id other (patch_record old patch now) s.records_by_id,
            eq_iff id other,
          ),
          u.1,
        )
]
  where
    none-ne-some : {A : Type 0} {a : A} → Path (Option A) none (some a) → ⊥
    none-ne-some bad = cc

abbrev pub empty : MemoryStore
empty = record { records_by_id = []; ids_by_idempotency_key = [] }

pub empty-IsValid : IsValid empty
unfolding lookup
empty-IsValid = record {
  indexed = λ key id h. absurd (ground arith);
  recorded = λ id r h. absurd (ground arith);
}

pub empty-found : (key : String) → get_by_idempotency_key empty key ≡ none
unfolding get_by_idempotency_key
empty-found key = refl

pub empty-unused : (id : String) → lookup id empty.records_by_id ≡ none
unfolding lookup
empty-unused id = refl

-- The laws that the maps keep.
unfoldable pub memory_laws : IsLawful memory_store
unfolding create_pending find_existing update patch_record
memory_laws = record {
  IsValid = IsValid;
  IsUnused = IsUnused;
  initial = empty;
  initial_valid = empty-IsValid;
  initial_empty = empty-found;
  initial_unused = λ id h. (empty-unused id, h);
  create_unused = create_pending-IsUnused;
  update_unused = update-IsUnused;
  found_key = λ s key r v h. (get-Found s key r v h).same_key;
  create_found = λ s given r now v u h. create_pending-eq_found s given r now u h;
  create_new = λ s given now v u h.
      let f : Fits s (dated given now) = new-Fits s (dated given now) v u h in
      (
        stored s (dated given now),
        (
          dated given now,
          create_pending-eq_new s given now u h,
          record { same_id = refl; same_key = refl; lifecycle = refl; answer = refl },
          stored-IsValid s (dated given now) v f,
          get-stored s (dated given now) v f,
        ),
      );
  update_found = λ s r patch now v h.
      let g = get-Found s r.idempotency_key r v h in
      let f = patched-Fits s r patch now g in
      (
        stored s (patch_record r patch now),
        (
          patch_record r patch now,
          update-eq s r patch now g,
          record { same_id = refl; same_key = refl; lifecycle = refl; answer = refl },
          stored-IsValid s (patch_record r patch now) v f,
          get-stored s (patch_record r patch now) v f,
        ),
      );
}

-- The store in memory keeps the contract of a task store: records are found by their keys, one to a
-- key, a record is made only for a key that has none, and an update reaches the record of its id and
-- keeps its key.
pub memory_store-IsLawful : IsLawful memory_store
memory_store-IsLawful = memory_laws
