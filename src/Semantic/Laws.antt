-- ===== src/Semantic/Laws.antt =====
-- Laws of `resolveSemanticField`.
use aiagent_portable_authori.Base.{
  String, true, false, ◌≡◌, inl, inr, none, some, arith, Option-cases,
}
use aiagent_portable_authori.Base.Assoc.{lookup}
use aiagent_portable_authori.Codes.{ErrorCode, semantic_identifier_unknown}
use aiagent_portable_authori.Value.{Value, is_undefined}
use aiagent_portable_authori.Semantic.{
  Mapping, Mappings, resolved, unresolved, resolve_semantic_field, resolve_mapped, resolve_unmapped,
  resolve_direct_path, type_fits, is_reserved_semantic_identifier,
}

-- Where a resolved value comes from.
pub data Origin (m : Mappings) (name local : String) (v : Value) : Type 0 where
  direct :
      lookup name m ≡ none
      → is_reserved_semantic_identifier name ≡ false
      → local ≡ name
      → Origin m name local v
  mapped :
      (mapping : Mapping)
      → lookup name m ≡ some mapping
      → mapping.error_code ≡ none
      → local ≡ mapping.local_field
      → type_fits mapping.field_type v ≡ true
      → Origin m name local v

resolve_mapped_sound :
    (mapping : Mapping) (ctx : Value) (local : String) (v : Value)
    → resolve_mapped mapping ctx ≡ resolved local v
    → (mapping.error_code ≡ none)
      × (local ≡ mapping.local_field)
      × (type_fits mapping.field_type v ≡ true)
      × (v ≡ resolve_direct_path local ctx)
      × (is_undefined v ≡ false)
unfolding resolve_mapped
resolve_mapped_sound mapping ctx local v h = ground arith

resolve_unmapped_sound :
    (name : String) (ctx : Value) (local : String) (v : Value)
    → resolve_unmapped name ctx ≡ resolved local v
    → (is_reserved_semantic_identifier name ≡ false)
      × (local ≡ name)
      × (v ≡ resolve_direct_path local ctx)
      × (is_undefined v ≡ false)
unfolding resolve_unmapped
resolve_unmapped_sound name ctx local v h = ground arith

-- A field that resolves is a defined value of the context at the local path that is named: the
-- identifier's own path, if it has no mapping and is not reserved, or else the path of a mapping
-- that carries no error, and then the value has the mapping's type.
pub resolve_semantic_field_sound :
    (m : Mappings) (name : String) (ctx : Value) (local : String) (v : Value)
    → resolve_semantic_field m name ctx ≡ resolved local v
    → (v ≡ resolve_direct_path local ctx) × (is_undefined v ≡ false) × Origin m name local v
unfolding resolve_semantic_field
resolve_semantic_field_sound m name ctx local v h = elim (Option-cases (lookup name m)) [
  | inl e ↦
      let (r, l, p, u) =
        resolve_unmapped_sound name ctx local v (rw (e, resolve_semantic_field) at h) in
      (p, u, Origin.direct e r l)
  | inr (mapping, e) ↦
      let (c, l, t, p, u) =
        resolve_mapped_sound mapping ctx local v (rw (e, resolve_semantic_field) at h) in
      (p, u, Origin.mapped mapping e c l t)
]

-- A reserved identifier that no profile maps is refused with semantic_identifier_unknown, whatever
-- the request context holds, a field of that very name included.
pub resolve_reserved_unmapped :
    (m : Mappings) (name : String) (ctx : Value)
    → lookup name m ≡ none
    → is_reserved_semantic_identifier name ≡ true
    → resolve_semantic_field m name ctx ≡ unresolved semantic_identifier_unknown
unfolding resolve_semantic_field resolve_unmapped
resolve_reserved_unmapped m name ctx e r = ground arith

-- A mapping with an error code refuses with that code, whatever the context holds.
pub resolve_invalid_mapping :
    (m : Mappings) (name : String) (ctx : Value) (mapping : Mapping) (code : ErrorCode)
    → lookup name m ≡ some mapping
    → mapping.error_code ≡ some code
    → resolve_semantic_field m name ctx ≡ unresolved code
unfolding resolve_semantic_field resolve_mapped
resolve_invalid_mapping m name ctx mapping code e c = ground arith
