-- ===== src/Context/Laws.antt =====
-- Laws of the enriched context and of the identifiers that are mapped to it.
use aiagent_portable_authori.Base.{
  ℕ, Option, List, All, String, false, ◌≡◌, refl, ◌∙◌, ◌≢◌, ◌⊎◌, inl, inr, none, some, [], ◌∷◌,
  str_eq, eq_iff, arith, if◌then◌else◌,
}
use aiagent_portable_authori.Base.Text.{split}
use aiagent_portable_authori.Base.Assoc.{lookup, insert, lookup-insert}
use aiagent_portable_authori.Codes.{semantic_type_mismatch}
use aiagent_portable_authori.Value.{
  Value, Fields, is_undefined, is_string, nil, field, null, str, obj, get, put,
}
use aiagent_portable_authori.Payload.{Payload}
use aiagent_portable_authori.Semantic.{
  Mapping, walk, resolved, unresolved, resolve_semantic_field, resolve_direct_path,
  default_mappings, resolve_mapped, Mappings, Row, add_row, add_rows, merge,
  build_mapping_cache_from_rows, load_mappings,
}
use aiagent_portable_authori.Context.{
  Envelope, enrich_request_context, credential_facts, text_or_null,
}

pub get-put :
    (k j : String) (v : Value) (fs : Fields)
    → get j (put k v fs) ≡ (if str_eq k j then v else get j fs)
unfolding get put
get-put k j v nil = refl
get-put k j v (field i w fs) = ground (arith, eq_iff k j, eq_iff i k, eq_iff i j, get-put k j v fs)

get-credential :
    (ctx : Fields) (payload : Payload) (presenter : String) (env : Envelope)
    → get "__credential" (enrich_request_context ctx payload presenter env)
      ≡ obj (credential_facts ctx payload presenter)
unfolding enrich_request_context
get-credential ctx payload presenter env =
    rw (get-put "__request" "__credential")
      (get-put "__credential" "__credential" (obj (credential_facts ctx payload presenter)) ctx)

abbrev text_mapping : String → Mapping
text_mapping local = record {
  local_field = local;
  field_type = "string";
  profile_id = "mvv-core";
  error_code = none;
}

resolve_text :
    (mappings : Mappings) (name local : String) (ctx v : Value)
    → lookup name mappings ≡ some (text_mapping local)
    → str_eq local "" ≡ false
    → resolve_direct_path local ctx ≡ v
    → is_undefined v ≡ false
    → resolve_semantic_field mappings name ctx
      ≡ (if is_string v then resolved local v else unresolved semantic_type_mismatch)
unfolding resolve_semantic_field resolve_mapped
resolve_text mappings name local ctx v m l d u =
    rw (resolve_semantic_field, m, resolve_mapped, l, d, u) refl

given : (s : String) → s ≢ "" → text_or_null s ≡ str s
given s h = ground (arith, eq_iff s "")

walk_credential :
    (ctx : Fields) (payload : Payload) (presenter : String) (env : Envelope) (part : String)
    → walk ("__credential" ∷ part ∷ []) (obj (enrich_request_context ctx payload presenter env))
      ≡ get part (credential_facts ctx payload presenter)
unfolding walk
walk_credential ctx payload presenter env part =
    rw (walk, get-credential ctx payload presenter env) refl

-- No row of portauth_mapping_profiles maps the identifier.
abbrev pub Untouched : String → Option (List Row) → Type 0
Untouched name none = Unit
Untouched name (some rows) = All (λ row. str_eq row.semantic_field name ≡ false) rows

lookup-add_rows :
    (now : ℕ) (m : Mappings) (rows : List Row) (name : String)
    → All (λ row. str_eq row.semantic_field name ≡ false) rows
    → lookup name (add_rows now m rows) ≡ lookup name m
unfolding add_rows add_row
lookup-add_rows now m [] name h = refl
lookup-add_rows now m (row ∷ rows) name (h, hs) =
    lookup-add_rows now (add_row now m row) rows name hs
    ∙ (lookup-insert row.semantic_field name _ m ∙ rw h refl)

lookup-merge :
    (merged rest : Mappings) (name : String)
    → lookup name rest ≡ none
    → lookup name (merge merged rest) ≡ lookup name merged
unfolding merge lookup
lookup-merge merged [] name h = refl
lookup-merge merged ((key, value) ∷ rest) name h =
    lookup-merge (insert key value merged) rest name (ground arith)
    ∙ ground (arith, lookup-insert key name value merged)

lookup-load_mappings :
    (rows : Option (List Row)) (now : ℕ) (name : String)
    → Untouched name rows
    → lookup name (load_mappings rows now) ≡ lookup name default_mappings
unfolding load_mappings build_mapping_cache_from_rows lookup
lookup-load_mappings none now name h = refl
lookup-load_mappings (some rows) now name h =
    lookup-merge default_mappings (add_rows now [] rows) name (lookup-add_rows now [] rows name h)

-- Where the mappings that the service loads are the built-in ones with rows of the database that do
-- not map core.issuer_id, core.subject_id and core.presenter_id, and none of the three identities is
-- the empty text, the issuer, the subject and the presenter that constraints see under these
-- identifiers are those of the verified credential and of the request, whatever the caller's own
-- context holds.
pub enrich_unspoofable :
    (rows : Option (List Row)) (now : ℕ) (ctx : Fields) (payload : Payload) (presenter : String)
    (env : Envelope)
    → Untouched "core.issuer_id" rows
    → Untouched "core.subject_id" rows
    → Untouched "core.presenter_id" rows
    → payload.issuer_id ≢ ""
    → payload.agent_id ≢ ""
    → presenter ≢ ""
    → (resolve_semantic_field
          (load_mappings rows now)
          "core.issuer_id"
          (obj (enrich_request_context ctx payload presenter env))
        ≡ resolved "__credential.issuerId" (str payload.issuer_id))
      × (resolve_semantic_field
            (load_mappings rows now)
            "core.subject_id"
            (obj (enrich_request_context ctx payload presenter env))
          ≡ resolved "__credential.subjectId" (str payload.agent_id))
      × (resolve_semantic_field
            (load_mappings rows now)
            "core.presenter_id"
            (obj (enrich_request_context ctx payload presenter env))
          ≡ resolved "__credential.presenterId" (str presenter))
unfolding default_mappings lookup resolve_direct_path split credential_facts get
enrich_unspoofable rows now ctx payload presenter env ui ua up hi ha hp =
    let enriched = obj (enrich_request_context ctx payload presenter env) in
    let path = walk_credential ctx payload presenter env in
    let m = load_mappings rows now in
    (
      resolve_text m "core.issuer_id" "__credential.issuerId" enriched (str payload.issuer_id)
          (lookup-load_mappings rows now "core.issuer_id" ui) refl
          (path "issuerId" ∙ given payload.issuer_id hi) refl,
      resolve_text m "core.subject_id" "__credential.subjectId" enriched (str payload.agent_id)
          (lookup-load_mappings rows now "core.subject_id" ua) refl
          (path "subjectId" ∙ given payload.agent_id ha) refl,
      resolve_text m "core.presenter_id" "__credential.presenterId" enriched (str presenter)
          (lookup-load_mappings rows now "core.presenter_id" up) refl
          (path "presenterId" ∙ given presenter hp) refl,
    )

-- The start and the end of validity and the delegator never resolve: the facts are null, which is
-- not the text that the mapping asks for.
pub enrich_validity_unresolved :
    (ctx : Fields) (payload : Payload) (presenter : String) (env : Envelope) (name : String)
    → (name ≡ "core.valid_from") ⊎ (name ≡ "core.valid_until") ⊎ (name ≡ "core.delegator_id")
    → resolve_semantic_field default_mappings name
        (obj (enrich_request_context ctx payload presenter env))
      ≡ unresolved semantic_type_mismatch
unfolding default_mappings lookup resolve_direct_path split credential_facts get
enrich_validity_unresolved ctx payload presenter env name h =
    let enriched = obj (enrich_request_context ctx payload presenter env) in
    let path = walk_credential ctx payload presenter env in
    elim h [
      | inl e ↦ rw e (
          resolve_text default_mappings "core.valid_from" "__credential.validFrom" enriched null
            refl refl (path "validFrom") refl)
      | inr (inl e) ↦ rw e (
          resolve_text default_mappings "core.valid_until" "__credential.validUntil" enriched null
            refl refl (path "validUntil") refl)
      | inr (inr e) ↦ rw e (
          resolve_text default_mappings "core.delegator_id" "__credential.delegatorId" enriched null
            refl refl (path "delegatorId") refl)
    ]
