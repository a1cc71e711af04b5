-- ===== src/A2a/Status/Laws.antt =====
-- Laws of the error bodies of extensions/a2a/sdk/src/index.js.
use aiagent_portable_authori.Base.{
  inr, inl, Option-cases, Bool-cases, ℕ, String, ◌≡◌, ◌≤◌, some, List, [], ◌∷◌, arith, All, str_eq,
}
use aiagent_portable_authori.Base.Assoc.{lookup}
use aiagent_portable_authori.Value.{Value, str}
use aiagent_portable_authori.A2a.Status.{
  Mapped, engine_error_map, find_error, map_engine_decision_to_a2a_error, engine_error_of,
}

-- A status of a failure.
abbrev pub IsFailure : ℕ → Type 0
IsFailure status = (400 ≤ status) × (status ≤ 503)

lookup-All :
    (P : Mapped → Type 0) (key : String) (table : List (String × Mapped)) (m : Mapped)
    → All (λ entry. P entry.1) table
    → lookup key table ≡ some m
    → P m
unfolding lookup
lookup-All P key [] m hs h = ground arith
lookup-All P key (entry ∷ table) m (p, hs) h = elim (Bool-cases (str_eq entry.0 key)) [
  | inl e ↦ let same : entry.1 ≡ m = ground arith in mathlib.Core.Path.subst P same p
  | inr e ↦ lookup-All P key table m hs (ground arith)
]

engine_error_map-All : All (λ entry. IsFailure entry.1.http_status) engine_error_map
engine_error_map-All = omega arith

find_error-IsFailure : (v : Value) (m : Mapped) → find_error v ≡ some m → IsFailure m.http_status
unfolding find_error
find_error-IsFailure (str s) m h =
    lookup-All (λ m. IsFailure m.http_status) s engine_error_map m engine_error_map-All h
find_error-IsFailure _ m h = ground arith

-- A decision that is no allowance is answered with a status of 400 or more, whatever the engine's
-- body says, as long as the fallback is one.
pub map_engine_decision-IsFailure :
    (body : Value) (fallback : ℕ)
    → IsFailure fallback
    → IsFailure (map_engine_decision_to_a2a_error body fallback).0
unfolding map_engine_decision_to_a2a_error
map_engine_decision-IsFailure body fallback h =
    elim (Option-cases (find_error (engine_error_of body))) [
      | inl e ↦ rw e h
      | inr e ↦ rw e.1 (find_error-IsFailure (engine_error_of body) e.0 e.1)
    ]
