-- ===== src/Base/Maps.antt =====
-- Go maps with string keys as association lists. A lookup reads the first entry of a key.
use mathlib.Core.Path.{◌≡◌, refl, sym}
use mathlib.Core.Bool.{Bool}
use mathlib.Core.List.{List, [], ◌∷◌}
use mathlib.Core.Option.{Option, none, some}
use native.Mathlib.Omega.{arith}
use ocu_mcp_gateway.Base.Tests.{if◌then◌else◌, is_some, Bool-cases}
use ocu_mcp_gateway.Base.Lists.{Any}
use mathlib.Core.Logic.{inl, inr}
use ocu_mcp_gateway.Base.Text.{Str, str_eq, str_eq_iff}

abbrev pub Map {ℓ} : Type ℓ → Type ℓ
Map V = List (Str × V)

module _ {ℓ} {V : Type ℓ} where
  unfoldable pub lookup : Str → Map V → Option V
  lookup k [] = none
  lookup k ((j, v) ∷ m) = if str_eq j k then some v else lookup k m

  unfoldable pub insert : Str → V → Map V → Map V
  insert k v [] = (k, v) ∷ []
  insert k v ((j, w) ∷ m) = if str_eq j k then (k, v) ∷ m else (j, w) ∷ insert k v m

  unfoldable pub delete : Str → Map V → Map V
  delete k [] = []
  delete k ((j, w) ∷ m) = let rest = delete k m in if str_eq j k then rest else (j, w) ∷ rest

  pub lookup-insert :
      (k j : Str) (v : V) (m : Map V)
      → lookup j (insert k v m) ≡ (if str_eq k j then some v else lookup j m)
  unfolding lookup insert
  lookup-insert k j v [] = refl
  lookup-insert k j v ((i, w) ∷ m) =
      ground (arith, str_eq_iff k j, str_eq_iff i k, str_eq_iff i j, lookup-insert k j v m)

  pub lookup-delete :
      (k j : Str) (m : Map V) → lookup j (delete k m) ≡ (if str_eq k j then none else lookup j m)
  unfolding lookup delete
  lookup-delete k j [] = ground arith
  lookup-delete k j ((i, w) ∷ m) =
      ground (arith, str_eq_iff k j, str_eq_iff i k, str_eq_iff i j, lookup-delete k j m)

  abbrev pub has_key : Str → Map V → Bool
  has_key k m = is_some (lookup k m)

-- What is found under a key has it among the keys, and the converse.
pub lookup-Any {ℓ} :
    {V : Type ℓ} (k : Str) (m : Map V) (v : V)
    → lookup k m ≡ some v
    → Any (λ (e : Str × V). k ≡ e.0) m
unfolding lookup
lookup-Any k [] v e = absurd (cc)
lookup-Any k ((j, w) ∷ m) v e = elim (Bool-cases (str_eq j k)) [
  | inl same ↦ inl (sym ((str_eq_iff j k).0 same))
  | inr other ↦ inr (lookup-Any k m v (rw other at e))
]

pub Any-lookup {ℓ} :
    {V : Type ℓ} (k : Str) (m : Map V)
    → Any (λ (e : Str × V). k ≡ e.0) m
    → (v : V) × (lookup k m ≡ some v)
unfolding lookup
Any-lookup k [] h = elim h [ ]
Any-lookup k ((j, w) ∷ m) h = elim (Bool-cases (str_eq j k)) [
  | inl same ↦ (w, rw same refl)
  | inr other ↦ elim h [
    | inl e ↦ absurd (cc ((str_eq_iff j k).1 (sym e), other))
    | inr later ↦ let (v, found) = Any-lookup k m later in (v, rw other found)
  ]
]
