-- ===== src/Base/Tables.antt =====
-- Go's maps with string keys, as association lists in which a key stands once.

use Prim.Native.String.{String}
use mathlib.Core.Path.{◌≡◌, refl}
use mathlib.Core.Logic.{◌≢◌, ◌⊎◌, inl, inr}
use mathlib.Core.Option.{Option, none, some}
use mathlib.Core.List.{List, [], ◌∷◌}
use native.Mathlib.Omega.{arith}
use text.Mathlib.TextEquality.{eq_iff}
use example_applications.Base.Tests.{◌==◌, string_eq, if◌then◌else◌, Bool-cases}

abbrev pub Table {ℓ} : Type ℓ → Type ℓ
Table V = List (String × V)

module _ {ℓ} {V : Type ℓ} where
  -- `v, ok := m[k]`
  unfoldable pub lookup : String → Table V → Option V
  lookup k [] = none
  lookup k ((j, v) ∷ m) = if j == k then some v else lookup k m

  -- `delete(m, k)`
  unfoldable pub erase : String → Table V → Table V
  erase k [] = []
  erase k ((j, v) ∷ m) = let rest = erase k m in if j == k then rest else (j, v) ∷ rest

  -- `m[k] = v`
  unfoldable pub insert : String → V → Table V → Table V
  insert k v m = (k, v) ∷ erase k m

  pub lookup-erase :
      (k j : String) (m : Table V) → lookup j (erase k m) ≡ (if k == j then none else lookup j m)
  unfolding lookup erase
  lookup-erase k j [] = ground arith
  lookup-erase k j ((i, v) ∷ m) =
      ground (arith, lookup-erase k j m, eq_iff i k, eq_iff i j, eq_iff k j)

  pub lookup-insert :
      (k j : String) (v : V) (m : Table V)
      → lookup j (insert k v m) ≡ (if k == j then some v else lookup j m)
  unfolding lookup insert
  lookup-insert k j v m = ground (arith, lookup-erase k j m)

-- What a reader of `j` sees after `m[k] = v`, by cases on the key.
abbrev pub InsertAt {ℓ} : {V : Type ℓ} → String → String → V → Table V → Type ℓ
InsertAt k j v m =
    ((k ≡ j) × (lookup j (insert k v m) ≡ some v))
    ⊎ ((k ≢ j) × (lookup j (insert k v m) ≡ lookup j m))

abbrev pub EraseAt {ℓ} : {V : Type ℓ} → String → String → Table V → Type ℓ
EraseAt k j m =
    ((k ≡ j) × (lookup j (erase k m) ≡ none)) ⊎ ((k ≢ j) × (lookup j (erase k m) ≡ lookup j m))

pub insert_at {ℓ} : {V : Type ℓ} (k j : String) (v : V) (m : Table V) → InsertAt k j v m
insert_at k j v m = elim (Bool-cases (k == j)) [
  | inl e ↦ inl ((eq_iff k j).0 e, rw (lookup-insert k j v m, e) refl)
  | inr e ↦ inr (ground (arith, eq_iff k j), rw (lookup-insert k j v m, e) refl)
]

pub erase_at {ℓ} : {V : Type ℓ} (k j : String) (m : Table V) → EraseAt k j m
erase_at k j m = elim (Bool-cases (k == j)) [
  | inl e ↦ inl ((eq_iff k j).0 e, rw (lookup-erase k j m, e) refl)
  | inr e ↦ inr (ground (arith, eq_iff k j), rw (lookup-erase k j m, e) refl)
]

pub lookup-nil {ℓ} : {V : Type ℓ} (k : String) → lookup {V = V} k [] ≡ none
unfolding lookup
lookup-nil k = refl

pub ruleset table_laws = (lookup-nil, lookup-erase, lookup-insert)
