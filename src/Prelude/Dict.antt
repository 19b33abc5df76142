-- ===== src/Prelude/Dict.antt =====
-- Python's `dict` with text keys, as an association list in insertion order.
use Prim.Native.String.{String}
use mathlib.Core.Path.{◌≡◌, refl}
use mathlib.Core.Option.{Option, none, some}
use mathlib.Core.List.{List, [], ◌∷◌}
use native.Mathlib.Omega.{arith}
use text.Mathlib.Text.{◌==◌}
use text.Mathlib.TextEquality.{eq_iff}
use mathlib.Core.Logic.{inl, inr}
use sdk_reference.Prelude.Tests.{if◌then◌else◌, Option-cases}
use sdk_reference.Prelude.Int.{ℤ, pos, ◌+ℤ◌, int_laws}

abbrev pub Dict {ℓ} : Type ℓ → Type ℓ
Dict V = List (String × V)

module _ {ℓ} {V : Type ℓ} where
  -- `d.get(k)`
  unfoldable pub lookup : String → Dict V → Option V
  lookup k [] = none
  lookup k ((j, v) ∷ d) = if j == k then some v else lookup k d

  -- `d[k] = v`
  unfoldable pub insert : String → V → Dict V → Dict V
  insert k v [] = (k, v) ∷ []
  insert k v ((j, w) ∷ d) = if j == k then (k, v) ∷ d else (j, w) ∷ insert k v d

  pub lookup-nil : (k : String) → lookup k [] ≡ none
  unfolding lookup
  lookup-nil k = refl

  pub lookup-insert :
      (k j : String) (v : V) (d : Dict V)
      → lookup j (insert k v d) ≡ (if k == j then some v else lookup j d)
  unfolding lookup insert
  lookup-insert k j v [] = refl
  lookup-insert k j v ((i, w) ∷ d) =
      ground (arith, eq_iff k j, eq_iff i k, eq_iff i j, lookup-insert k j v d)

-- The sum of a measure of the values.
module _ {ℓ} {V : Type ℓ} (f : V → ℤ) where
  unfoldable pub total : Dict V → ℤ
  total [] = pos 0
  total ((_, v) ∷ d) = f v +ℤ total d

  pub total-nil : total [] ≡ pos 0
  unfolding total
  total-nil = refl

  -- Overwriting a value exchanges its measure.
  pub total-insert :
      (k : String) (v old : V) (d : Dict V)
      → lookup k d ≡ some old
      → total (insert k v d) +ℤ f old ≡ total d +ℤ f v
  unfolding lookup insert total
  total-insert k v old [] e = cc
  total-insert k v old ((j, w) ∷ d) e = grind (int_laws, total-insert k v old d)

  pub total-insert_new :
      (k : String) (v : V) (d : Dict V) → lookup k d ≡ none → total (insert k v d) ≡ total d +ℤ f v
  unfolding lookup insert total
  total-insert_new k v [] e = omega int_laws
  total-insert_new k v ((j, w) ∷ d) e = grind (int_laws, total-insert_new k v d)

  abbrev pub measure_of : Option V → ℤ
  measure_of none = pos 0
  measure_of (some v) = f v

  -- Either way: what stood at the key before counts for nothing if it was absent.
  pub total-insert_any :
      (k : String) (v : V) (d : Dict V)
      → total (insert k v d) +ℤ measure_of (lookup k d) ≡ total d +ℤ f v
  total-insert_any k v d = elim (Option-cases (lookup k d)) [
    | inl absent ↦ rw absent (grind (int_laws, total-insert_new k v d absent))
    | inr (old, found) ↦ rw found (total-insert k v old d found)
  ]

-- Writing what is there changes nothing.
pub insert-same {ℓ} :
    {V : Type ℓ} (k : String) (v : V) (d : Dict V) → lookup k d ≡ some v → insert k v d ≡ d
unfolding lookup insert
insert-same k v [] e = cc
insert-same k v ((j, w) ∷ d) e = ground (arith, eq_iff j k, insert-same k v d)

pub insert-insert {ℓ} :
    {V : Type ℓ} (k : String) (v w : V) (d : Dict V) → insert k v (insert k w d) ≡ insert k v d
unfolding insert
insert-insert k v w [] = ground (arith, eq_iff k k)
insert-insert k v w ((j, x) ∷ d) = ground (arith, eq_iff k k, eq_iff j k, insert-insert k v w d)

module _ {ℓ} {V : Type ℓ} where
  -- `d.pop(k, None)`, for its effect.
  unfoldable pub delete : String → Dict V → Dict V
  delete k [] = []
  delete k ((j, v) ∷ d) = let rest = delete k d in if j == k then rest else (j, v) ∷ rest

  pub lookup-delete :
      (k j : String) (d : Dict V) → lookup j (delete k d) ≡ (if k == j then none else lookup j d)
  unfolding lookup delete
  lookup-delete k j [] = ground arith
  lookup-delete k j ((i, w) ∷ d) =
      ground (arith, eq_iff k j, eq_iff i k, eq_iff i j, lookup-delete k j d)

  -- Deleting what was written last.
  pub delete-insert : (k : String) (v : V) (d : Dict V) → delete k (insert k v d) ≡ delete k d
  unfolding insert delete
  delete-insert k v [] = ground (arith, eq_iff k k)
  delete-insert k v ((j, w) ∷ d) = ground (arith, eq_iff k k, eq_iff j k, delete-insert k v d)
