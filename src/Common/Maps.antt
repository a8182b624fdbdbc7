-- ===== src/Common/Maps.antt =====
-- Go maps as association lists, and Go sets (`map[K]struct{}`) as lists of keys.
-- `insert` is `m[k] = v`, `erase` is `delete(m, k)`.
use docker.Common.Tests.{if◌then◌else◌, Bool-cases}
use docker.Common.Equality.{Eq, ◌==◌, ==_iff}
use mathlib.Core.Path.{◌≡◌, refl}
use mathlib.Core.Logic.{inl, inr}
use mathlib.Core.Bool.{Bool, false, ◌||◌, ◌&&◌, not}
use mathlib.Core.Option.{Option, none, some}
use mathlib.Core.List.{List, [], ◌∷◌}
use native.Mathlib.Omega.{arith}

module _ {ℓ κ} {K : Type ℓ} {V : Type κ} ⦃e : Eq K⦄ where
  unfoldable pub lookup : K → List (K × V) → Option V
  lookup key [] = none
  lookup key ((found, val) ∷ entries) = if found == key then some val else lookup key entries

  unfoldable pub insert : K → V → List (K × V) → List (K × V)
  insert key val [] = (key, val) ∷ []
  insert key val ((found, old) ∷ entries) =
      if found == key then (key, val) ∷ entries else (found, old) ∷ insert key val entries

  unfoldable pub erase : K → List (K × V) → List (K × V)
  erase k [] = []
  erase k ((j, v) ∷ m) = let rest = erase k m in if j == k then rest else (j, v) ∷ rest

  pub lookup-insert :
      (key other : K) (val : V) (entries : List (K × V))
      → lookup other (insert key val entries)
        ≡ (if key == other then some val else lookup other entries)
  unfolding lookup insert
  lookup-insert key other val [] = refl
  lookup-insert key other val ((found, old) ∷ entries) = ground (
    arith,
    ==_iff key other,
    ==_iff found key,
    ==_iff found other,
    lookup-insert key other val entries,
  )

  pub lookup-erase :
      (k j : K) (m : List (K × V)) → lookup j (erase k m) ≡ (if k == j then none else lookup j m)
  unfolding lookup erase
  lookup-erase k j [] = ground arith
  lookup-erase k j ((i, w) ∷ m) =
      ground (arith, ==_iff k j, ==_iff i k, ==_iff i j, lookup-erase k j m)

module _ {ℓ} {K : Type ℓ} ⦃e : Eq K⦄ where
  unfoldable pub contains : K → List K → Bool
  contains k [] = false
  contains k (j ∷ s) = j == k || contains k s

  unfoldable pub add : K → List K → List K
  unfolding contains
  add k s = if contains k s then s else k ∷ s

  unfoldable pub remove : K → List K → List K
  remove k [] = []
  remove k (j ∷ s) = let rest = remove k s in if j == k then rest else j ∷ rest

  pub contains-add : (k j : K) (s : List K) → contains j (add k s) ≡ (k == j || contains j s)
  unfolding add contains
  contains-add k j s = elim (Bool-cases (contains k s)) [
    | inl old ↦ ground (arith, ==_iff k j)
    | inr new ↦ rw new refl
  ]

  pub contains-remove :
      (k j : K) (s : List K) → contains j (remove k s) ≡ (not (k == j) && contains j s)
  unfolding remove contains
  contains-remove k j [] = ground arith
  contains-remove k j (i ∷ s) =
      ground (arith, ==_iff k j, ==_iff i k, ==_iff i j, contains-remove k j s)
