-- ===== src/Common/Maps.antt =====
-- `HashMap` as an association list: each key has one binding that counts, the first. The order of
-- the bindings stands for the arbitrary order in which the program iterates.
use mathlib.Core.Path.{◌≡◌, refl}
use mathlib.Core.Logic.{inl, inr}
use mathlib.Core.Option.{Option, none, some}
use mathlib.Core.List.{List, [], ◌∷◌, ◌++◌, map}
use native.Mathlib.Omega.{arith}
use file_sharing_example.Common.Tests.{Eq, ◌==◌, if◌then◌else◌, Bool-cases}

abbrev pub Map {ℓ κ} : Type ℓ → Type κ → Type (ℓ ⊔ κ)
Map K V = List (K × V)

module _ {ℓ κ} {K : Type ℓ} {V : Type κ} ⦃e : Eq K⦄ where
  -- `get`
  unfoldable pub lookup : K → Map K V → Option V
  lookup k [] = none
  lookup k ((j, v) ∷ m) = if j == k then some v else lookup k m

  -- `remove`, without the value that it returns: that is `lookup` before it.
  unfoldable pub remove : K → Map K V → Map K V
  remove k [] = []
  remove k ((j, v) ∷ m) = let rest = remove k m in if j == k then rest else (j, v) ∷ rest

  -- `insert`
  unfoldable pub insert : K → V → Map K V → Map K V
  unfolding remove
  insert k v m = (k, v) ∷ remove k m

  pub lookup-remove :
      (k j : K) (m : Map K V) → lookup j (remove k m) ≡ (if k == j then none else lookup j m)
  unfolding lookup remove
  lookup-remove k j [] = ground arith
  lookup-remove k j ((i, v) ∷ m) =
      ground (arith, lookup-remove k j m, e.test_iff i k, e.test_iff i j, e.test_iff k j)

  pub lookup-insert :
      (k j : K) (v : V) (m : Map K V)
      → lookup j (insert k v m) ≡ (if k == j then some v else lookup j m)
  unfolding lookup insert
  lookup-insert k j v m = ground (arith, lookup-remove k j m)

  -- No key has two bindings.
  abbrev pub HasUniqueKeys : Map K V → Type κ
  HasUniqueKeys [] = Unit
  HasUniqueKeys ((k, v) ∷ m) = (lookup k m ≡ none) × HasUniqueKeys m

  pub remove-HasUniqueKeys : (k : K) (m : Map K V) → HasUniqueKeys m → HasUniqueKeys (remove k m)
  unfolding remove
  remove-HasUniqueKeys k [] h = tt
  remove-HasUniqueKeys k ((j, v) ∷ m) (fresh, h) = elim (Bool-cases (j == k)) [
    | inl hit ↦ rw hit (remove-HasUniqueKeys k m h)
    | inr miss ↦ rw miss (ground (arith, lookup-remove k j m), remove-HasUniqueKeys k m h)
  ]

  pub insert-HasUniqueKeys :
      (k : K) (v : V) (m : Map K V) → HasUniqueKeys m → HasUniqueKeys (insert k v m)
  unfolding insert
  insert-HasUniqueKeys k v m h =
      (ground (arith, lookup-remove k k m, e.test_iff k k), remove-HasUniqueKeys k m h)

abbrev pub keys {ℓ κ} : {K : Type ℓ} {V : Type κ} → Map K V → List K
keys m = map (λ p. p.0) m

module _ {ℓ κ} {K : Type ℓ} {V : Type κ} ⦃e : Eq K⦄ where
  -- A binding at the end counts where there was none before.
  pub lookup-append :
      (k j : K) (v : V) (m : Map K V)
      → lookup j m ≡ none
      → lookup j (m ++ (k, v) ∷ []) ≡ (if k == j then some v else none)
  unfolding lookup
  lookup-append k j v [] h = refl
  lookup-append k j v ((i, u) ∷ m) h = ground (arith, lookup-append k j v m)

module _ {ℓ κ} {K : Type ℓ} {V : Type κ} ⦃e : Eq K⦄ where
  pub remove_absent : (k : K) (m : Map K V) → lookup k m ≡ none → remove k m ≡ m
  unfolding lookup remove
  remove_absent k [] h = refl
  remove_absent k ((j, v) ∷ m) h = ground (arith, remove_absent k m)

  pub remove_twice : (k : K) (m : Map K V) → remove k (remove k m) ≡ remove k m
  unfolding remove
  remove_twice k [] = refl
  remove_twice k ((j, v) ∷ m) = ground (arith, remove_twice k m)
