-- ===== src/Base/Assoc.antt =====
-- Rust's `HashMap` as an association list with distinct keys. The order of the list stands for
-- the order in which the map happens to be iterated; no statement depends on it.
use mathlib.Core.Bool.{false}
use mathlib.Core.List.{List, [], ◌∷◌}
use mathlib.Core.Option.{Option, none, some}
use mathlib.Core.Path.{◌≡◌, refl}
use native.Mathlib.Omega.{arith}
use letmein.Base.Equality.{HasEq, ◌==◌}
use letmein.Base.Tests.{if◌then◌else◌}

module _ {K : Type 0} ⦃e : HasEq K⦄ {V : Type 0} where
  -- `get`
  unfoldable pub lookup : K → List (K × V) → Option V
  lookup k [] = none
  lookup k ((j, v) ∷ m) = if j == k then some v else lookup k m

  -- `insert`: the old value of the key is replaced.
  unfoldable pub insert : K → V → List (K × V) → List (K × V)
  insert k v [] = (k, v) ∷ []
  insert k v ((j, w) ∷ m) = if j == k then (j, v) ∷ m else (j, w) ∷ insert k v m

  -- `remove`
  unfoldable pub remove : K → List (K × V) → List (K × V)
  remove k [] = []
  remove k ((j, w) ∷ m) = if j == k then m else (j, w) ∷ remove k m

  -- No two entries have one key.
  abbrev pub Distinct : List (K × V) → Type 0
  Distinct [] = Unit {0}
  Distinct ((j, w) ∷ m) = (lookup j m ≡ none) × Distinct m

  pub lookup-insert :
      (set key : K) (new : V) (m : List (K × V))
      → lookup key (insert set new m) ≡ (if set == key then some new else lookup key m)
  unfolding lookup insert
  lookup-insert set key new [] = refl
  lookup-insert set key new ((old, w) ∷ rest) = ground (
    arith,
    e.same_iff set key,
    e.same_iff old set,
    e.same_iff old key,
    lookup-insert set key new rest,
  )

  pub lookup-remove_ne :
      (k j : K) (m : List (K × V)) → (k == j) ≡ false → lookup j (remove k m) ≡ lookup j m
  unfolding lookup remove
  lookup-remove_ne k j [] h = refl
  lookup-remove_ne k j ((i, w) ∷ m) h =
      ground (arith, e.same_iff k j, e.same_iff i k, e.same_iff i j, lookup-remove_ne k j m h)

  pub lookup-remove_self : (k : K) (m : List (K × V)) → Distinct m → lookup k (remove k m) ≡ none
  unfolding lookup remove
  lookup-remove_self k [] d = refl
  lookup-remove_self k ((i, w) ∷ m) d = ground (arith, e.same_iff i k, lookup-remove_self k m d.1)

  pub insert-Distinct : (k : K) (v : V) (m : List (K × V)) → Distinct m → Distinct (insert k v m)
  unfolding lookup insert
  insert-Distinct k v [] d = (refl, tt)
  insert-Distinct k v ((i, w) ∷ m) d =
      ground
        (arith, e.same_iff i k, e.same_iff k i, lookup-insert k i v m, insert-Distinct k v m d.1)

  pub remove-Distinct : (k : K) (m : List (K × V)) → Distinct m → Distinct (remove k m)
  unfolding lookup remove
  remove-Distinct k [] d = tt
  remove-Distinct k ((i, w) ∷ m) d =
      ground
        (arith, e.same_iff i k, e.same_iff k i, lookup-remove_ne k i m, remove-Distinct k m d.1)
