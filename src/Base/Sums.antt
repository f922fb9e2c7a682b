-- ===== src/Base/Sums.antt =====
-- Sizes, sums and predicates over the values of a map of `Assoc`.
use Prim.Native.Nat.{ℕ, ◌+◌, ◌*◌, ◌≤◌}
use mathlib.Core.List.{List, [], ◌∷◌}
use mathlib.Core.Option.{Option, none, some}
use mathlib.Core.Path.{◌≡◌}
use native.Mathlib.Omega.{arith}
use letmein.Base.Assoc.{lookup, insert, remove}
use letmein.Base.Equality.{HasEq}
use letmein.Base.Lists.{length}

module _ {K V : Type 0} where
  -- The sum of `f` over the values.
  abbrev pub total : (V → ℕ) → List (K × V) → ℕ
  total f [] = 0
  total f ((j, w) ∷ m) = f w + total f m

  -- A property of every entry.
  abbrev pub AllEntries : (K → V → Type 0) → List (K × V) → Type 0
  AllEntries P [] = Unit {0}
  AllEntries P ((j, w) ∷ m) = P j w × AllEntries P m

  pub total_le :
      (f : V → ℕ) (b : ℕ) (m : List (K × V))
      → AllEntries (λ _ v. f v ≤ b) m
      → total f m ≤ length m * b
  total_le f b [] h = omega arith
  total_le f b ((j, w) ∷ m) h = grind (arith, total_le f b m h.1)

abbrev pub weight : {V : Type 0} → (V → ℕ) → Option V → ℕ
weight f none = 0
weight f (some v) = f v

abbrev pub present : {V : Type 0} → Option V → ℕ
present none = 0
present (some v) = 1

module _ {K : Type 0} ⦃e : HasEq K⦄ {V : Type 0} where
  pub total-insert :
      (f : V → ℕ) (k : K) (v : V) (m : List (K × V))
      → total f (insert k v m) + weight f (lookup k m) ≡ total f m + f v
  unfolding lookup insert
  total-insert f k v [] = omega arith
  total-insert f k v ((i, w) ∷ m) = ground (arith, total-insert f k v m)

  pub total-remove :
      (f : V → ℕ) (k : K) (m : List (K × V))
      → total f (remove k m) + weight f (lookup k m) ≡ total f m
  unfolding lookup remove
  total-remove f k [] = omega arith
  total-remove f k ((i, w) ∷ m) = ground (arith, total-remove f k m)

  pub length-insert :
      (k : K) (v : V) (m : List (K × V))
      → length (insert k v m) + present (lookup k m) ≡ length m + 1
  unfolding lookup insert
  length-insert k v [] = omega arith
  length-insert k v ((i, w) ∷ m) = ground (arith, length-insert k v m)

  pub length-remove :
      (k : K) (m : List (K × V)) → length (remove k m) + present (lookup k m) ≡ length m
  unfolding lookup remove
  length-remove k [] = omega arith
  length-remove k ((i, w) ∷ m) = ground (arith, length-remove k m)

  module _ (P : K → V → Type 0) where
    pub AllEntries-insert :
        (k : K) (v : V) (m : List (K × V)) → P k v → AllEntries P m → AllEntries P (insert k v m)
    unfolding insert
    AllEntries-insert k v [] h a = (h, tt)
    AllEntries-insert k v ((i, w) ∷ m) h a =
        ground (arith, e.same_iff i k, AllEntries-insert k v m h a.1)

    pub AllEntries-remove : (k : K) (m : List (K × V)) → AllEntries P m → AllEntries P (remove k m)
    unfolding remove
    AllEntries-remove k [] a = tt
    AllEntries-remove k ((i, w) ∷ m) a = ground (arith, AllEntries-remove k m a.1)

    pub AllEntries-lookup :
        (k : K) (v : V) (m : List (K × V)) → AllEntries P m → lookup k m ≡ some v → P k v
    unfolding lookup
    AllEntries-lookup k v [] a h = cc
    AllEntries-lookup k v ((i, w) ∷ m) a h =
        ground (arith, e.same_iff i k, AllEntries-lookup k v m a.1)
