-- ===== src/Base/Equality.antt =====
-- Equality tests as an interface, for keys, addresses and texts.
use Prim.Native.Nat.{ℕ}
use mathlib.Core.Bool.{Bool, true, false, ◌&&◌}
use mathlib.Core.List.{List, [], ◌∷◌}
use mathlib.Core.Logic.{◌↔◌}
use mathlib.Core.Path.{◌≡◌}
use native.Mathlib.Omega.{arith}
use letmein.Base.Tests.{nat_eq, nat_eq_iff}

pub record HasEq {ℓ} (A : Type ℓ) : Type ℓ where
  pub same : A → A → Bool
  pub same_iff : (a b : A) → (same a b ≡ true) ↔ (a ≡ b)

-- `==`, by the instance of the type
abbrev pub ◌==◌ {ℓ} : {A : Type ℓ} → ⦃e : HasEq A⦄ → A → A → Bool
◌==◌ ⦃e⦄ a b = e.same a b

infix 50 ◌==◌
instance abbrev pub nat_has_eq : HasEq ℕ
nat_has_eq = record { same = nat_eq; same_iff = nat_eq_iff }

-- Equality of two byte arrays or texts.
unfoldable pub list_eq : List ℕ → List ℕ → Bool
list_eq [] [] = true
list_eq (x ∷ xs) (y ∷ ys) = nat_eq x y && list_eq xs ys
list_eq _ _ = false

pub list_eq_iff : (a b : List ℕ) → (list_eq a b ≡ true) ↔ (a ≡ b)
unfolding list_eq
list_eq_iff (x ∷ a) (y ∷ b) = ground (arith, list_eq_iff a b)
list_eq_iff _ _ = ground arith

instance abbrev pub list_has_eq : HasEq (List ℕ)
list_has_eq = record { same = list_eq; same_iff = list_eq_iff }
