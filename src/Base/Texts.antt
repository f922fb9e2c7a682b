-- ===== src/Base/Texts.antt =====
-- Texts: lists of code points, string literals, and decimal numbers as Rust's `{}` prints them.
use Prim.Native.Nat.{ℕ, zero, suc, ◌+◌, ◌*◌, ◌-◌, ◌/◌, ◌%◌, ◌<◌, ◌≤◌}
use Prim.Native.Char.{code}
use Prim.Native.String.{String}
use mathlib.Core.List.{List, [], ◌∷◌, ◌++◌}
use mathlib.Core.Path.{◌≡◌, refl, sym, ap, ◌∙◌}
use native.Mathlib.Omega.{arith}
use letmein.Base.Tests.{ltb, if◌then◌else◌}
use letmein.Base.Lists.{All, All-append}

abbrev pub Text : Type 0
Text = List ℕ

-- The code points of a literal.
abbrev pub text : String → Text
text String.[] = []
text (String.◌∷◌ c s) = code c ∷ text s

-- The decimal digits of a number, `fuel` of them at most.
unfoldable pub digits : ℕ → ℕ → Text
digits zero n = []
digits (suc fuel) n =
    let rest = digits fuel (n / 10) in
    if ltb n 10 then (48 + n) ∷ [] else rest ++ ((48 + n % 10) ∷ [])

-- `{}` of a `u16`: five digits are enough.
abbrev pub decimal : ℕ → Text
decimal = digits 5

abbrev value_from : ℕ → Text → ℕ
value_from v [] = v
value_from v (c ∷ cs) = value_from (10 * v + (c - 48)) cs

value_from-append :
    (v : ℕ) (xs : Text) (c : ℕ) → value_from v (xs ++ (c ∷ [])) ≡ 10 * value_from v xs + (c - 48)
value_from-append v [] c = refl
value_from-append v (x ∷ xs) c = value_from-append (10 * v + (x - 48)) xs c

abbrev limit : ℕ → ℕ
limit zero = 0
limit (suc zero) = 10
limit (suc (suc fuel)) = 10 * limit (suc fuel)

value-digits : (fuel n : ℕ) → n < limit fuel → value_from 0 (digits fuel n) ≡ n
unfolding digits
value-digits zero n h = absurd (omega arith)
value-digits (suc zero) n h = ground arith
value-digits (suc (suc fuel)) n h = ground (
  arith,
  value-digits (suc fuel) (n / 10),
  value_from-append 0 (digits (suc fuel) (n / 10)) (48 + n % 10),
)

pub decimal-injective : (a b : ℕ) → a < 100000 → b < 100000 → decimal a ≡ decimal b → a ≡ b
decimal-injective a b ha hb h =
    sym (value-digits 5 a ha) ∙ ap (value_from 0) h ∙ value-digits 5 b hb

-- A digit is none of `/` and `+`.
pub digits_plain : (fuel n : ℕ) → All (λ c. 48 ≤ c) (digits fuel n)
unfolding digits
digits_plain zero n = tt
digits_plain (suc fuel) n = ground (
  arith,
  digits_plain fuel (n / 10),
  All-append (λ c. 48 ≤ c) (digits fuel (n / 10)) ((48 + n % 10) ∷ []),
)
