-- ===== src/Conf/Ids.antt =====
-- letmein-proto/src/lib.rs: the ids as texts, `Display` and `FromStr`.
use native.Mathlib.Nat.{pow-suc, div-div-eq-div-mul, div-one, div-le_self}
use letmein.Base.{
  ℕ, zero, suc, ◌+◌, ◌/◌, ◌%◌, ◌^◌, ◌<◌, ◌≡◌, refl, false, some, [], ◌∷◌, arith, ltb, if◌then◌else◌,
  All, ok, ◌*◌, sym, ap, ◌∙◌, subst, ◌≢◌,
}
use letmein.Base.Texts.{Text}
use letmein.Conf.Parsing.{
  is_space, trim_start, trim_end, trim, digit_value, from_digits, some_digits, from_str_radix,
  parse_id,
}

abbrev hex_digit : ℕ → ℕ
hex_digit d = if ltb d 10 then 48 + d else 55 + d

-- The last `k` hexadecimal digits of a number
unfoldable pub hex_digits : ℕ → ℕ → Text
hex_digits zero n = []
hex_digits (suc k) n = hex_digit (n / 16 ^ k % 16) ∷ hex_digits k n

-- `Display`: `{:08X}`, which has eight digits for a `u32`
unfoldable pub show_id : ℕ → Text
unfolding hex_digits
show_id id = hex_digits 8 id

abbrev Solid : Text → Type 0
Solid = All (λ c. is_space c ≡ false)

trim_end-Solid : (s : Text) → Solid s → trim_end s ≡ s
unfolding trim_end
trim_end-Solid [] x = refl
trim_end-Solid (c ∷ []) (x, _) = ground (arith, x)
trim_end-Solid (c ∷ d ∷ s) (x, y) = ground (arith, x, trim_end-Solid (d ∷ s) y)

trim-Solid : (s : Text) → Solid s → trim s ≡ s
unfolding trim_start
trim-Solid [] x = trim_end-Solid [] x
trim-Solid (c ∷ s) (x, y) = ground (arith, x, trim_end-Solid (c ∷ s) (x, y))

hex_digit-solid : (d : ℕ) → d < 16 → is_space (hex_digit d) ≡ false
hex_digit-solid d l = ground (arith, l)

hex_digits-Solid : (k n : ℕ) → Solid (hex_digits k n)
unfolding hex_digits
hex_digits-Solid zero n = tt
hex_digits-Solid (suc k) n =
    (hex_digit-solid (n / 16 ^ k % 16) (ground arith), hex_digits-Solid k n)

digit_value-hex_digit : (d : ℕ) → d < 16 → digit_value (hex_digit d) ≡ some d
unfolding digit_value
digit_value-hex_digit d l = ground (arith, l)

push_digit :
    (acc d limit : ℕ) (s : Text)
    → d < 16
    → acc * 16 + d < limit
    → from_digits 16 limit acc (hex_digit d ∷ s) ≡ from_digits 16 limit (acc * 16 + d) s
unfolding from_digits
push_digit acc d limit s l b = rw (digit_value-hex_digit d l) (ground (arith, l, b))

-- One digit more makes the prefix `n / 16 ^ suc k` the prefix `n / 16 ^ k`.
join_digit : (k n : ℕ) → n / 16 ^ suc k * 16 + n / 16 ^ k % 16 ≡ n / 16 ^ k
join_digit k n = rw (pow-suc 16 k, ← div-div-eq-div-mul n (16 ^ k) 16) (ground arith)

from_digits-hex_digits :
    (k n limit : ℕ) → n < limit → from_digits 16 limit (n / 16 ^ k) (hex_digits k n) ≡ ok n
unfolding from_digits hex_digits
from_digits-hex_digits zero n limit l = ap ok (div-one n)
from_digits-hex_digits (suc k) n limit l =
    push_digit (n / 16 ^ suc k) (n / 16 ^ k % 16) limit (hex_digits k n) (ground arith)
      (ground (arith, join_digit k n, div-le_self n (16 ^ k), l))
    ∙ subst (λ a. from_digits 16 limit a (hex_digits k n) ≡ ok n) (sym (join_digit k n))
        (from_digits-hex_digits k n limit l)

some_digits-hex_digits : (id : ℕ) → id < 2 ^ 32 → some_digits 16 (2 ^ 32) (hex_digits 8 id) ≡ ok id
unfolding hex_digits
some_digits-hex_digits id l =
    subst (λ a. from_digits 16 (2 ^ 32) a (hex_digits 8 id) ≡ ok id) (ground (arith, l))
      (from_digits-hex_digits 8 id (2 ^ 32) l)

from_str_radix-unsigned :
    (c : ℕ) (s : Text) (limit : ℕ)
    → c ≢ 43
    → from_str_radix 16 limit (c ∷ s) ≡ some_digits 16 limit (c ∷ s)
unfolding from_str_radix
from_str_radix-unsigned c s limit n = ground (arith, n)

hex_digit-unsigned : (d : ℕ) → d < 16 → hex_digit d ≢ 43
hex_digit-unsigned d l e = ground (arith, l, e)

-- Every id of 32 bits is read back from its text.
pub parse_id-show_id : (id : ℕ) → id < 2 ^ 32 → parse_id (show_id id) ≡ ok id
unfolding show_id parse_id hex_digits
parse_id-show_id id l =
    ap (from_str_radix 16 (2 ^ 32)) (trim-Solid (hex_digits 8 id) (hex_digits-Solid 8 id))
    ∙ from_str_radix-unsigned (hex_digit (id / 16 ^ 7 % 16)) (hex_digits 7 id) (2 ^ 32)
        (hex_digit-unsigned (id / 16 ^ 7 % 16) (ground arith))
    ∙ some_digits-hex_digits id l
