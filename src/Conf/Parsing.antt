-- ===== src/Conf/Parsing.antt =====
-- letmein-conf/src/parse.rs: numbers in texts, and the operations of Rust's `str` that the parsers
-- of the configuration use.
use letmein.Base.{
  nat_has_eq, ◌>>=◌, ◌>>◌, ℕ, ◌+◌, ◌-◌, ◌*◌, ◌^◌, ◌<◌, ◌≡◌, Bool, ◌&&◌, ◌||◌, Option, none, some,
  List, [], ◌∷◌, ◌++◌, arith, ltb, leb, nat_eq, if◌then◌else◌, Result, ok, err, guard, or_fail,
  bind-eq-ok,
}
use letmein.Base.Texts.{Text}

pub data ConfError : Type 0 where
  bad_line bad_bool bad_duration bad_policy bad_seccomp bad_family unreadable bad_number bad_key
        bad_item_key :
      ConfError
  unknown_option bad_port multiple_values missing_port bad_user multiple_definitions : ConfError

-- `char::is_whitespace`
abbrev pub is_space : ℕ → Bool
is_space c =
    (leb 9 c && leb c 13)
    || nat_eq c 32
    || nat_eq c 0x85
    || nat_eq c 0xA0
    || nat_eq c 0x1680
    || (leb 0x2000 c && leb c 0x200A)
    || nat_eq c 0x2028
    || nat_eq c 0x2029
    || nat_eq c 0x202F
    || nat_eq c 0x205F
    || nat_eq c 0x3000

-- `str::trim_start`
unfoldable pub trim_start : Text → Text
trim_start [] = []
trim_start (c ∷ s) = let rest = trim_start s in if is_space c then rest else c ∷ s

abbrev pub keep_end : ℕ → Text → Text
keep_end c [] = if is_space c then [] else c ∷ []
keep_end c (d ∷ s) = c ∷ d ∷ s

-- `str::trim_end`
unfoldable pub trim_end : Text → Text
trim_end [] = []
trim_end (c ∷ s) = keep_end c (trim_end s)

-- `str::trim`
abbrev pub trim : Text → Text
trim s = trim_end (trim_start s)

abbrev add_first : ℕ → List Text → List Text
add_first c [] = (c ∷ []) ∷ []
add_first c (s ∷ ss) = (c ∷ s) ∷ ss

-- `str::split` at a character
unfoldable pub split : ℕ → Text → List Text
split sep [] = [] ∷ []
split sep (c ∷ s) = let rest = split sep s in if nat_eq c sep then [] ∷ rest else add_first c rest

abbrev grow : ℕ → Option (Text × Text) → Option (Text × Text)
grow c none = none
grow c (some (before, after)) = some (c ∷ before, after)

-- `str::find` of a character: what stands before and behind it
unfoldable pub find : ℕ → Text → Option (Text × Text)
find sep [] = none
find sep (c ∷ s) = let rest = find sep s in if nat_eq c sep then some ([], s) else grow c rest

-- `char::to_lowercase`, as far as a comparison with ASCII words sees it: beside the ASCII letters
-- the Kelvin sign gives `k` and the dotted I an `i` with a dot; other letters stay beyond ASCII.
abbrev lower : ℕ → Text
lower c =
    if leb 65 c && leb c 90
    then (c + 32) ∷ []
    else if nat_eq c 0x212A
    then 107 ∷ []
    else if nat_eq c 0x130
    then 105 ∷ 0x307 ∷ []
    else c ∷ []

-- `str::to_lowercase`
unfoldable pub to_lowercase : Text → Text
to_lowercase [] = []
to_lowercase (c ∷ s) = lower c ++ to_lowercase s

-- `char::to_digit(16)`; no digit of radix 10 is below another.
unfoldable pub digit_value : ℕ → Option ℕ
digit_value c =
    if leb 48 c && leb c 57
    then some (c - 48)
    else if leb 97 c && leb c 102
    then some (c - 87)
    else if leb 65 c && leb c 70
    then some (c - 55)
    else none

abbrev pub digit_in : ℕ → Option ℕ → Option ℕ
digit_in radix none = none
digit_in radix (some d) = if ltb d radix then some d else none

-- The digits behind the sign; the value must stay below `limit`.
unfoldable pub from_digits : ℕ → ℕ → ℕ → Text → Result ConfError ℕ
unfolding digit_value
from_digits radix limit acc [] = ok acc
from_digits radix limit acc (c ∷ s) = do
  d ← or_fail (digit_in radix (digit_value c)) bad_number
  guard (ltb (acc * radix + d) limit) bad_number
  from_digits radix limit (acc * radix + d) s

abbrev pub some_digits : ℕ → ℕ → Text → Result ConfError ℕ
some_digits radix limit [] = err bad_number
some_digits radix limit (c ∷ s) = from_digits radix limit 0 (c ∷ s)

-- `uN::from_str_radix`: a `+` may come first.
unfoldable pub from_str_radix : ℕ → ℕ → Text → Result ConfError ℕ
unfolding from_digits
from_str_radix radix limit [] = err bad_number
from_str_radix radix limit (c ∷ s) =
    if nat_eq c 43 then some_digits radix limit s else some_digits radix limit (c ∷ s)

-- `str::strip_prefix` for `0x`
unfoldable pub strip_0x : Text → Option Text
strip_0x [] = none
strip_0x (c ∷ []) = none
strip_0x (c ∷ d ∷ s) = if nat_eq c 48 && nat_eq d 120 then some s else none

abbrev parse_stripped : ℕ → Text → Option Text → Result ConfError ℕ
parse_stripped limit s (some t) = from_str_radix 16 limit t
parse_stripped limit s none = from_str_radix 10 limit s

-- `parse_u16` and `parse_u32` at their limits: decimal, or hexadecimal behind `0x`
unfoldable pub parse_number : ℕ → Text → Result ConfError ℕ
unfolding from_str_radix strip_0x
parse_number limit s = parse_stripped limit (trim s) (strip_0x (trim s))

-- `parse_u16`
unfoldable pub parse_u16 : Text → Result ConfError ℕ
unfolding parse_number
parse_u16 s = parse_number (2 ^ 16) s

-- `parse_u32`
unfoldable pub parse_u32 : Text → Result ConfError ℕ
unfolding parse_number
parse_u32 s = parse_number (2 ^ 32) s

-- `FromStr` of `UserId` and `ResourceId`
unfoldable pub parse_id : Text → Result ConfError ℕ
unfolding from_str_radix
parse_id s = from_str_radix 16 (2 ^ 32) (trim s)

from_digits-lt :
    (radix limit acc : ℕ) (s : Text) (n : ℕ)
    → acc < limit
    → from_digits radix limit acc s ≡ ok n
    → n < limit
unfolding from_digits digit_value
from_digits-lt radix limit acc [] n h e = ground (arith, e)
from_digits-lt radix limit acc (c ∷ s) n h e =
    let (d, _, kept) =
      bind-eq-ok (or_fail (digit_in radix (digit_value c)) bad_number)
        (λ d. do
          guard (ltb (acc * radix + d) limit) bad_number
          from_digits radix limit (acc * radix + d) s)
        e in
    let (_, below, rest) =
      bind-eq-ok (guard (ltb (acc * radix + d) limit) bad_number)
        (λ x. from_digits radix limit (acc * radix + d) s) kept in
    from_digits-lt radix limit (acc * radix + d) s n (ground (arith, below)) rest

some_digits-lt :
    (radix limit : ℕ) (s : Text) (n : ℕ) → 0 < limit → some_digits radix limit s ≡ ok n → n < limit
some_digits-lt radix limit [] n h e = cc
some_digits-lt radix limit (c ∷ s) n h e = from_digits-lt radix limit 0 (c ∷ s) n h e

pub from_str_radix-lt :
    (radix limit : ℕ) (s : Text) (n : ℕ)
    → 0 < limit
    → from_str_radix radix limit s ≡ ok n
    → n < limit
unfolding from_str_radix
from_str_radix-lt radix limit [] n h e = cc
from_str_radix-lt radix limit (c ∷ s) n h e =
    ground (arith, some_digits-lt radix limit s n, some_digits-lt radix limit (c ∷ s) n)

parse_stripped-lt :
    (limit : ℕ) (s : Text) (stripped : Option Text) (n : ℕ)
    → 0 < limit
    → parse_stripped limit s stripped ≡ ok n
    → n < limit
parse_stripped-lt limit s none n h e = from_str_radix-lt 10 limit s n h e
parse_stripped-lt limit s (some t) n h e = from_str_radix-lt 16 limit t n h e

pub parse_number-lt :
    (limit : ℕ) (s : Text) (n : ℕ) → 0 < limit → parse_number limit s ≡ ok n → n < limit
unfolding parse_number
parse_number-lt limit s n h e = parse_stripped-lt limit (trim s) (strip_0x (trim s)) n h e

pub parse_u16-lt : (s : Text) (n : ℕ) → parse_u16 s ≡ ok n → n < 2 ^ 16
unfolding parse_u16
parse_u16-lt s n e = parse_number-lt (2 ^ 16) s n (ground arith) e

pub parse_u32-lt : (s : Text) (n : ℕ) → parse_u32 s ≡ ok n → n < 2 ^ 32
unfolding parse_u32
parse_u32-lt s n e = parse_number-lt (2 ^ 32) s n (ground arith) e
