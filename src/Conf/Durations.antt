-- ===== src/Conf/Durations.antt =====
-- letmein-conf/src/parse.rs, `parse_duration`: a duration is a number of nanoseconds.
-- `read_f64` stands for `f64::from_str`. A finite `f64` is `n * 2 ^ -1074` for an integer `n`, so
-- that comparisons and the conversion to a duration are exact.
use native.Mathlib.Decide.{dec_lt}
use native.Mathlib.Nat.{div-le_of_le-mul, mul_comm, div-add-mod'}
use letmein.Base.{
  ℕ, ◌+◌, ◌-◌, ◌*◌, ◌/◌, ◌%◌, ◌^◌, ◌≤◌, ◌≡◌, Bool, not, ◌&&◌, ◌||◌, Option, none, some, arith, ltb,
  leb, nat_eq, if◌then◌else◌, Result, ok, err, panic, ◌<◌, refl, subst, ok_inj,
}
use letmein.Base.Texts.{Text}
use letmein.Conf.Parsing.{
  ConfError, bad_duration, trim_start, trim_end, trim, parse_u32, parse_u32-lt,
}

pub data F64 : Type 0 where
  nan infinite : F64
  finite : (negative : Bool) (n : ℕ) → F64

-- `2 ^ 1074`, the number of units in one
unfoldable pub one_f64 : ℕ
one_f64 = 2 ^ 1074

-- The nearest integer, at a tie the even one, of a quotient and its remainder
abbrev round_even : (whole rest unit : ℕ) → ℕ
round_even whole rest unit =
    if ltb (2 * rest) unit
    then whole
    else if ltb unit (2 * rest)
    then whole + 1
    else whole + whole % 2

-- `Duration::from_secs_f64`
unfoldable pub from_secs_f64 : ℕ → ℕ
unfolding one_f64
from_secs_f64 n = round_even (n * 10 ^ 9 / one_f64) (n * 10 ^ 9 % one_f64) one_f64

-- `parse_f64` and the range check behind it
unfoldable pub duration_f64 : Option F64 → Result ConfError ℕ
unfolding from_secs_f64
duration_f64 none = err bad_duration
duration_f64 (some nan) = err bad_duration
duration_f64 (some infinite) = err bad_duration
duration_f64 (some (finite negative n)) =
    if (not negative || nat_eq n 0) && leb n ((2 ^ 32 - 1) * one_f64)
    then ok (from_secs_f64 n)
    else err bad_duration

abbrev seconds_or : Result ConfError ℕ → Result ConfError ℕ → Result ConfError ℕ
seconds_or (ok secs) other = ok (secs * 10 ^ 9)
seconds_or (err e) other = other
seconds_or panic other = panic

-- `parse_duration`
unfoldable pub parse_duration : (Text → Option F64) → Text → Result ConfError ℕ
unfolding parse_u32 trim_start trim_end
parse_duration read_f64 s = seconds_or (parse_u32 s) (duration_f64 (read_f64 (trim s)))

-- A duration of at most `u32::MAX` seconds
abbrev pub max_duration : ℕ
max_duration = (2 ^ 32 - 1) * 10 ^ 9

round_even-le :
    (whole rest unit bound : ℕ)
    → 0 < unit
    → whole ≤ bound
    → (whole ≡ bound → rest ≡ 0)
    → round_even whole rest unit ≤ bound
round_even-le whole rest unit bound u w full = elim (dec_lt whole bound) [
  | yes below ↦ ground (arith, below)
  | no reached ↦ let none_left : rest ≡ 0 = full (omega arith) in ground (arith, none_left)
]

rounded-le :
    (m unit bound : ℕ) → 0 < unit → m ≤ bound * unit → round_even (m / unit) (m % unit) unit ≤ bound
rounded-le m unit bound u h =
    round_even-le (m / unit) (m % unit) unit bound u
      (div-le_of_le-mul unit (rw (mul_comm unit bound) h))
      (λ e. omega (arith, subst (λ q. q * unit + m % unit ≡ m) e (div-add-mod' m unit), h))

from_secs_f64-le :
    (n unit : ℕ)
    → 0 < unit
    → n ≤ (2 ^ 32 - 1) * unit
    → round_even (n * 10 ^ 9 / unit) (n * 10 ^ 9 % unit) unit ≤ max_duration
from_secs_f64-le n unit u h = rounded-le (n * 10 ^ 9) unit max_duration u (omega (arith, h))

duration_f64-le : (f : Option F64) (d : ℕ) → duration_f64 f ≡ ok d → d ≤ max_duration
unfolding duration_f64
duration_f64-le none d e = cc
duration_f64-le (some nan) d e = cc
duration_f64-le (some infinite) d e = cc
duration_f64-le (some (finite negative n)) d e =
    ground (arith, from_secs_f64-le n one_f64 (ground arith))

seconds_or-le :
    (m other : Result ConfError ℕ) (d : ℕ)
    → ((secs : ℕ) → m ≡ ok secs → secs < 2 ^ 32)
    → ((d' : ℕ) → other ≡ ok d' → d' ≤ max_duration)
    → seconds_or m other ≡ ok d
    → d ≤ max_duration
seconds_or-le (ok secs) other d small le e = omega (arith, small secs refl, ok_inj e)
seconds_or-le (err x) other d small le e = le d e
seconds_or-le panic other d small le e = cc

-- A parsed duration has at most `u32::MAX` seconds.
pub parse_duration-le :
    (read_f64 : Text → Option F64) (s : Text) (d : ℕ)
    → parse_duration read_f64 s ≡ ok d
    → d ≤ max_duration
unfolding parse_duration
parse_duration-le read_f64 s d e =
    seconds_or-le (parse_u32 s) (duration_f64 (read_f64 (trim s))) d (parse_u32-lt s)
      (duration_f64-le (read_f64 (trim s))) e
