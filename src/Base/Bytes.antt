-- ===== src/Base/Bytes.antt =====
-- Byte buffers: big-endian integers, `copy_from_slice` at an offset, and sub-slices.
use Prim.Native.Nat.{ℕ, zero, suc, ◌+◌, ◌*◌, ◌/◌, ◌%◌, ◌^◌, ◌<◌, ◌≤◌}
use mathlib.Core.List.{List, [], ◌∷◌, ◌++◌, append_assoc}
use mathlib.Core.Path.{◌≡◌, refl, sym, ap, ◌∙◌}
use native.Mathlib.Nat.{suc-add}
use native.Mathlib.Omega.{arith}
use letmein.Base.Lists.{
  length, take, drop, All, length-append, take-append, drop-append, take-append-drop, length-take,
  length-drop, All-take, All-drop,
}

abbrev pub Bytes : Type 0
Bytes = List ℕ

abbrev pub IsByte : ℕ → Type 0
IsByte b = b < 256

-- `buf[offs..offs + src.len()].copy_from_slice(src)`
abbrev pub write_at : Bytes → ℕ → Bytes → Bytes
write_at buf offs src = take offs buf ++ (src ++ drop (offs + length src) buf)

-- `&buf[offs..offs + len]`
abbrev pub slice : Bytes → ℕ → ℕ → Bytes
slice buf offs len = take len (drop offs buf)

-- `u16::to_be_bytes`
abbrev pub u16_be : ℕ → Bytes
u16_be v = v / 256 % 256 ∷ v % 256 ∷ []

-- `u32::to_be_bytes`
abbrev pub u32_be : ℕ → Bytes
u32_be v = v / 16777216 % 256 ∷ v / 65536 % 256 ∷ v / 256 % 256 ∷ v % 256 ∷ []

-- `uN::from_be_bytes`
abbrev pub from_be : Bytes → ℕ → ℕ
from_be [] acc = acc
from_be (b ∷ bs) acc = from_be bs (acc * 256 + b)

pub from_be-u16_be : (v : ℕ) → v < 2 ^ 16 → from_be (u16_be v) 0 ≡ v
from_be-u16_be v h = omega arith

pub from_be-u32_be : (v : ℕ) → v < 2 ^ 32 → from_be (u32_be v) 0 ≡ v
from_be-u32_be v h = omega arith

pub u32_be-injective : (v w : ℕ) → v < 2 ^ 32 → w < 2 ^ 32 → u32_be v ≡ u32_be w → v ≡ w
u32_be-injective v w hv hw e =
    sym (from_be-u32_be v hv) ∙ ap (λ bs. from_be bs 0) e ∙ from_be-u32_be w hw

-- A write over the middle piece of a buffer replaces that piece.
pub write_at-append :
    (a b c src : Bytes) (offs : ℕ)
    → length a ≡ offs
    → length b ≡ length src
    → write_at (a ++ (b ++ c)) offs src ≡ a ++ (src ++ c)
write_at-append a b c src offs ha hb = rw (
  take-append offs a (b ++ c) ha,
  ← append_assoc a b c,
  drop-append (offs + length src) (a ++ b) c (omega (arith, length-append a b)),
)

pub slice-append :
    (a b c : Bytes) (offs len : ℕ)
    → length a ≡ offs
    → length b ≡ len
    → slice (a ++ (b ++ c)) offs len ≡ b
slice-append a b c offs len ha hb = rw (drop-append offs a (b ++ c) ha, take-append len b c hb)

pub u32_be-from_be : (bs : Bytes) → length bs ≡ 4 → All IsByte bs → u32_be (from_be bs 0) ≡ bs
u32_be-from_be (a ∷ b ∷ c ∷ d ∷ []) h p = ground arith
u32_be-from_be [] h p = absurd (omega arith)
u32_be-from_be (a ∷ []) h p = absurd (omega arith)
u32_be-from_be (a ∷ b ∷ []) h p = absurd (omega arith)
u32_be-from_be (a ∷ b ∷ c ∷ []) h p = absurd (omega arith)
u32_be-from_be (a ∷ b ∷ c ∷ d ∷ x ∷ r) h p = absurd (omega arith)

pub u16_be-from_be : (bs : Bytes) → length bs ≡ 2 → All IsByte bs → u16_be (from_be bs 0) ≡ bs
u16_be-from_be (a ∷ b ∷ []) h p = ground arith
u16_be-from_be [] h p = absurd (omega arith)
u16_be-from_be (a ∷ []) h p = absurd (omega arith)
u16_be-from_be (a ∷ b ∷ x ∷ r) h p = absurd (omega arith)

pub from_be-lt : (bs : Bytes) → length bs ≡ 4 → All IsByte bs → from_be bs 0 < 2 ^ 32
from_be-lt (a ∷ b ∷ c ∷ d ∷ []) h p = omega arith
from_be-lt [] h p = absurd (omega arith)
from_be-lt (a ∷ []) h p = absurd (omega arith)
from_be-lt (a ∷ b ∷ []) h p = absurd (omega arith)
from_be-lt (a ∷ b ∷ c ∷ []) h p = absurd (omega arith)
from_be-lt (a ∷ b ∷ c ∷ d ∷ x ∷ r) h p = absurd (omega arith)

pub from_be-lt16 : (bs : Bytes) → length bs ≡ 2 → All IsByte bs → from_be bs 0 < 2 ^ 16
from_be-lt16 (a ∷ b ∷ []) h p = omega arith
from_be-lt16 [] h p = absurd (omega arith)
from_be-lt16 (a ∷ []) h p = absurd (omega arith)
from_be-lt16 (a ∷ b ∷ x ∷ r) h p = absurd (omega arith)

pub slice-append-drop :
    (buf : Bytes) (offs len : ℕ) → slice buf offs len ++ drop len (drop offs buf) ≡ drop offs buf
slice-append-drop buf offs len = take-append-drop len (drop offs buf)

pub length-slice :
    (buf : Bytes) (offs len : ℕ) → offs + len ≤ length buf → length (slice buf offs len) ≡ len
length-slice buf offs len h = omega (arith, length-take len (drop offs buf), length-drop offs buf)

pub slice-IsByte : (buf : Bytes) (offs len : ℕ) → All IsByte buf → All IsByte (slice buf offs len)
slice-IsByte buf offs len h = All-take IsByte len _ (All-drop IsByte offs buf h)

drop_nil : (n : ℕ) → drop {A = ℕ} n [] ≡ []
drop_nil zero = refl
drop_nil (suc n) = refl

pub drop-drop : (m n : ℕ) (buf : Bytes) → drop m (drop n buf) ≡ drop (n + m) buf
drop-drop m zero buf = ap (λ k. drop k buf) (omega arith)
drop-drop m (suc n) [] = drop_nil m ∙ sym (drop_nil (suc n + m))
drop-drop m (suc n) (x ∷ xs) = rw suc-add (drop-drop m n xs)
