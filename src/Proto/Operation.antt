-- ===== src/Proto/Operation.antt =====
-- letmein-proto/src/lib.rs: the operation of a message and its number on the wire.
use letmein.Base.{
  ℕ, ◌<◌, ◌≡◌, ◌↔◌, Bool, true, Result, ok, err, arith, nat_eq, if◌then◌else◌, HasEq, zero, suc,
  refl, ◌⊎◌, inl, inr,
}

pub data Operation : Type 0 where
  knock challenge response come_in go_away close : Operation

pub data Error : Type 0 where
  size_mismatch bad_magic bad_operation : Error

-- `From<Operation> for u32`: the discriminant.
abbrev pub to_u32 : Operation → ℕ
to_u32 knock = 0
to_u32 challenge = 1
to_u32 response = 2
to_u32 come_in = 3
to_u32 go_away = 4
to_u32 close = 5

-- `TryFrom<u32> for Operation`
unfoldable pub try_from : ℕ → Result Error Operation
try_from value =
    if nat_eq value (to_u32 knock)
    then ok knock
    else if nat_eq value (to_u32 challenge)
    then ok challenge
    else if nat_eq value (to_u32 response)
    then ok response
    else if nat_eq value (to_u32 come_in)
    then ok come_in
    else if nat_eq value (to_u32 go_away)
    then ok go_away
    else if nat_eq value (to_u32 close)
    then ok close
    else err bad_operation

-- `PartialEq for Operation`
abbrev pub operation_eq : Operation → Operation → Bool
operation_eq a b = nat_eq (to_u32 a) (to_u32 b)

pub operation_eq_iff : (a b : Operation) → (operation_eq a b ≡ true) ↔ (a ≡ b)
operation_eq_iff a b = ground arith

instance abbrev pub operation_has_eq : HasEq Operation
operation_has_eq = record { same = operation_eq; same_iff = operation_eq_iff }

pub to_u32-lt : (o : Operation) → to_u32 o < 6
to_u32-lt o = ground arith

pub try_from-to_u32 : (o : Operation) → try_from (to_u32 o) ≡ ok o
unfolding try_from
try_from-to_u32 o = ground arith

pub to_u32-try_from : (v : ℕ) (o : Operation) → try_from v ≡ ok o → to_u32 o ≡ v
unfolding try_from
to_u32-try_from v o h = ground arith

pub try_from_fails : (v : ℕ) → 5 < v → try_from v ≡ err bad_operation
unfolding try_from
try_from_fails v h = ground arith

pub try_from_cases :
    (v : ℕ) → ((5 < v) × (try_from v ≡ err bad_operation)) ⊎ ((o : Operation) × (try_from v ≡ ok o))
unfolding try_from
try_from_cases zero = inr (knock, refl)
try_from_cases (suc zero) = inr (challenge, refl)
try_from_cases (suc (suc zero)) = inr (response, refl)
try_from_cases (suc (suc (suc zero))) = inr (come_in, refl)
try_from_cases (suc (suc (suc (suc zero)))) = inr (go_away, refl)
try_from_cases (suc (suc (suc (suc (suc zero))))) = inr (close, refl)
try_from_cases (suc (suc (suc (suc (suc (suc n)))))) = inl (omega arith, ground arith)
