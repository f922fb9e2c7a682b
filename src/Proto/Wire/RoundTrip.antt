-- ===== src/Proto/Wire/RoundTrip.antt =====
-- letmein-proto/src/lib.rs: `msg_serialize` and `try_msg_deserialize` are inverse to one another.
use mathlib.Core.List.{append-nil, append_assoc}
use letmein.Base.{
  ℕ, ◌+◌, ◌<◌, ◌≡◌, refl, sym, ap, ◌∙◌, [], ◌++◌, ok, err, arith, length, drop, replicate, All,
  length-append, take-append, drop-append, ◌^◌, ◌≤◌, ◌≢◌, ◌⊎◌, length-drop, inl, nat_eq, Bool-cases,
  inr, ap₂, take_all,
}
use letmein.Base.Bytes.{
  Bytes, IsByte, u32_be, from_be, write_at, slice, from_be-u32_be, write_at-append, u32_be-from_be,
  from_be-lt, slice-append-drop, length-slice, slice-IsByte, drop-drop,
}
use letmein.Proto.Message.{Message, IsValid, magic_code}
use letmein.Proto.Operation.{
  to_u32, to_u32-lt, try_from, try_from-to_u32, to_u32-try_from, size_mismatch, bad_magic,
  bad_operation, try_from_cases, Operation,
}
use letmein.Proto.Wire.{msg_size, msg_serialize, try_msg_deserialize}

-- The six fields one after the other.
abbrev pub layout : Message → Bytes
layout m =
    u32_be m.magic
    ++ (u32_be (to_u32 m.operation) ++ (u32_be m.user ++ (u32_be m.resource ++ (m.salt ++ m.auth))))

pub msg_serialize-layout :
    (m : Message) → length m.salt ≡ 8 → length m.auth ≡ 32 → msg_serialize m ≡ layout m
unfolding msg_serialize
msg_serialize-layout m hs ha =
    let head =
      u32_be m.magic ++ (u32_be (to_u32 m.operation) ++ (u32_be m.user ++ u32_be m.resource)) in
    ap (λ buf. write_at buf 24 m.auth)
      (write_at-append head (replicate 8 0) (replicate 32 0) m.salt 16 refl (sym hs))
    ∙ ap (λ buf. write_at buf 24 m.auth) (sym (append_assoc head m.salt (replicate 32 0)))
    ∙ ap (λ rest. write_at ((head ++ m.salt) ++ rest) 24 m.auth) (sym (append-nil (replicate 32 0)))
    ∙ write_at-append (head ++ m.salt) (replicate 32 0) [] m.auth 24
        (omega (arith, length-append head m.salt)) (sym ha)
    ∙ ap (λ rest. (head ++ m.salt) ++ rest) (append-nil m.auth)

deserialize-layout : (m : Message) → IsValid m → try_msg_deserialize (layout m) ≡ ok m
unfolding try_msg_deserialize
deserialize-layout m v = ground (
  arith,
  length-append m.salt m.auth,
  take-append 8 m.salt m.auth v.salt_ok,
  drop-append 8 m.salt m.auth v.salt_ok,
  take-append 32 m.auth [] v.auth_ok,
  append-nil m.auth,
  from_be-u32_be m.magic,
  from_be-u32_be m.user v.user_ok,
  from_be-u32_be m.resource v.resource_ok,
  from_be-u32_be (to_u32 m.operation),
  to_u32-lt m.operation,
  try_from-to_u32 m.operation,
)

-- Every valid message is read back from its 56 bytes as it was.
pub deserialize-serialize : (m : Message) → IsValid m → try_msg_deserialize (msg_serialize m) ≡ ok m
deserialize-serialize m v = rw (msg_serialize-layout m v.salt_ok v.auth_ok) (deserialize-layout m v)

pub length-msg_serialize : (m : Message) → IsValid m → length (msg_serialize m) ≡ msg_size
length-msg_serialize m v =
    rw (msg_serialize-layout m v.salt_ok v.auth_ok)
      (omega (arith, length-append m.salt m.auth, v.salt_ok, v.auth_ok))

-- What a buffer holds that `try_msg_deserialize` accepts.
record Accepted (buf : Bytes) (m : Message) : Type 0 where
  size : length buf ≡ msg_size
  magic : from_be (slice buf 0 4) 0 ≡ magic_code
  operation : try_from (from_be (slice buf 4 4) 0) ≡ ok m.operation
  magic_is : m.magic ≡ from_be (slice buf 0 4) 0
  user_is : m.user ≡ from_be (slice buf 8 4) 0
  resource_is : m.resource ≡ from_be (slice buf 12 4) 0
  salt_is : m.salt ≡ slice buf 16 8
  auth_is : m.auth ≡ slice buf 24 32

deserialize-Accepted : (buf : Bytes) (m : Message) → try_msg_deserialize buf ≡ ok m → Accepted buf m
unfolding try_msg_deserialize
deserialize-Accepted buf m h = ground arith

module _ (buf : Bytes) (size : length buf ≡ msg_size) (bytes : All IsByte buf) where
  field_be : (offs : ℕ) → offs + 4 ≤ 56 → u32_be (from_be (slice buf offs 4) 0) ≡ slice buf offs 4
  field_be offs h =
      u32_be-from_be _ (length-slice buf offs 4 (omega arith)) (slice-IsByte buf offs 4 bytes)

  field-lt : (offs : ℕ) → offs + 4 ≤ 56 → from_be (slice buf offs 4) 0 < 2 ^ 32
  field-lt offs h =
      from_be-lt _ (length-slice buf offs 4 (omega arith)) (slice-IsByte buf offs 4 bytes)

  -- The six slices make up the buffer.
  slices :
      slice buf 0 4
        ++ (slice buf 4 4
            ++ (slice buf 8 4 ++ (slice buf 12 4 ++ (slice buf 16 8 ++ slice buf 24 32))))
      ≡ buf
  slices = rw (
    take_all 32 (drop 24 buf) (omega (arith, length-drop 24 buf)),
    ← drop-drop 8 16 buf,
    slice-append-drop buf 16 8,
    ← drop-drop 4 12 buf,
    slice-append-drop buf 12 4,
    ← drop-drop 4 8 buf,
    slice-append-drop buf 8 4,
    ← drop-drop 4 4 buf,
    slice-append-drop buf 4 4,
    slice-append-drop buf 0 4,
  )

  Accepted-IsValid : (m : Message) → Accepted buf m → IsValid m
  Accepted-IsValid m a = record {
    magic_ok = a.magic_is ∙ a.magic;
    user_ok = rw a.user_is (field-lt 8 (omega arith));
    resource_ok = rw a.resource_is (field-lt 12 (omega arith));
    salt_ok = rw a.salt_is (length-slice buf 16 8 (omega arith));
    auth_ok = rw a.auth_is (length-slice buf 24 32 (omega arith));
    salt_bytes = rw a.salt_is (slice-IsByte buf 16 8 bytes);
    auth_bytes = rw a.auth_is (slice-IsByte buf 24 32 bytes);
  }

  Accepted-layout : (m : Message) → Accepted buf m → layout m ≡ buf
  Accepted-layout m a =
      let operation_is = to_u32-try_from _ m.operation a.operation in
      ap₂ ◌++◌ (ap u32_be a.magic_is ∙ field_be 0 (omega arith)) (
        ap₂ ◌++◌ (ap u32_be operation_is ∙ field_be 4 (omega arith)) (
          ap₂ ◌++◌ (ap u32_be a.user_is ∙ field_be 8 (omega arith)) (
            ap₂ ◌++◌ (ap u32_be a.resource_is ∙ field_be 12 (omega arith))
              (ap₂ ◌++◌ a.salt_is a.auth_is))))
      ∙ slices

-- A byte buffer that is accepted holds a valid message, and is the serialization of that message:
-- no two buffers stand for one message.
pub serialize-deserialize :
    (buf : Bytes) (m : Message)
    → All IsByte buf
    → try_msg_deserialize buf ≡ ok m
    → IsValid m × (msg_serialize m ≡ buf)
serialize-deserialize buf m bytes h =
    let a = deserialize-Accepted buf m h in
    let v = Accepted-IsValid buf a.size bytes m a in
    (v, msg_serialize-layout m v.salt_ok v.auth_ok ∙ Accepted-layout buf a.size bytes m a)

abbrev pub fields : Bytes → Operation → Message
fields buf operation = record {
  magic = from_be (slice buf 0 4) 0;
  operation = operation;
  user = from_be (slice buf 8 4) 0;
  resource = from_be (slice buf 12 4) 0;
  salt = slice buf 16 8;
  auth = slice buf 24 32;
}

-- Which buffers are refused, and with which error: a wrong size first, then a wrong magic code,
-- then an operation number above 5. There is no other error and no panic.
pub deserialize_total :
    (buf : Bytes)
    → ((length buf ≢ msg_size) × (try_msg_deserialize buf ≡ err size_mismatch))
      ⊎ ((length buf ≡ msg_size)
          × (from_be (slice buf 0 4) 0 ≢ magic_code)
          × (try_msg_deserialize buf ≡ err bad_magic))
      ⊎ ((length buf ≡ msg_size)
          × (from_be (slice buf 0 4) 0 ≡ magic_code)
          × (5 < from_be (slice buf 4 4) 0)
          × (try_msg_deserialize buf ≡ err bad_operation))
      ⊎ ((o : Operation) × (length buf ≡ msg_size)
          × (from_be (slice buf 0 4) 0 ≡ magic_code)
          × (try_from (from_be (slice buf 4 4) 0) ≡ ok o)
          × (try_msg_deserialize buf ≡ ok (fields buf o)))
unfolding try_msg_deserialize
deserialize_total buf = elim (Bool-cases (nat_eq (length buf) msg_size)) [
  | inr wrong ↦ inl (ground arith, rw wrong)
  | inl size ↦ elim (Bool-cases (nat_eq (from_be (slice buf 0 4) 0) magic_code)) [
    | inr bad ↦ inr (inl (ground arith, ground arith, rw (size, bad)))
    | inl good ↦ elim (try_from_cases (from_be (slice buf 4 4) 0)) [
      | inl (high, e) ↦ inr (inr (inl (ground arith, ground arith, high, rw (size, good, e))))
      | inr (o, e) ↦ inr (inr (inr (o, ground arith, ground arith, e, rw (size, good, e))))
    ]
  ]
]
