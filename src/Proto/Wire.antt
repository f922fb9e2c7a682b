-- ===== src/Proto/Wire.antt =====
-- letmein-proto/src/lib.rs: a message as 56 bytes.
pub mod RoundTrip
use letmein.Base.{ℕ, ◌+◌, nat_eq, length, replicate, Result, err, ◌>>=◌, ◌>>◌, ok, guard}
use letmein.Base.Bytes.{Bytes, write_at, slice, u32_be, from_be}
use letmein.Proto.Message.{magic_code, salt_size, auth_size, Message}
use letmein.Proto.Operation.{Operation, Error, size_mismatch, bad_magic, to_u32, try_from}

-- `MSG_SIZE`
abbrev pub msg_size : ℕ
msg_size = 4 + 4 + 4 + 4 + salt_size + auth_size

abbrev offs_magic : ℕ
offs_magic = 0

abbrev offs_operation : ℕ
offs_operation = 4

abbrev offs_user : ℕ
offs_user = 8

abbrev offs_resource : ℕ
offs_resource = 12

abbrev offs_salt : ℕ
offs_salt = 16

abbrev offs_auth : ℕ
offs_auth = 24

-- `serialize_u32` on the sub-slice from an offset
abbrev serialize_u32 : Bytes → ℕ → ℕ → Bytes
serialize_u32 buf offs value = write_at buf offs (u32_be value)

-- `deserialize_u32`
abbrev deserialize_u32 : Bytes → ℕ → ℕ
deserialize_u32 buf offs = from_be (slice buf offs 4) 0

unfoldable pub msg_serialize : Message → Bytes
msg_serialize m =
    let buf0 = replicate msg_size 0 in
    let buf1 = serialize_u32 buf0 offs_magic m.magic in
    let buf2 = serialize_u32 buf1 offs_operation (to_u32 m.operation) in
    let buf3 = serialize_u32 buf2 offs_user m.user in
    let buf4 = serialize_u32 buf3 offs_resource m.resource in
    let buf5 = write_at buf4 offs_salt m.salt in write_at buf5 offs_auth m.auth

unfoldable pub try_msg_deserialize : Bytes → Result Error Message
try_msg_deserialize buf = do
  guard (nat_eq (length buf) msg_size) size_mismatch
  let magic = deserialize_u32 buf offs_magic
  let operation = deserialize_u32 buf offs_operation
  let user = deserialize_u32 buf offs_user
  let resource = deserialize_u32 buf offs_resource
  let salt = slice buf offs_salt salt_size
  let auth = slice buf offs_auth auth_size
  guard (nat_eq magic magic_code) bad_magic
  operation' ← try_from operation
  ok (record {
    magic = magic;
    operation = operation';
    user = user;
    resource = resource;
    salt = salt;
    auth = auth;
  })
