-- ===== src/Proto/Auth.antt =====
-- letmein-proto/src/lib.rs: authentication tokens. HMAC-SHA3-256 is the parameter `mac`, a function
-- of the key and the whole input; the `update` calls concatenate. `debug_assert_ne!` is left out,
-- as in a release build.
pub mod Binding
pub mod Tokens
use letmein.Base.{
  ℕ, Bool, ◌||◌, Option, List, ◌++◌, nat_eq, length, ◌==◌, list_eq, Result, ◌>>=◌, ◌>>◌, ok, check,
}
use letmein.Base.Bytes.{Bytes, u32_be}
use letmein.Proto.Message.{auth_size, key_size, zero_auth, Key, Message, secure_random}
use letmein.Proto.Operation.{Operation, knock, challenge, response, close, to_u32, operation_has_eq}

-- The input of the MAC.
abbrev pub mac_input : Message → Bytes → Bytes
mac_input m nonce =
    u32_be (to_u32 m.operation) ++ (u32_be m.user ++ (u32_be m.resource ++ (m.salt ++ nonce)))

module _ (mac : Key → Bytes → Bytes) where
  -- `authenticate`
  unfoldable pub authenticate : {E : Type 0} → Message → Key → Bytes → Result E Bytes
  authenticate m shared_key nonce = do
    check (nat_eq (length shared_key) key_size)
    check (nat_eq (length nonce) auth_size)
    ok (mac shared_key (mac_input m nonce))

  abbrev pub authenticate_no_challenge : {E : Type 0} → Message → Key → Result E Bytes
  authenticate_no_challenge m shared_key = authenticate m shared_key zero_auth

  -- `check_auth_ok`
  unfoldable pub check_auth_ok : {E : Type 0} → Message → Key → Message → Result E Bool
  unfolding authenticate
  check_auth_ok m shared_key c = do
    check (c.operation == challenge)
    check (m.operation == response)
    token ← authenticate m shared_key c.auth
    ok (list_eq m.auth token)

  -- `check_auth_ok_no_challenge`
  unfoldable pub check_auth_ok_no_challenge : {E : Type 0} → Message → Key → Result E Bool
  unfolding authenticate
  check_auth_ok_no_challenge m shared_key = do
    check (m.operation == knock || m.operation == close)
    token ← authenticate_no_challenge m shared_key
    ok (list_eq m.auth token)

  -- `generate_auth`
  unfoldable pub generate_auth : {E : Type 0} → Message → Key → Message → Result E Message
  unfolding authenticate
  generate_auth m shared_key c = do
    check (c.operation == challenge)
    check (m.operation == response)
    token ← authenticate m shared_key c.auth
    ok (record m { auth = token })

  -- `generate_auth_no_challenge`
  unfoldable pub generate_auth_no_challenge : {E : Type 0} → Message → Key → Result E Message
  unfolding authenticate
  generate_auth_no_challenge m shared_key = do
    check (m.operation == knock || m.operation == close)
    token ← authenticate_no_challenge m shared_key
    ok (record m { auth = token })

-- `generate_challenge`
unfoldable pub generate_challenge : {E : Type 0} → Message → Option Bytes → Result E Message
generate_challenge m fill = do
  check (m.operation == challenge)
  nonce ← secure_random auth_size fill
  ok (record m { auth = nonce })
