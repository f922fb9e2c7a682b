-- ===== src/Proto/Auth/Tokens.antt =====
-- letmein-proto/src/lib.rs: a generated token passes the check of the other side, also after the
-- message has gone over the wire.
use letmein.Base.{◌≡◌, ◌⊎◌, true, arith, length, list_eq_iff, ok, All}
use letmein.Base.Bytes.{Bytes, IsByte}
use letmein.Proto.Auth.{
  mac_input, check_auth_ok, check_auth_ok_no_challenge, generate_auth, generate_auth_no_challenge,
}
use letmein.Proto.Message.{auth_size, key_size, zero_auth, Key, Message, IsValid}
use letmein.Proto.Operation.{knock, challenge, response, close}
use letmein.Proto.Wire.{msg_serialize, try_msg_deserialize}
use letmein.Proto.Wire.RoundTrip.{deserialize-serialize}

module _ (mac : Key → Bytes → Bytes) where
  -- What a passed check says of the token.
  pub record Authentic (m : Message) (shared_key : Key) (nonce : Bytes) : Type 0 where
    pub key_size_ok : length shared_key ≡ key_size
    pub nonce_size_ok : length nonce ≡ auth_size
    pub token : m.auth ≡ mac shared_key (mac_input m nonce)

  module _ {E : Type 0} (m : Message) (shared_key : Key) where
    pub check_no_challenge-Authentic :
        check_auth_ok_no_challenge mac {E = E} m shared_key ≡ ok true
        → Authentic m shared_key zero_auth × ((m.operation ≡ knock) ⊎ (m.operation ≡ close))
    unfolding check_auth_ok_no_challenge
    check_no_challenge-Authentic h =
        ground (arith, list_eq_iff m.auth (mac shared_key (mac_input m zero_auth)))

    pub check-Authentic :
        (c : Message)
        → check_auth_ok mac {E = E} m shared_key c ≡ ok true
        → Authentic m shared_key c.auth × (m.operation ≡ response) × (c.operation ≡ challenge)
    unfolding check_auth_ok
    check-Authentic c h = ground (arith, list_eq_iff m.auth (mac shared_key (mac_input m c.auth)))

-- The parameter `mac` returns 32 bytes, as HMAC-SHA3-256 does.
abbrev pub Returns32 : (Key → Bytes → Bytes) → Type 0
Returns32 mac = (k x : Bytes) → (length (mac k x) ≡ auth_size) × All IsByte (mac k x)

module _ (mac : Key → Bytes → Bytes) (mac_size : Returns32 mac) where
  with_token-IsValid :
      (m : Message) (k x : Bytes) → IsValid m → IsValid (record m { auth = mac k x })
  with_token-IsValid m k x v = record {
    magic_ok = v.magic_ok;
    user_ok = v.user_ok;
    resource_ok = v.resource_ok;
    salt_ok = v.salt_ok;
    auth_ok = (mac_size k x).0;
    salt_bytes = v.salt_bytes;
    auth_bytes = (mac_size k x).1;
  }

  -- A Knock or Close message that the client authenticates with a key of 32 bytes is read from the
  -- wire by the server as it was sent, and passes the server's check under the same key.
  pub check-generate_no_challenge :
      {E : Type 0} (m : Message) (shared_key : Key)
      → IsValid m
      → (m.operation ≡ knock) ⊎ (m.operation ≡ close)
      → length shared_key ≡ key_size
      → (m' : Message) × (generate_auth_no_challenge mac {E = E} m shared_key ≡ ok m')
        × (try_msg_deserialize (msg_serialize m') ≡ ok m')
        × (check_auth_ok_no_challenge mac {E = E} m' shared_key ≡ ok true)
  unfolding generate_auth_no_challenge check_auth_ok_no_challenge
  check-generate_no_challenge {E} m shared_key v o hk = (
    record m { auth = mac shared_key (mac_input m zero_auth) },
    ground arith,
    deserialize-serialize _ (with_token-IsValid m shared_key _ v),
    ground (
      arith,
      list_eq_iff (mac shared_key (mac_input m zero_auth)) (mac shared_key (mac_input m zero_auth)),
    ),
  )

  -- A Response that the client authenticates with a key of 32 bytes for the server's Challenge `c` is
  -- read from the wire by the server as it was sent, and passes the server's check under the same key
  -- and challenge.
  pub check-generate :
      {E : Type 0} (m c : Message) (shared_key : Key)
      → IsValid m
      → IsValid c
      → m.operation ≡ response
      → c.operation ≡ challenge
      → length shared_key ≡ key_size
      → (m' : Message) × (generate_auth mac {E = E} m shared_key c ≡ ok m')
        × (try_msg_deserialize (msg_serialize m') ≡ ok m')
        × (check_auth_ok mac {E = E} m' shared_key c ≡ ok true)
  unfolding generate_auth check_auth_ok
  check-generate {E} m c shared_key v w o o' hk = (
    record m { auth = mac shared_key (mac_input m c.auth) },
    ground (arith, w.auth_ok),
    deserialize-serialize _ (with_token-IsValid m shared_key _ v),
    ground (
      arith,
      w.auth_ok,
      list_eq_iff (mac shared_key (mac_input m c.auth)) (mac shared_key (mac_input m c.auth)),
    ),
  )
