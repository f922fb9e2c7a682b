-- ===== src/Client/Agreement.antt =====
-- The client's sequence (letmein/src/command/knock.rs, close.rs) against the server's
-- (letmeind/src/protocol.rs): each sends what the other waits for.
use letmein.Base.{ℕ, ◌≡◌, refl, ◌⊎◌, some, [], ◌∷◌, ◌++◌, arith, length, ok}
use letmein.Base.Bytes.{Bytes, u32_be}
use letmein.Client.{
  ClientError, Link, client_recv, expect, recv_specific_msg, client_send, client_random,
}
use letmein.Client.Sequence.{sequence}
use letmein.Proto.Auth.{authenticate, generate_auth, generate_auth_no_challenge}
use letmein.Proto.Message.{
  new, magic_code, salt_size, auth_size, key_size, zero_auth, UserId, ResourceId, Key, Message,
  secure_random,
}
use letmein.Proto.Operation.{
  operation_has_eq, Operation, knock, challenge, response, come_in, close, to_u32,
}
use letmein.Server.Protocol.Honest.{RandomBytes}
use letmein.Server.Session.{received, tx_done}

-- The same bytes are acceptable whatever the errors of the caller are.
random_any :
    {E : Type 0} (size : ℕ) (fill : Bytes)
    → RandomBytes size fill
    → secure_random {E = E} size (some fill) ≡ ok fill
unfolding secure_random
random_any size fill h = ground arith

module _ (mac : Key → Bytes → Bytes) (operation : Operation) (user : UserId) (resource : ResourceId)
    (key : Key) where
  -- A message with the token for the nonce.
  abbrev pub signed : Operation → Bytes → Bytes → Message
  signed o salt nonce = record {
    magic = magic_code;
    operation = o;
    user = user;
    resource = resource;
    salt = salt;
    auth = mac key (u32_be (to_u32 o) ++ (u32_be user ++ (u32_be resource ++ (salt ++ nonce))));
  }

  -- The client's two messages, for its random bytes and the nonce of the challenge.
  abbrev pub first_message : Bytes → Message
  first_message g1 = signed operation g1 zero_auth

  abbrev pub second_message : Bytes → Bytes → Message
  second_message g2 nonce = signed response g2 nonce

  -- The client's side of a session in which the server sends a challenge and a ComeIn.
  abbrev pub client_link : Bytes → Bytes → Message → Message → Link
  client_link g1 g2 c m = record {
    incoming = received c ∷ received m ∷ [];
    taken = tx_done ∷ tx_done ∷ [];
    client_fills = some g1 ∷ some g2 ∷ [];
    outgoing = [];
  }

  abbrev pub client_done : Bytes → Bytes → Bytes → Link
  client_done g1 g2 nonce = record {
    incoming = [];
    taken = [];
    client_fills = [];
    outgoing = second_message g2 nonce ∷ first_message g1 ∷ [];
  }

  module _ (g1 g2 : Bytes) (c m : Message) (is_request : (operation ≡ knock) ⊎ (operation ≡ close))
      (key_length : length key ≡ key_size) (r1 : RandomBytes salt_size g1)
      (r2 : RandomBytes salt_size g2) (is_challenge : c.operation ≡ challenge)
      (nonce_length : length c.auth ≡ auth_size) (is_come_in : m.operation ≡ come_in) where
    drafts :
        (o : Operation) (salt : Bytes)
        → RandomBytes salt_size salt
        → new {E = ClientError} o user resource (some salt)
          ≡ ok (record (signed o salt zero_auth) { auth = zero_auth })
    unfolding new
    drafts o salt r = rw (random_any {E = ClientError} salt_size salt r) refl

    signs_first :
        generate_auth_no_challenge mac {E = ClientError}
          (record (first_message g1) { auth = zero_auth })
          key
        ≡ ok (first_message g1)
    unfolding generate_auth_no_challenge authenticate
    signs_first = ground (arith, is_request, key_length)

    signs_second :
        generate_auth mac {E = ClientError}
          (record (second_message g2 c.auth) { auth = zero_auth })
          key
          c
        ≡ ok (second_message g2 c.auth)
    unfolding generate_auth authenticate
    signs_second = ground (arith, key_length, is_challenge, nonce_length)

    expects_challenge : expect challenge (some c) ≡ ok c
    expects_challenge = ground (arith, is_challenge)

    expects_come_in : expect come_in (some m) ≡ ok m
    expects_come_in = ground (arith, is_come_in)

    pub client_completes :
        sequence mac operation user resource key (ok tt) (client_link g1 g2 c m)
        ≡ (ok tt, client_done g1 g2 c.auth)
    unfolding sequence client_random client_send recv_specific_msg client_recv
    client_completes =
        rw
          (
            drafts operation g1 r1,
            signs_first,
            expects_challenge,
            drafts response g2 r2,
            signs_second,
            expects_come_in,
          )
          refl
