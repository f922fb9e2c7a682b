-- ===== src/Server/Protocol/Honest.antt =====
-- letmeind/src/protocol.rs: a client that knows the key, on a network that delivers, is let in.
use letmein.Base.{
  nat_has_eq, ℕ, ◌≡◌, refl, inl, inr, Bool, true, Option, none, some, List, [], ◌∷◌, length, ok,
  not, arith, nat_eq, if◌then◌else◌, ◌==◌, list_eq_iff, ap, Bool-cases,
}
use letmein.Base.Bytes.{Bytes}
use letmein.Conf.{port_resource, Config}
use letmein.FwProto.Fields.{IpAddr, ack, PortType}
use letmein.FwProto.Message.{FirewallMessage, new_open, new_close}
use letmein.Proto.Auth.{
  authenticate, check_auth_ok_no_challenge, mac_input, check_auth_ok, generate_challenge,
}
use letmein.Proto.Message.{
  new, magic_code, key_size, UserId, ResourceId, Key, Message, secure_random, salt_size, auth_size,
  zero_auth,
}
use letmein.Proto.Operation.{operation_has_eq, Operation, challenge, response, come_in, close}
use letmein.Server.FirewallClient.{open_port, close_port, connect, exchange, reply_result}
use letmein.Server.Protocol.{
  receive_initial, authorise, requested_type, new_msg, recv_msg, challenge_client, reconfigure,
  welcome, run,
}
use letmein.Server.Protocol.Allowed.{Identified, Entitled, Answered}
use letmein.Server.Session.{
  AuthState, not_auth, basic_authenticated, challenge_response, Failure, RxEvent, received, TxEvent,
  tx_done, FwReply, replied, Event, got, sent, fw_connected, fw_sent, fw_got, Session, receive,
  send_msg, random,
}

-- Bytes that `secure_random` accepts.
abbrev pub RandomBytes : ℕ → Bytes → Type 0
RandomBytes size fill = secure_random {E = Failure} size (some fill) ≡ ok fill

abbrev pub made : Operation → Message → Bytes → Bytes → Message
made operation request salt auth = record {
  magic = magic_code;
  operation = operation;
  user = request.user;
  resource = request.resource;
  salt = salt;
  auth = auth;
}

module _ (request answer : Message) (f1 f2 f3 : Bytes) (reply : FirewallMessage) where
  abbrev stage :
      Option UserId
      → Option ResourceId
      → AuthState
      → List RxEvent
      → List TxEvent
      → List (Option Bytes)
      → List FwReply
      → List Event
      → Session
  stage u r a rx tx fills replies trace = record {
    user_id = u;
    resource_id = r;
    auth_state = a;
    rx = rx;
    tx = tx;
    fills = fills;
    fw_connects = true;
    fw_sends = true;
    fw_replies = replies;
    trace = trace;
  }

  -- The environment of the session: both messages arrive, everything that the server sends is taken,
  -- and the daemon replies.
  abbrev pub meeting : Session
  meeting =
      stage none none not_auth (received request ∷ received answer ∷ []) (tx_done ∷ tx_done ∷ [])
        (some f1 ∷ some f2 ∷ some f3 ∷ []) (replied reply ∷ []) []

  abbrev begun : AuthState → Session
  begun a =
      stage (some request.user) (some request.resource) a (received answer ∷ [])
        (tx_done ∷ tx_done ∷ []) (some f1 ∷ some f2 ∷ some f3 ∷ []) (replied reply ∷ [])
        (got request ∷ [])

  abbrev proved : Session
  proved =
      stage (some request.user) (some request.resource) challenge_response [] (tx_done ∷ [])
        (some f3 ∷ []) (replied reply ∷ [])
        (got answer ∷ sent (made challenge request f1 f2) ∷ got request ∷ [])

  abbrev granted : FirewallMessage → Session
  granted q =
      stage (some request.user) (some request.resource) challenge_response [] (tx_done ∷ [])
        (some f3 ∷ []) []
        (fw_got reply
          ∷ fw_sent q
          ∷ fw_connected
          ∷ got answer
          ∷ sent (made challenge request f1 f2)
          ∷ got request
          ∷ [])

  abbrev pub welcomed : FirewallMessage → Session
  welcomed q = stage (some request.user) (some request.resource) challenge_response [] [] [] [] (
      sent (made come_in request f3 zero_auth)
      ∷ fw_got reply
      ∷ fw_sent q
      ∷ fw_connected
      ∷ got answer
      ∷ sent (made challenge request f1 f2)
      ∷ got request
      ∷ [])

module _ (mac : Key → Bytes → Bytes) (conf : Config) (peer : IpAddr) where
  module _ (request answer : Message) (f1 f2 f3 : Bytes) (reply : FirewallMessage) (key : Key)
      (p : ℕ) (tcp? udp? : Bool) (users : List UserId)
      (identified : Identified mac conf request key)
      (entitled : Entitled mac conf request p tcp? udp? users)
      (key_length : length key ≡ key_size) where
    begins :
        receive_initial mac conf peer (meeting request answer f1 f2 f3 reply)
        ≡ (ok request, begun request answer f1 f2 f3 reply not_auth)
    unfolding receive_initial receive
    begins = elim identified.is_request [ inl e ↦ rw (e) refl | inr e ↦ rw (e) refl ]

    token_passes : check_auth_ok_no_challenge mac {E = Failure} request key ≡ ok true
    unfolding check_auth_ok_no_challenge authenticate
    token_passes = ground (
      arith,
      identified.is_request,
      identified.token_ok,
      key_length,
      list_eq_iff request.auth (mac key (mac_input request zero_auth)),
    )

    not_control : not (nat_eq p conf.control_port.port) ≡ true
    not_control = ground (arith, entitled.not_control)

    authorises : authorise mac conf peer request (begun request answer f1 f2 f3 reply not_auth) ≡ (
      ok (key, port_resource p tcp? udp? users),
      begun request answer f1 f2 f3 reply basic_authenticated,
    )
    unfolding authorise
    authorises =
        rw
          (
            identified.key_known, token_passes, entitled.resource_known, entitled.user_ok,
            not_control,
          )
          refl

    module _ (r1 : RandomBytes salt_size f1) (r2 : RandomBytes auth_size f2)
        (r3 : RandomBytes salt_size f3) (nonce_length : length f2 ≡ auth_size)
        (answered : Answered mac conf request key (made challenge request f1 f2) answer) where
      answer_passes :
          check_auth_ok mac {E = Failure} answer key (made challenge request f1 f2) ≡ ok true
      unfolding check_auth_ok authenticate
      answer_passes = ground (
        arith,
        answered.answer_operation,
        answered.answer_token,
        key_length,
        nonce_length,
        list_eq_iff answer.auth (mac key (mac_input answer f2)),
      )

      new-made :
          (operation : Operation) (salt : Bytes)
          → RandomBytes salt_size salt
          → new {E = Failure} operation request.user request.resource (some salt)
            ≡ ok (made operation request salt zero_auth)
      unfolding new
      new-made operation salt r = rw (r) refl

      is_response : (answer.operation == response) ≡ true
      is_response =
          (operation_has_eq.same_iff answer.operation response).1 answered.answer_operation

      same_user : nat_eq answer.user request.user ≡ true
      same_user = ground (arith, answered.answer_user)

      same_resource : nat_eq answer.resource request.resource ≡ true
      same_resource = ground (arith, answered.answer_resource)

      challenges :
          challenge_client mac conf peer request key
            (begun request answer f1 f2 f3 reply basic_authenticated)
          ≡ (ok tt, proved request answer f1 f2 f3 reply)
      unfolding challenge_client new_msg random generate_challenge send_msg recv_msg receive
      challenges =
          rw (new-made challenge f1 r1, r2, is_response, same_user, same_resource, answer_passes)
            refl

      module _ (port_type : PortType) (typed : requested_type tcp? udp? ≡ ok port_type)
          (acked : reply.operation ≡ ack) where
        abbrev pub asked_for : FirewallMessage
        asked_for =
            if request.operation == close
            then new_close peer port_type p
            else new_open peer port_type p

        reconfigures :
            reconfigure mac conf peer request
              (port_resource p tcp? udp? users)
              (proved request answer f1 f2 f3 reply)
            ≡ (ok tt, granted request answer f1 f2 f3 reply asked_for)
        unfolding reconfigure connect exchange open_port close_port
        reconfigures = elim (Bool-cases (request.operation == close)) [
          | inl e ↦ rw (typed, e, ap reply_result acked) refl
          | inr e ↦ rw (typed, e, ap reply_result acked) refl
        ]

        welcomes :
            (q : FirewallMessage)
            → welcome mac conf peer request (granted request answer f1 f2 f3 reply q)
              ≡ (ok tt, welcomed request answer f1 f2 f3 reply q)
        unfolding welcome new_msg random send_msg
        welcomes q = rw (new-made come_in f3 r3) refl

        -- A client whose request has the token of its key, for a resource that it may use, and which
        -- answers the server's challenge with the token of that key, is let in when its messages and
        -- the server's arrive, the random bytes are acceptable and the daemon acknowledges: the
        -- server asks for the port of the resource, for the client's address, and sends a ComeIn.
        pub honest_let_in :
            run mac conf peer (meeting request answer f1 f2 f3 reply)
            ≡ (ok tt, welcomed request answer f1 f2 f3 reply asked_for)
        unfolding run
        honest_let_in = rw (begins, authorises, challenges, reconfigures, welcomes asked_for) refl
