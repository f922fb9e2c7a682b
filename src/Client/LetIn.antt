-- ===== src/Client/LetIn.antt =====
-- A whole session of the client (letmein/src/command/knock.rs, close.rs) with the server
-- (letmeind/src/protocol.rs).
use letmein.Base.{ℕ, ◌≡◌, refl, ◌≢◌, ◌⊎◌, Bool, true, some, List, if◌then◌else◌, length, ◌==◌, ok}
use letmein.Base.Bytes.{Bytes}
use letmein.Client.Agreement.{
  first_message, second_message, client_link, client_done, client_completes,
}
use letmein.Client.Sequence.{sequence}
use letmein.Conf.{port_resource, contains_user, Config, get_key, get_resource}
use letmein.Firewall.Server.{reply}
use letmein.FwProto.Fields.{ack, PortType, IpAddr}
use letmein.FwProto.Message.{FirewallMessage, new_open, new_close}
use letmein.Proto.Message.{salt_size, auth_size, key_size, zero_auth, UserId, ResourceId, Key}
use letmein.Proto.Operation.{operation_has_eq, Operation, knock, challenge, come_in, close}
use letmein.Server.Protocol.{requested_type, run}
use letmein.Server.Protocol.Allowed.{Identified, Entitled, Answered}
use letmein.Server.Protocol.Honest.{RandomBytes, made, meeting, welcomed, honest_let_in}

-- What the client and the server have before the session.
pub record Agreed (conf : Config) (operation : Operation) (user : UserId) (resource : ResourceId)
    (key : Key) (p : ℕ) (tcp? udp? : Bool) (users : List UserId) (port_type : PortType)
    : Type 0 where
  pub is_request : (operation ≡ knock) ⊎ (operation ≡ close)
  pub key_known : get_key conf user ≡ some key
  pub key_length : length key ≡ key_size
  pub resource_known : get_resource conf resource ≡ some (port_resource p tcp? udp? users)
  pub user_ok : contains_user (port_resource p tcp? udp? users) user ≡ true
  pub not_control : p ≢ conf.control_port.port
  pub typed : requested_type tcp? udp? ≡ ok port_type

-- The random bytes of one session: the salts and the nonce.
pub record Randomness (g1 g2 f1 f2 f3 : Bytes) : Type 0 where
  pub client_salt : RandomBytes salt_size g1
  pub answer_salt : RandomBytes salt_size g2
  pub challenge_salt : RandomBytes salt_size f1
  pub nonce : RandomBytes auth_size f2
  pub nonce_length : length f2 ≡ auth_size
  pub come_in_salt : RandomBytes salt_size f3

module _ (mac : Key → Bytes → Bytes) (conf : Config) (peer : IpAddr) where
  -- A client and a server that share a key, a resource that the user may use and that is not the
  -- control port, acceptable random bytes and a daemon that acknowledges: the messages of the
  -- client and of the server fit together. Given the server's challenge and ComeIn the client's
  -- sequence succeeds and has sent exactly its request and its response; given these two the
  -- server's run succeeds and has sent exactly that challenge and that ComeIn, and has asked the
  -- daemon to open the resource's port for the client's address (a Knock) or to close it (a Close).
  pub client_let_in :
      (operation : Operation) (user : UserId) (resource : ResourceId) (key : Key) (p : ℕ)
      (tcp? udp? : Bool) (users : List UserId) (port_type : PortType) (g1 g2 f1 f2 f3 : Bytes)
      (reply : FirewallMessage)
      → Agreed conf operation user resource key p tcp? udp? users port_type
      → Randomness g1 g2 f1 f2 f3
      → reply.operation ≡ ack
      → let request = first_message mac operation user resource key g1 in
        let answer = second_message mac operation user resource key g2 f2 in
        let c = made challenge request f1 f2 in
        let m = made come_in request f3 zero_auth in
        let q =
          if operation == close then new_close peer port_type p else new_open peer port_type p in
        (sequence mac operation user resource key
            (ok tt)
            (client_link mac operation user resource key g1 g2 c m)
          ≡ (ok tt, client_done mac operation user resource key g1 g2 f2))
        × (run mac conf peer (meeting request answer f1 f2 f3 reply)
            ≡ (ok tt, welcomed request answer f1 f2 f3 reply q))
  client_let_in operation user resource key p tcp? udp? users port_type g1 g2 f1 f2 f3 reply a r
        acked =
      let request = first_message mac operation user resource key g1 in
      let answer = second_message mac operation user resource key g2 f2 in
      let c = made challenge request f1 f2 in
      let identified : Identified mac conf request key = record {
        is_request = a.is_request;
        key_known = a.key_known;
        token_ok = refl;
      } in
      let entitled : Entitled mac conf request p tcp? udp? users = record {
        resource_known = a.resource_known;
        user_ok = a.user_ok;
        not_control = a.not_control;
      } in
      let answered : Answered mac conf request key c answer = record {
        c_operation = refl;
        c_user = refl;
        c_resource = refl;
        answer_operation = refl;
        answer_user = refl;
        answer_resource = refl;
        answer_token = refl;
      } in
      (
        client_completes mac operation user resource key g1 g2 c (made come_in request f3 zero_auth)
            a.is_request a.key_length r.client_salt r.answer_salt refl r.nonce_length refl,
        honest_let_in mac conf peer request answer f1 f2 f3 reply key p tcp? udp? users identified
            entitled a.key_length r.challenge_salt r.nonce r.come_in_salt r.nonce_length answered
            port_type a.typed acked,
      )
