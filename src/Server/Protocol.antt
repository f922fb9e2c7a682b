-- ===== src/Server/Protocol.antt =====
-- letmeind/src/protocol.rs: `Protocol`, the sequence of messages with one client.
pub mod Allowed
pub mod Steps
pub mod Rejection
pub mod Stages
pub mod Authorising
pub mod Challenging
pub mod Reconfiguring
pub mod Security
pub mod Claims
pub mod Honest
pub mod Sure
pub mod Calm
pub mod NoPanic
use letmein.Base.{
  ℕ, ◌-◌, ◌^◌, Bool, true, false, not, ◌||◌, Option, none, some, nat_eq, if◌then◌else◌, ◌==◌,
  Result, ok, panic, check,
}
use letmein.Base.Bytes.{Bytes}
use letmein.Conf.{
  Resource, port_resource, contains_user, ErrorPolicy, always, basic_auth, full_auth, Config,
  get_key, get_resource,
}
use letmein.FwProto.Fields.{PortType, tcp, udp, tcp_udp, IpAddr}
use letmein.Proto.Auth.{check_auth_ok, check_auth_ok_no_challenge, generate_challenge}
use letmein.Proto.Message.{UserId, ResourceId, Key, Message, new, port}
use letmein.Proto.Operation.{
  Operation, knock, challenge, response, come_in, go_away, close, operation_has_eq,
}
use letmein.Server.FirewallClient.{connect, open_port, close_port}
use letmein.Server.Session.{
  ◌>>=◌, ◌>>◌, AuthState, not_auth, basic_authenticated, challenge_response, Failure, disconnected,
  bad_operation, user_mismatch, resource_mismatch, unknown_user, knock_auth_failed,
  unknown_resource, not_allowed, uses_control_port, response_auth_failed, fw_connect_failed,
  fw_failed, Run, pure, fail, lift, ignore, on_error, receive, send_msg, random,
}

-- `match (tcp, udp)`
unfoldable pub requested_type : Bool → Bool → Result Failure PortType
requested_type true false = ok tcp
requested_type false true = ok udp
requested_type true true = ok tcp_udp
requested_type false false = panic

abbrev pub unwrap_or_max : Option ℕ → ℕ
unwrap_or_max none = 2 ^ 32 - 1
unwrap_or_max (some id) = id

abbrev pub may_report : ErrorPolicy → AuthState → Bool
may_report always state = true
may_report basic_auth not_auth = false
may_report basic_auth basic_authenticated = true
may_report basic_auth challenge_response = true
may_report full_auth not_auth = false
may_report full_auth basic_authenticated = false
may_report full_auth challenge_response = true

abbrev matches : Option ℕ → ℕ → Bool
matches none id = true
matches (some expected) id = nat_eq id expected

module _ (mac : Key → Bytes → Bytes) (conf : Config) (peer : IpAddr) where
  -- `Message::new`, with the next random bytes
  unfoldable pub new_msg : Operation → UserId → ResourceId → Run Message
  new_msg operation user resource = do fill ← random; lift (new operation user resource fill)

  unfoldable pub send_go_away : Run (Unit {0})
  send_go_away s =
      if may_report conf.control_error_policy s.auth_state
      then (new_msg go_away (unwrap_or_max s.user_id) (unwrap_or_max s.resource_id) >>= send_msg) s
      else (ok tt, s)

  -- `let _ = self.send_go_away().await; return Err(e)`
  unfoldable pub reject : {A : Type 0} → Failure → Run A
  reject e = do ignore send_go_away; fail e

  abbrev pub ensure : Bool → Failure → Run (Unit {0})
  ensure true e = pure tt
  ensure false e = reject e

  abbrev pub required : {A : Type 0} → Option A → Failure → Run A
  required none e = reject e
  required (some a) e = pure a

  -- The checks of `recv_msg` on a message.
  abbrev pub check_msg : Operation → Option Message → Run Message
  check_msg expected none = fail disconnected
  check_msg expected (some msg) = do
    ensure (msg.operation == expected) bad_operation
    (λ s. ensure (matches s.user_id msg.user) user_mismatch s)
    (λ s. ensure (matches s.resource_id msg.resource) resource_mismatch s)
    pure msg

  unfoldable pub recv_msg : Operation → Run Message
  recv_msg expected = receive >>= check_msg expected

  abbrev pub check_initial : Option Message → Run Message
  check_initial none = fail disconnected
  check_initial (some msg) = do
    ensure (msg.operation == knock || msg.operation == close) bad_operation
    pure msg

  abbrev pub reset : Run (Unit {0})
  reset s = (ok tt, record s { user_id = none; resource_id = none; auth_state = not_auth })

  abbrev pub identify : Message → Run (Unit {0})
  identify msg s = (ok tt, record s { user_id = some msg.user; resource_id = some msg.resource })

  abbrev pub set_auth : AuthState → Run (Unit {0})
  set_auth state s = (ok tt, record s { auth_state = state })

  -- `run`: the initial message (lines 120-151)
  unfoldable pub receive_initial : Run Message
  receive_initial = do reset; m ← receive; msg ← check_initial m; identify msg; pure msg

  -- The resource must be allowed to the user, and is never the control port.
  abbrev pub check_resource : UserId → Resource → Run (Unit {0})
  check_resource user (port_resource p tcp? udp? users) = do
    ensure (contains_user (port_resource p tcp? udp? users) user) not_allowed
    ensure (not (nat_eq p conf.control_port.port)) uses_control_port

  -- `run`: the key, the token without a challenge and the resource (lines 153-198)
  unfoldable pub authorise : Message → Run (Key × Resource)
  authorise msg = do
    key ← required (get_key conf msg.user) unknown_user
    authentic ← lift (check_auth_ok_no_challenge mac msg key)
    ensure authentic knock_auth_failed
    set_auth basic_authenticated
    resource ← required (get_resource conf msg.resource) unknown_resource
    check_resource msg.user resource
    pure (key, resource)

  -- `run`: the challenge and the response to it (lines 200-213)
  unfoldable pub challenge_client : Message → Key → Run (Unit {0})
  challenge_client msg key = do
    draft ← new_msg challenge msg.user msg.resource
    fill ← random
    c ← lift (generate_challenge draft fill)
    send_msg c
    answer ← recv_msg response
    authentic ← lift (check_auth_ok mac answer key c)
    ensure authentic response_auth_failed
    set_auth challenge_response

  abbrev pub is_full : AuthState → Bool
  is_full challenge_response = true
  is_full basic_authenticated = false
  is_full not_auth = false

  -- `run`: the request to the firewall daemon (lines 215-262)
  unfoldable pub reconfigure : Message → Resource → Run (Unit {0})
  reconfigure msg (port_resource p tcp? udp? users) = do
    port_type ← lift (requested_type tcp? udp?)
    on_error connect (reject fw_connect_failed)
    (λ s. lift (check (is_full s.auth_state)) s)
    if msg.operation == close
        then on_error (close_port peer port_type p) (reject fw_failed)
        else on_error (open_port peer port_type p) (reject fw_failed)

  -- `run`: the come-in message (lines 264-268)
  unfoldable pub welcome : Message → Run (Unit {0})
  welcome msg = do m ← new_msg come_in msg.user msg.resource; send_msg m

  unfoldable pub run : Run (Unit {0})
  run = do
    msg ← receive_initial
    (key, resource) ← authorise msg
    challenge_client msg key
    reconfigure msg resource
    welcome msg
