-- ===== src/Firewall/Server.antt =====
-- letmeinfwd/src/server.rs: one message on the Unix socket, its checks and the reply.
use letmein.Base.{
  ℕ, ◌-◌, ◌^◌, Bool, true, false, not, ◌&&◌, Option, none, some, List, [], ◌∷◌, nat_eq,
  if◌then◌else◌, Result, ok, err, panic, ◌>>=◌, ◌>>◌, guard, or_fail,
}
use letmein.Base.Bytes.{from_be}
use letmein.Base.Texts.{Text}
use letmein.Conf.{Config, resource_id_by_port}
use letmein.Firewall.{LeasePort, lease_tcp, lease_udp, lease_tcp_udp}
use letmein.Firewall.Commands.{Rule, NfCmd, FwError}
use letmein.Firewall.State.{open_port, close_port, State}
use letmein.FwProto.Fields.{
  FirewallOperation, nack, ack, opens, closes, PortType, tcp, udp, tcp_udp, IpAddr, v4, v6,
}
use letmein.FwProto.Message.{FirewallMessage, new_ack, new_nack, get_port, get_addr}

-- `addr_check`
unfoldable pub addr_check : IpAddr → Bool
addr_check (v4 o) = not (nat_eq (from_be o 0) 0) && not (nat_eq (from_be o 0) (2 ^ 32 - 1))
addr_check (v6 o) = not (nat_eq (from_be o 0) 0) && not (nat_eq (from_be o 0) (2 ^ 128 - 1))

-- The errors of `handle_message`, in place of their texts.
pub data HandleError : Type 0 where
  recv_failed peer_closed no_addr invalid_addr no_port : HandleError
  not_configured is_control_port invalid_message send_failed : HandleError

abbrev pub to_lease_port : PortType → ℕ → LeasePort
to_lease_port tcp p = lease_tcp p
to_lease_port udp p = lease_udp p
to_lease_port tcp_udp p = lease_tcp_udp p

abbrev is_some : Option ℕ → Bool
is_some none = false
is_some (some _) = true

-- `conf.resource_id_by_port(port, None).is_some()`
abbrev pub is_configured : Config → ℕ → Bool
is_configured conf p = is_some (resource_id_by_port conf.resources p none)

-- The checks of `handle_message` on an Open or a Close message.
unfoldable pub check_request : Config → FirewallMessage → Result HandleError (IpAddr × LeasePort)
check_request conf msg = do
  addr ← or_fail (get_addr msg) no_addr
  guard (addr_check addr) invalid_addr
  (port_type, p) ← or_fail (get_port msg) no_port
  guard (is_configured conf p) not_configured
  guard (not (nat_eq p conf.control_port.port)) is_control_port
  ok (addr, to_lease_port port_type p)

module _ {K : Type 0} (list_rules : K → Option (List Rule)) (apply : K → List NfCmd → Option K)
    (show_addr : IpAddr → Text) (conf : Config) (now : ℕ) where
  -- The result, the replies that were sent, and the firewall behind it.
  abbrev pub Handled : Type 0
  Handled = Result HandleError (Unit {0}) × List FirewallMessage × State K

  -- `send_msg`, and then the result; `sends` is whether the socket takes the reply.
  abbrev pub reply : Bool → FirewallMessage → Result HandleError (Unit {0}) → State K → Handled
  reply sends msg r s = (if sends then r else err send_failed, msg ∷ [], s)

  -- `is_ok()` of the firewall's operation decides on the reply.
  abbrev pub acknowledge : Bool → Result FwError (Unit {0}) × State K → Handled
  acknowledge sends (ok _, s) = reply sends new_ack (ok tt) s
  acknowledge sends (err _, s) = reply sends new_nack (ok tt) s
  acknowledge sends (panic, s) = (panic, [], s)

  abbrev pub serve :
      Bool
      → (IpAddr → LeasePort → State K → Result FwError (Unit {0}) × State K)
      → Result HandleError (IpAddr × LeasePort)
      → State K
      → Handled
  serve sends operate (ok (addr, port)) s = acknowledge sends (operate addr port s)
  serve sends operate (err e) s = reply sends new_nack (err e) s
  serve sends operate panic s = (panic, [], s)

  abbrev pub handle_operation : Bool → FirewallOperation → FirewallMessage → State K → Handled
  handle_operation sends opens msg s =
      serve sends (open_port list_rules apply show_addr conf now) (check_request conf msg) s
  handle_operation sends closes msg s =
      serve sends (close_port list_rules apply show_addr conf now) (check_request conf msg) s
  handle_operation sends ack msg s = (err invalid_message, [], s)
  handle_operation sends nack msg s = (err invalid_message, [], s)

  -- `handle_message`, on what `recv_msg` returns
  unfoldable pub handle_message :
      Result HandleError (Option FirewallMessage) → Bool → State K → Handled
  unfolding check_request
  handle_message (ok (some msg)) sends s = handle_operation sends msg.operation msg s
  handle_message (ok none) sends s = (err peer_closed, [], s)
  handle_message (err e) sends s = (err recv_failed, [], s)
  handle_message panic sends s = (panic, [], s)
