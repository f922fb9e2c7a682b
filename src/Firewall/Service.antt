-- ===== src/Firewall/Service.antt =====
-- letmeinfwd: what a running daemon does, whatever messages come over the socket and whatever `nft`
-- answers.
use letmein.Base.{ℕ, ◌≡◌, refl, ◌≢◌, Bool, Option, none, some, List, arith, Result, ok, err, panic}
use letmein.Base.Sums.{total}
use letmein.Base.Texts.{Text}
use letmein.Conf.{Config}
use letmein.Firewall.{id_has_eq, LeasePort}
use letmein.Firewall.Commands.{Rule, NfCmd, FwError}
use letmein.Firewall.Invariant.{
  Running, StillRunning, open_port-StillRunning, close_port-StillRunning,
}
use letmein.Firewall.Leases.{check_request-MayLease}
use letmein.Firewall.Server.{
  HandleError, check_request, Handled, acknowledge, serve, handle_operation, handle_message,
}
use letmein.Firewall.State.{open_port, close_port, State}
use letmein.FwProto.Fields.{FirewallOperation, nack, ack, opens, closes, IpAddr}
use letmein.FwProto.Message.{FirewallMessage}

module _ {K : Type 0} (list_rules : K → Option (List Rule)) (apply : K → List NfCmd → Option K)
    (show_addr : IpAddr → Text) (conf : Config) (now : ℕ) where
  -- The daemon behind `handle_message` is still running, and has not panicked.
  abbrev HandledOk : Handled list_rules apply show_addr conf now → Type 0
  HandledOk h = Running list_rules apply show_addr conf h.2.fw × (h.0 ≢ panic)

  acknowledge-Ok :
      (sends : Bool) (o : Result FwError (Unit {0}) × State K)
      → StillRunning list_rules apply show_addr conf o
      → HandledOk (acknowledge list_rules apply show_addr conf now sends o)
  acknowledge-Ok sends (ok u, s) v = (v.0, ground arith)
  acknowledge-Ok sends (err e, s) v = (v.0, ground arith)
  acknowledge-Ok sends (panic, s) v = absurd (v.1 refl)

  serve-Ok :
      (sends : Bool) (operate : IpAddr → LeasePort → State K → Result FwError (Unit {0}) × State K)
      (checked : Result HandleError (IpAddr × LeasePort)) (s : State K)
      → checked ≢ panic
      → ((addr : IpAddr) (port : LeasePort)
          → checked ≡ ok (addr, port)
          → StillRunning list_rules apply show_addr conf (operate addr port s))
      → Running list_rules apply show_addr conf s.fw
      → HandledOk (serve list_rules apply show_addr conf now sends operate checked s)
  serve-Ok sends operate (ok (addr, port)) s total k v =
      acknowledge-Ok sends (operate addr port s) (k addr port refl)
  serve-Ok sends operate (err e) s total k v = (v, ground arith)
  serve-Ok sends operate panic s total k v = absurd (total refl)

  check_total : (msg : FirewallMessage) → check_request conf msg ≢ panic
  unfolding check_request
  check_total msg = ground arith

  handle_operation-Ok :
      (sends : Bool) (o : FirewallOperation) (msg : FirewallMessage) (s : State K)
      → Running list_rules apply show_addr conf s.fw
      → HandledOk (handle_operation list_rules apply show_addr conf now sends o msg s)
  handle_operation-Ok sends opens msg s v =
      serve-Ok sends (open_port list_rules apply show_addr conf now) (check_request conf msg) s
        (check_total msg)
        (λ addr port e.
          open_port-StillRunning list_rules apply show_addr conf now addr port s
            (check_request-MayLease conf msg e).1 v)
        v
  handle_operation-Ok sends closes msg s v =
      serve-Ok sends (close_port list_rules apply show_addr conf now) (check_request conf msg) s
        (check_total msg)
        (λ addr port e.
          close_port-StillRunning list_rules apply show_addr conf now addr port s
            (check_request-MayLease conf msg e).1 v)
        v
  handle_operation-Ok sends ack msg s v = (v, λ x. cc)
  handle_operation-Ok sends nack msg s v = (v, λ x. cc)

  -- Whatever is received on the socket and whatever `nft` answers, a daemon whose leases are sound
  -- (each under its own address and port, for a configured port and never for the control port)
  -- handles it without a panic, and its leases are sound again.
  pub handle_message_safe :
      (received : Result HandleError (Option FirewallMessage)) (sends : Bool) (s : State K)
      → received ≢ panic
      → Running list_rules apply show_addr conf s.fw
      → HandledOk (handle_message list_rules apply show_addr conf now received sends s)
  unfolding handle_message
  handle_message_safe (ok (some msg)) sends s total v =
      handle_operation-Ok sends msg.operation msg s v
  handle_message_safe (ok none) sends s total v = (v, λ x. cc)
  handle_message_safe (err e) sends s total v = (v, λ x. cc)
  handle_message_safe panic sends s total v = absurd (total refl)
