-- ===== src/Firewall/Daemon/Runs.antt =====
-- letmeinfwd/src/main.rs: what the running daemon keeps, and how it leaves.
use letmein.Base.{
  All, ℕ, zero, suc, ◌≡◌, ◌≢◌, refl, Bool, true, false, Option, List, [], ◌∷◌, if◌then◌else◌,
  Result, ok, err, panic,
}
use letmein.Base.Texts.{Text}
use letmein.Conf.{Config}
use letmein.Firewall.Accept.{Expected, AcceptError, accept}
use letmein.Firewall.Commands.{Rule, NfCmd, FwError}
use letmein.Firewall.Daemon.{
  Input, connects, handles, tick, hangup, terminate, interrupt, socket_report, firewall_report,
  Daemon, Exit, runs, exits, crashes, admit, handled, handle_one, maintained, after_shutdown, leave,
  step, after, run,
}
use letmein.Firewall.Effects.{full_rebuild-SameFw}
use letmein.Firewall.Invariant.{Running, StillRunning}
use letmein.Firewall.Maintenance.{maintain_leases}
use letmein.Firewall.Server.{HandleError, handle_message}
use letmein.Firewall.Service.{handle_message_safe}
use letmein.Firewall.State.{NftFirewall, State, full_rebuild, shutdown, maintain}
use letmein.FwProto.Fields.{IpAddr}
use letmein.FwProto.Message.{FirewallMessage}

module _ {K : Type 0} (list_rules : K → Option (List Rule)) (apply : K → List NfCmd → Option K)
    (show_addr : IpAddr → Text) (conf : Config) (expected : Expected) where
  -- The firewall that was shut down has no lease.
  abbrev pub IsDown : NftFirewall → Type 0
  IsDown fw = (fw.leases ≡ []) × (fw.is_shut_down ≡ true)

  -- A daemon that runs has sound leases, one that has left has none; there is no crash.
  abbrev pub LeavesClean : Exit K → Type 0
  LeavesClean (runs d) = Running list_rules apply show_addr conf d.state.fw
  LeavesClean (exits success s) = IsDown s.fw
  LeavesClean (crashes s) = ⊥

  if_IsDown :
      (b : Bool) (x y : Result FwError (Unit {0}) × State K)
      → b ≡ false
      → IsDown y.1.fw × (y.0 ≢ panic)
      → let o = if b then x else y in IsDown o.1.fw × (o.0 ≢ panic)
  if_IsDown true x y h v = cc
  if_IsDown false x y h v = v

  pub shutdown-IsDown :
      (s : State K)
      → s.fw.is_shut_down ≡ false
      → let o = shutdown list_rules apply show_addr conf s in IsDown o.1.fw × (o.0 ≢ panic)
  unfolding shutdown full_rebuild
  shutdown-IsDown s h =
      let same =
        full_rebuild-SameFw list_rules apply show_addr conf
          (record s { fw = record s.fw { leases = []; is_shut_down = true } }) in
      if_IsDown s.fw.is_shut_down (panic, s) _ h ((same.0, same.1), same.2)

  -- A shutdown that does not panic leaves whatever exit code.
  after_shutdown-LeavesClean :
      (success : Bool) (o : Result FwError (Unit {0}) × State K)
      → IsDown o.1.fw × (o.0 ≢ panic)
      → LeavesClean (after_shutdown list_rules apply show_addr conf expected success o)
  after_shutdown-LeavesClean success (ok u, s) v = v.0
  after_shutdown-LeavesClean success (err e, s) v = v.0
  after_shutdown-LeavesClean success (panic, s) v = absurd (v.1 refl)

  leave-LeavesClean :
      (success : Bool) (d : Daemon K)
      → Running list_rules apply show_addr conf d.state.fw
      → LeavesClean (leave list_rules apply show_addr conf expected success d)
  leave-LeavesClean success d v =
      after_shutdown-LeavesClean success (shutdown list_rules apply show_addr conf d.state)
        (shutdown-IsDown d.state v.1)

  admit-Running :
      (b : Bool) (r : Result AcceptError (Unit {0})) (d : Daemon K)
      → Running list_rules apply show_addr conf d.state.fw
      → LeavesClean (runs (if b then admit list_rules apply show_addr conf expected r d else d))
  admit-Running false r d v = v
  admit-Running true (ok u) d v = v
  admit-Running true (err e) d v = v
  admit-Running true panic d v = v

  handled-LeavesClean :
      (h : Result HandleError (Unit {0}) × List FirewallMessage × State K) (n : ℕ) (d : Daemon K)
      → Running list_rules apply show_addr conf h.2.fw × (h.0 ≢ panic)
      → LeavesClean (handled list_rules apply show_addr conf expected h n d)
  handled-LeavesClean (ok u, replies, s) n d v = v.0
  handled-LeavesClean (err e, replies, s) n d v = v.0
  handled-LeavesClean (panic, replies, s) n d v = absurd (v.1 refl)

  handle_one-LeavesClean :
      (now : ℕ) (message_in : Result HandleError (Option FirewallMessage)) (sends : Bool) (n : ℕ)
      (d : Daemon K)
      → message_in ≢ panic
      → Running list_rules apply show_addr conf d.state.fw
      → LeavesClean (handle_one list_rules apply show_addr conf expected now message_in sends n d)
  handle_one-LeavesClean now message_in sends zero d h v = v
  handle_one-LeavesClean now message_in sends (suc n) d h v =
      handled-LeavesClean
        (handle_message list_rules apply show_addr conf now message_in sends d.state) n d
        (handle_message_safe list_rules apply show_addr conf now message_in sends d.state h v)

  maintained-LeavesClean :
      (b : Bool) (o : Result FwError (Unit {0}) × State K) (d : Daemon K)
      → StillRunning list_rules apply show_addr conf o
      → Running list_rules apply show_addr conf d.state.fw
      → LeavesClean (if b then maintained list_rules apply show_addr conf expected o d else runs d)
  maintained-LeavesClean false o d h v = v
  maintained-LeavesClean true (ok u, s) d h v = h.0
  maintained-LeavesClean true (err e, s) d h v = h.0
  maintained-LeavesClean true (panic, s) d h v = absurd (h.1 refl)

  if_reported :
      (b : Bool) (d : Daemon K)
      → Running list_rules apply show_addr conf d.state.fw
      → LeavesClean (if b then runs d else leave list_rules apply show_addr conf expected false d)
  if_reported true d v = v
  if_reported false d v = leave-LeavesClean false d v

  -- Receiving a message does not panic.
  abbrev pub IsQuiet : ℕ × Input → Type 0
  IsQuiet (now, handles message_in sends) = message_in ≢ panic
  IsQuiet _ = Unit {0}

  step-LeavesClean :
      (now : ℕ) (i : Input) (d : Daemon K)
      → IsQuiet (now, i)
      → Running list_rules apply show_addr conf d.state.fw
      → LeavesClean (step list_rules apply show_addr conf expected now i d)
  unfolding step
  step-LeavesClean now (connects incoming) d q v =
      admit-Running d.accepting (accept expected incoming) d v
  step-LeavesClean now (handles message_in sends) d q v =
      handle_one-LeavesClean now message_in sends d.waiting d q v
  step-LeavesClean now tick d q v =
      maintained-LeavesClean d.maintaining (maintain list_rules apply show_addr conf now d.state) d
        (maintain_leases list_rules apply show_addr conf now d.state v).0 v
  step-LeavesClean now hangup d q v = v
  step-LeavesClean now terminate d q v = leave-LeavesClean true d v
  step-LeavesClean now interrupt d q v = leave-LeavesClean false d v
  step-LeavesClean now socket_report d q v = if_reported d.accepting d v
  step-LeavesClean now firewall_report d q v = if_reported d.maintaining d v

  after-LeavesClean :
      (x : Exit K) (f : Daemon K → Exit K)
      → LeavesClean x
      → ((d : Daemon K) → Running list_rules apply show_addr conf d.state.fw → LeavesClean (f d))
      → LeavesClean (after list_rules apply show_addr conf expected x f)
  after-LeavesClean (runs d) f v k = k d v
  after-LeavesClean (exits success s) f v k = v
  after-LeavesClean (crashes s) f v k = v

  -- However connections, messages, ticks of the maintenance, signals and answers of `nft` follow
  -- each other, a daemon that starts with sound leases is never ended by a panic, if receiving does
  -- not panic: it runs with sound leases, or it has left with no lease and the firewall shut down.
  pub run-LeavesClean :
      (inputs : List (ℕ × Input)) (d : Daemon K)
      → All IsQuiet inputs
      → Running list_rules apply show_addr conf d.state.fw
      → LeavesClean (run list_rules apply show_addr conf expected inputs d)
  unfolding run
  run-LeavesClean [] d q v = v
  run-LeavesClean ((now, i) ∷ inputs) d q v =
      after-LeavesClean (step list_rules apply show_addr conf expected now i d)
        (run list_rules apply show_addr conf expected inputs) (step-LeavesClean now i d q.0 v)
        (λ d' v'. run-LeavesClean inputs d' q.1 v')
