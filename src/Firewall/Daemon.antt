-- ===== src/Firewall/Daemon.antt =====
-- letmeinfwd/src/main.rs, `async_main` behind its start: the tasks that accept connections, handle
-- their messages and maintain the firewall, and the main loop with its exit. An interleaving of the
-- tasks is a sequence of inputs, each with its instant; a call holds the lock of the firewall from
-- its begin to its end. In the release profile (Cargo.toml) a panic of any task aborts the program.
pub mod Runs
pub mod Refused
use letmein.Base.{
  ℕ, zero, suc, Bool, true, false, Option, List, [], ◌∷◌, if◌then◌else◌, Result, ok, err, panic,
}
use letmein.Base.Texts.{Text}
use letmein.Conf.{Config}
use letmein.Firewall.Accept.{Expected, AcceptError, Incoming, accept}
use letmein.Firewall.Commands.{Rule, NfCmd, FwError}
use letmein.Firewall.Server.{HandleError, Handled, handle_message}
use letmein.Firewall.State.{State, shutdown, maintain}
use letmein.FwProto.Fields.{IpAddr}
use letmein.FwProto.Message.{FirewallMessage}

pub data Input : Type 0 where
  connects : Incoming → Input
  handles : (message_in : Result HandleError (Option FirewallMessage)) (sends : Bool) → Input
  tick hangup terminate interrupt socket_report firewall_report : Input

-- `accepting` and `maintaining` tell whether the two loops still run; an error that ends one of them
-- is in its channel until the main loop takes it out.
pub record Daemon (K : Type 0) : Type 0 where
  pub state : State K
  pub waiting : ℕ
  pub accepting : Bool
  pub maintaining : Bool

pub data Exit (K : Type 0) : Type 0 where
  runs : Daemon K → Exit K
  exits : (success : Bool) → State K → Exit K
  crashes : State K → Exit K

module _ {K : Type 0} (list_rules : K → Option (List Rule)) (apply : K → List NfCmd → Option K)
    (show_addr : IpAddr → Text) (conf : Config) (expected : Expected) where
  -- A connection that is refused ends the loop.
  abbrev pub admit : Result AcceptError (Unit {0}) → Daemon K → Daemon K
  admit (ok _) d = record d { waiting = suc d.waiting }
  admit (err e) d = record d { accepting = false }
  admit panic d = record d { accepting = false }

  abbrev pub handled : Handled list_rules apply show_addr conf 0 → ℕ → Daemon K → Exit K
  handled (panic, replies, s) n d = crashes s
  handled (ok _, replies, s) n d = runs (record d { state = s; waiting = n })
  handled (err _, replies, s) n d = runs (record d { state = s; waiting = n })

  -- One of the connections that wait for their task; what it returns is only printed.
  abbrev pub handle_one :
      ℕ → Result HandleError (Option FirewallMessage) → Bool → ℕ → Daemon K → Exit K
  handle_one now message_in sends zero d = runs d
  handle_one now message_in sends (suc n) d =
      handled (handle_message list_rules apply show_addr conf now message_in sends d.state) n d

  -- An error ends the loop of the maintenance.
  abbrev pub maintained : Result FwError (Unit {0}) × State K → Daemon K → Exit K
  maintained (ok _, s) d = runs (record d { state = s })
  maintained (err e, s) d = runs (record d { state = s; maintaining = false })
  maintained (panic, s) d = crashes s

  -- What follows the main loop: a failed shutdown makes the exit code an error.
  abbrev pub after_shutdown : Bool → Result FwError (Unit {0}) × State K → Exit K
  after_shutdown success (ok _, s) = exits success s
  after_shutdown success (err e, s) = exits false s
  after_shutdown success (panic, s) = crashes s

  abbrev pub leave : Bool → Daemon K → Exit K
  leave success d = after_shutdown success (shutdown list_rules apply show_addr conf d.state)

  unfoldable pub step : ℕ → Input → Daemon K → Exit K
  unfolding accept handle_message maintain shutdown
  step now (connects incoming) d =
      runs (if d.accepting then admit (accept expected incoming) d else d)
  step now (handles message_in sends) d = handle_one now message_in sends d.waiting d
  step now tick d =
      if d.maintaining
      then maintained (maintain list_rules apply show_addr conf now d.state) d
      else runs d
  step now hangup d = runs d
  step now terminate d = leave true d
  step now interrupt d = leave false d
  step now socket_report d = if d.accepting then runs d else leave false d
  step now firewall_report d = if d.maintaining then runs d else leave false d

  abbrev pub after : Exit K → (Daemon K → Exit K) → Exit K
  after (runs d) f = f d
  after (exits success s) f = exits success s
  after (crashes s) f = crashes s

  unfoldable pub run : List (ℕ × Input) → Daemon K → Exit K
  unfolding step
  run [] d = runs d
  run ((now, i) ∷ is) d = after (step now i d) (run is)
