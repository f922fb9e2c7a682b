-- ===== src/Firewall/Daemon/Refused.antt =====
-- letmeinfwd/src/main.rs: a connection that `accept` refuses.
use letmein.Base.{ℕ, ◌≡◌, ◌≢◌, refl, true, false, Option, List, ◌∷◌, Result, ok, err, panic}
use letmein.Base.Texts.{Text}
use letmein.Conf.{Config}
use letmein.Firewall.Accept.{Expected, AcceptError, Incoming, accept}
use letmein.Firewall.Commands.{Rule, NfCmd, FwError}
use letmein.Firewall.Daemon.{
  Input, connects, socket_report, Daemon, Exit, runs, exits, crashes, after_shutdown, leave, step,
  after, run,
}
use letmein.Firewall.Daemon.Runs.{IsDown, shutdown-IsDown}
use letmein.Firewall.State.{State, shutdown}
use letmein.FwProto.Fields.{IpAddr}

module _ {K : Type 0} (list_rules : K → Option (List Rule)) (apply : K → List NfCmd → Option K)
    (show_addr : IpAddr → Text) (conf : Config) (expected : Expected) where
  -- The program has left with the exit code of an error, and no lease is left.
  abbrev pub HasFailed : Exit K → Type 0
  HasFailed (runs d) = ⊥
  HasFailed (exits success s) =
      (success ≡ false) × IsDown list_rules apply show_addr conf expected s.fw
  HasFailed (crashes s) = ⊥

  leave_failed :
      (o : Result FwError (Unit {0}) × State K)
      → IsDown list_rules apply show_addr conf expected o.1.fw × (o.0 ≢ panic)
      → HasFailed (after_shutdown list_rules apply show_addr conf expected false o)
  leave_failed (ok u, s) v = (refl, v.0)
  leave_failed (err e, s) v = (refl, v.0)
  leave_failed (panic, s) v = absurd (v.1 refl)

  rest_failed :
      (x : Exit K) (f : Daemon K → Exit K)
      → HasFailed x
      → HasFailed (after list_rules apply show_addr conf expected x f)
  rest_failed (runs d) f v = absurd v
  rest_failed (exits success s) f v = v
  rest_failed (crashes s) f v = absurd v

  -- One connection that is refused ends the daemon: the accept loop stops, and when the main loop
  -- takes its report as the next input, whatever would follow, every lease is dropped and the exit
  -- code is an error.
  pub refused-HasFailed :
      (now later : ℕ) (incoming : Incoming) (e : AcceptError) (inputs : List (ℕ × Input))
      (d : Daemon K)
      → accept expected incoming ≡ err e
      → d.accepting ≡ true
      → d.state.fw.is_shut_down ≡ false
      → HasFailed (
          run list_rules apply show_addr conf expected
            ((now, connects incoming) ∷ (later, socket_report) ∷ inputs)
            d)
  unfolding run step
  refused-HasFailed now later incoming e inputs d refused accepting running =
      rw (accepting, refused)
        (rest_failed (leave list_rules apply show_addr conf expected false stopped)
          (run list_rules apply show_addr conf expected inputs)
          (leave_failed (shutdown list_rules apply show_addr conf d.state)
            (shutdown-IsDown list_rules apply show_addr conf expected d.state running)))
    where
      stopped : Daemon K
      stopped = record d { accepting = false }
