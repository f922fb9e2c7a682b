-- ===== src/Tests/Peers.antt =====
-- letmeinfwd: who may connect, and runs of the daemon with such connections.
use letmein.Base.{
  list_has_eq, nat_has_eq, ℕ, ◌≡◌, refl, true, false, Option, some, List, [], ◌∷◌, ◌++◌, list_eq,
  ok, err,
}
use letmein.Base.Texts.{Text, text}
use letmein.Conf.Ini.{lines}
use letmein.Conf.Parsing.{find, trim_start, trim_end, from_digits, from_str_radix}
use letmein.Firewall.Accept.{
  pid, pid_eq, wrong_uid, get_letmeind_pid, parse_pid, Incoming, Expected, accept, read_etc_passwd,
  IsLetmeind, accept-IsLetmeind,
}
use letmein.Firewall.Commands.{Rule}
use letmein.Firewall.Daemon.{Input, connects, handles, tick, terminate, socket_report, Daemon, run}
use letmein.Firewall.Daemon.Refused.{HasFailed, refused-HasFailed}
use letmein.Firewall.Daemon.Runs.{LeavesClean, run-LeavesClean}
use letmein.Firewall.UidGid.{splitn, find_id, os_get_id}
use letmein.FwProto.Fields.{tcp}
use letmein.FwProto.Message.{new_open}
use letmein.Tests.Daemon.{kernel_apply, kernel_list, toy_show, conf, client, empty, empty-Running}

abbrev newline : Text
newline = 10 ∷ []

abbrev passwd : Option Text
passwd = some (
    text "root:x:0:0:root:/root:/bin/sh"
    ++ newline
    ++ text "letmeind:x:997:996::/var/empty:/usr/sbin/nologin"
    ++ newline)

abbrev group : Option Text
group = some (text "root:x:0:" ++ newline ++ text "letmeind:x:996:" ++ newline)

abbrev expected : Expected
expected = record { uid = 997; gid = 996; test_mode = false }

abbrev from_user : ℕ → Incoming
from_user u = record {
  accepted = true;
  credentials = some (record { peer_pid = some (pid 4711); peer_uid = u; peer_gid = 996 });
  pid_file = some (text "4711" ++ newline);
}

databases_read : read_etc_passwd passwd group false ≡ ok expected
unfolding read_etc_passwd os_get_id find_id splitn find from_str_radix from_digits lines list_eq
databases_read = refl

letmeind_accepted : accept expected (from_user 997) ≡ ok tt
unfolding accept get_letmeind_pid parse_pid trim_start trim_end from_digits pid_eq
letmeind_accepted = refl

other_refused : accept expected (from_user 1000) ≡ err wrong_uid
unfolding accept get_letmeind_pid parse_pid trim_start trim_end from_digits pid_eq
other_refused = refl

accept-IsLetmeind_example : IsLetmeind passwd group (from_user 997)
accept-IsLetmeind_example =
    accept-IsLetmeind passwd group expected (from_user 997) databases_read letmeind_accepted

abbrev idle : Daemon (List Rule)
idle = record { state = empty; waiting = 0; accepting = true; maintaining = true }

-- A request over an accepted connection, its timeout, and the signal to terminate
abbrev a_run : List (ℕ × Input)
a_run =
    (1, connects (from_user 997))
    ∷ (2, handles (ok (some (new_open client tcp 22))) true)
    ∷ (700000, tick)
    ∷ (700001, terminate)
    ∷ []

run-LeavesClean_example :
    LeavesClean kernel_list kernel_apply toy_show conf expected
      (run kernel_list kernel_apply toy_show conf expected a_run idle)
run-LeavesClean_example =
    run-LeavesClean kernel_list kernel_apply toy_show conf expected a_run idle
      (tt, ((λ e. cc), (tt, (tt, tt)))) empty-Running

refused-HasFailed_example : HasFailed kernel_list kernel_apply toy_show conf expected (
    run kernel_list kernel_apply toy_show conf expected
      ((1, connects (from_user 1000)) ∷ (2, socket_report) ∷ [])
      idle)
refused-HasFailed_example =
    refused-HasFailed kernel_list kernel_apply toy_show conf expected 1 2 (from_user 1000) wrong_uid
      [] idle other_refused refl refl
