-- ===== src/Firewall/Accept.antt =====
-- letmeinfwd/src/server.rs, `FirewallServer::accept`: who may connect to the Unix socket; with
-- `read_etc_passwd` of letmeinfwd/src/main.rs.
use letmein.Base.{
  ◌>>=◌, ◌>>◌, ℕ, ◌+◌, ◌-◌, ◌^◌, ◌≡◌, ◌↔◌, Bool, true, false, ◌||◌, Option, none, some, [], ◌∷◌,
  arith, nat_eq, if◌then◌else◌, Result, ok, err, guard, or_fail, with_err, sym, subst, nat_eq_iff,
  ok_inj, bind-eq-ok, or_fail-ok, guard-ok, ap, ◌∙◌,
}
use letmein.Base.Texts.{Text, text}
use letmein.Conf.Parsing.{
  ConfError, bad_number, trim_start, trim_end, trim, from_digits, some_digits,
}
use letmein.Firewall.UidGid.{IdError, os_get_id, os_get_uid, os_get_gid}

-- `pid_t`, a signed number
pub data Pid : Type 0 where
  pid negative_pid : ℕ → Pid

unfoldable pub pid_eq : Pid → Pid → Bool
pid_eq (pid m) (pid n) = nat_eq m n
pid_eq (negative_pid m) (negative_pid n) = nat_eq m n
pid_eq _ _ = false

pub pid_eq_iff : (p q : Pid) → (pid_eq p q ≡ true) ↔ (p ≡ q)
unfolding pid_eq
pid_eq_iff p q = ground arith

pub data AcceptError : Type 0 where
  accept_failed no_credentials pid_unknown no_pid_file bad_pid : AcceptError
  wrong_pid wrong_uid wrong_gid : AcceptError

abbrev negated : ℕ → Pid
negated n = if nat_eq n 0 then pid 0 else negative_pid n

-- `i32::from_str`
unfoldable pub parse_pid : Text → Result ConfError Pid
unfolding from_digits
parse_pid [] = err bad_number
parse_pid (c ∷ s) =
    if nat_eq c 45
    then (do n ← some_digits 10 (2 ^ 31 + 1) s; ok (negated n))
    else if nat_eq c 43
    then (do n ← some_digits 10 (2 ^ 31) s; ok (pid n))
    else (do n ← some_digits 10 (2 ^ 31) (c ∷ s); ok (pid n))

-- `get_letmeind_pid`, on the text of the PID-file
unfoldable pub get_letmeind_pid : Option Text → Result AcceptError Pid
unfolding parse_pid trim_start trim_end
get_letmeind_pid none = err no_pid_file
get_letmeind_pid (some content) = with_err (parse_pid (trim content)) bad_pid

-- `UCred`
pub record Credentials : Type 0 where
  pub peer_pid : Option Pid
  pub peer_uid : ℕ
  pub peer_gid : ℕ

-- What the system returns to one call of `accept`
pub record Incoming : Type 0 where
  pub accepted : Bool
  pub credentials : Option Credentials
  pub pid_file : Option Text

-- `LETMEIND_UID`, `LETMEIND_GID` and the test mode of a debug build
pub record Expected : Type 0 where
  pub uid : ℕ
  pub gid : ℕ
  pub test_mode : Bool

-- `FirewallServer::accept`
unfoldable pub accept : Expected → Incoming → Result AcceptError (Unit {0})
unfolding get_letmeind_pid pid_eq
accept expected incoming = do
  guard incoming.accepted accept_failed
  cred ← or_fail incoming.credentials no_credentials
  peer ← or_fail cred.peer_pid pid_unknown
  letmeind ← get_letmeind_pid incoming.pid_file
  guard (pid_eq peer letmeind) wrong_pid
  guard (expected.test_mode || nat_eq cred.peer_uid expected.uid) wrong_uid
  guard (expected.test_mode || nat_eq cred.peer_gid expected.gid) wrong_gid

-- `read_etc_passwd`: in the test mode the ids stay `u32::MAX`.
unfoldable pub read_etc_passwd : (passwd group : Option Text) → Bool → Result IdError Expected
unfolding os_get_id
read_etc_passwd passwd group true =
    ok (record { uid = 2 ^ 32 - 1; gid = 2 ^ 32 - 1; test_mode = true })
read_etc_passwd passwd group false = do
  uid ← os_get_uid passwd (text "letmeind")
  gid ← os_get_gid group (text "letmeind")
  ok (record { uid = uid; gid = gid; test_mode = false })

-- Who is accepted: the process of the PID-file, with the ids of letmeind in the databases.
pub record IsLetmeind (passwd group : Option Text) (incoming : Incoming) : Type 0 where
  pub cred : Credentials
  pub process : Pid
  pub has_cred : incoming.credentials ≡ some cred
  pub has_pid : cred.peer_pid ≡ some process
  pub pid_ok : get_letmeind_pid incoming.pid_file ≡ ok process
  pub uid_ok : os_get_uid passwd (text "letmeind") ≡ ok cred.peer_uid
  pub gid_ok : os_get_gid group (text "letmeind") ≡ ok cred.peer_gid

checked :
    (expected : Expected) (incoming : Incoming)
    → accept expected incoming ≡ ok tt
    → (cred : Credentials) × (process : Pid) × (incoming.credentials ≡ some cred)
      × (cred.peer_pid ≡ some process)
      × (get_letmeind_pid incoming.pid_file ≡ ok process)
      × ((expected.test_mode || nat_eq cred.peer_uid expected.uid) ≡ true)
      × ((expected.test_mode || nat_eq cred.peer_gid expected.gid) ≡ true)
unfolding accept
checked expected incoming e =
    let (_, _, e1) = bind-eq-ok (guard incoming.accepted accept_failed) _ e in
    let (cred, has_cred, e2) = bind-eq-ok (or_fail incoming.credentials no_credentials) _ e1 in
    let (peer, has_pid, e3) = bind-eq-ok (or_fail cred.peer_pid pid_unknown) _ e2 in
    let (letmeind, in_file, e4) = bind-eq-ok (get_letmeind_pid incoming.pid_file) _ e3 in
    let (u, same_pid, e5) = bind-eq-ok (guard (pid_eq peer letmeind) wrong_pid) _ e4 in
    let (v, uid_passes, gid_passes) =
      bind-eq-ok (guard (expected.test_mode || nat_eq cred.peer_uid expected.uid) wrong_uid) _ e5 in
    let same_process : peer ≡ letmeind =
      (pid_eq_iff peer letmeind).0 (guard-ok (pid_eq peer letmeind) wrong_pid u same_pid) in
    (
      cred,
      peer,
      or_fail-ok incoming.credentials no_credentials cred has_cred,
      or_fail-ok cred.peer_pid pid_unknown peer has_pid,
      subst (λ p. get_letmeind_pid incoming.pid_file ≡ ok p) (sym same_process) in_file,
      guard-ok (expected.test_mode || nat_eq cred.peer_uid expected.uid) wrong_uid v uid_passes,
      guard-ok (expected.test_mode || nat_eq cred.peer_gid expected.gid) wrong_gid tt gid_passes,
    )

-- Outside the test mode a connection is accepted only from the process that the PID-file names,
-- when it runs as the user and the group letmeind of the system's databases.
pub accept-IsLetmeind :
    (passwd group : Option Text) (expected : Expected) (incoming : Incoming)
    → read_etc_passwd passwd group false ≡ ok expected
    → accept expected incoming ≡ ok tt
    → IsLetmeind passwd group incoming
unfolding read_etc_passwd
accept-IsLetmeind passwd group expected incoming r e =
    let (uid, uid_read, r1) = bind-eq-ok (os_get_uid passwd (text "letmeind")) _ r in
    let (gid, gid_read, r2) = bind-eq-ok (os_get_gid group (text "letmeind")) _ r1 in
    let made : record { uid = uid; gid = gid; test_mode = false } ≡ expected = ok_inj r2 in
    let (cred, process, has_cred, has_pid, pid_ok, uid_passes, gid_passes) =
      checked (record { uid = uid; gid = gid; test_mode = false }) incoming
        (subst (λ x. accept x incoming ≡ ok tt) (sym made) e) in
    record {
      cred = cred;
      process = process;
      has_cred = has_cred;
      has_pid = has_pid;
      pid_ok = pid_ok;
      uid_ok = uid_read ∙ ap ok (sym ((nat_eq_iff cred.peer_uid uid).0 uid_passes));
      gid_ok = gid_read ∙ ap ok (sym ((nat_eq_iff cred.peer_gid gid).0 gid_passes));
    }
