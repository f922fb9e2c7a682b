-- ===== src/Client/Sequence.antt =====
-- letmein/src/command/knock.rs and close.rs: the sequences of messages, the control port and the
-- choice of the address families. `check_reply` only warns, and is left out.
use letmein.Base.{
  ℕ, Bool, true, false, ◌&&◌, Option, none, some, if◌then◌else◌, Result, ok, err, panic,
}
use letmein.Base.Bytes.{Bytes}
use letmein.Client.{
  lift, ◌>>=◌, ◌>>◌, ClientError, Link, Step, recv_specific_msg, client_send, client_random, no_key,
  no_resource,
}
use letmein.Conf.{ControlPort, Config, get_key, resource_id_by_port}
use letmein.Proto.Auth.{generate_auth, generate_auth_no_challenge}
use letmein.Proto.Message.{new, UserId, ResourceId, Key}
use letmein.Proto.Operation.{Operation, challenge, response, come_in}

pub data AddrMode : Type 0 where
  try_both both only_ipv6 only_ipv4 : AddrMode

-- `From<(bool, bool)> for AddrMode`
unfoldable pub addr_mode_of : Bool → Bool → AddrMode
addr_mode_of false false = try_both
addr_mode_of true true = both
addr_mode_of false true = only_ipv6
addr_mode_of true false = only_ipv4

-- `ResMode`
pub data ResMode : Type 0 where
  res_ipv6 res_ipv4 : ResMode

-- Whether the host is written as an address (`is_ipv4_addr`, `is_ipv6_addr`).
pub data HostKind : Type 0 where
  ipv4_literal ipv6_literal host_name : HostKind

-- `KnockServer`, as far as it chooses the control port
pub record ServerPort : Type 0 where
  pub given_port : Option ℕ
  pub given_tcp : Bool
  pub given_udp : Bool

abbrev or_configured : Option ℕ → ℕ → ℕ
or_configured none p = p
or_configured (some q) p = q

-- `KnockServer::to_control_port`, `CloseServer::to_control_port`: the steps on TCP and UDP.
abbrev select_udp : Bool → ControlPort → ControlPort
select_udp true port = record port { tcp = false; udp = true }
select_udp false port = port

abbrev select_tcp : Bool → ControlPort → ControlPort
select_tcp true port = record port { tcp = true; udp = false }
select_tcp false port = port

abbrev prefer_tcp : ControlPort → ControlPort
prefer_tcp port = if port.tcp && port.udp then record port { udp = false } else port

unfoldable pub to_control_port : ServerPort → ControlPort → ControlPort
to_control_port server configured = prefer_tcp (
    select_tcp server.given_tcp (
      select_udp server.given_udp
        (record configured { port = or_configured server.given_port configured.port })))

module _ (mac : Key → Bytes → Bytes) where
  -- `KnockSeq::knock_sequence` with the operation Knock, `CloseSeq::close_sequence` with Close
  unfoldable pub sequence :
      Operation → UserId → ResourceId → Key → Result ClientError (Unit {0}) → Step (Unit {0})
  sequence operation user resource key connected = do
    lift connected
    fill ← client_random
    draft ← lift (new operation user resource fill)
    request ← lift (generate_auth_no_challenge mac draft key)
    client_send request
    c ← recv_specific_msg challenge
    fill' ← client_random
    draft' ← lift (new response user resource fill')
    answer ← lift (generate_auth mac draft' key c)
    client_send answer
    _ ← recv_specific_msg come_in
    lift (ok tt)

-- The second attempt decides only when the first one fails too: `run_knock` with a host name.
abbrev pub knock_both :
    Result ClientError (Unit {0})
    → Result ClientError (Unit {0}) × Link
    → Result ClientError (Unit {0}) × Link
knock_both (err e) (err _, l) = (err e, l)
knock_both (err e) (ok _, l) = (ok tt, l)
knock_both (err e) (panic, l) = (panic, l)
knock_both (ok _) (err _, l) = (ok tt, l)
knock_both (ok _) (ok _, l) = (ok tt, l)
knock_both (ok _) (panic, l) = (panic, l)
knock_both panic (r, l) = (panic, l)

-- After a panic there is no second attempt.
abbrev pub knock_then :
    Step (Unit {0}) → Result ClientError (Unit {0}) × Link → Result ClientError (Unit {0}) × Link
knock_then second (panic, l) = (panic, l)
knock_then second (ok a, l) = knock_both (ok a) (second l)
knock_then second (err e, l) = knock_both (err e) (second l)

abbrev pub close_then :
    Step (Unit {0}) → Result ClientError (Unit {0}) × Link → Result ClientError (Unit {0}) × Link
close_then second (ok a, l) = (ok a, l)
close_then second (err e, l) = second l
close_then second (panic, l) = (panic, l)

module _ (attempt : ResMode → Step (Unit {0})) where
  -- The `match` on the address mode in `run_knock`
  unfoldable pub knock_modes : AddrMode → HostKind → Step (Unit {0})
  knock_modes try_both ipv4_literal = attempt res_ipv4
  knock_modes try_both ipv6_literal = attempt res_ipv6
  knock_modes try_both host_name = λ l. knock_then (attempt res_ipv4) (attempt res_ipv6 l)
  knock_modes both kind = do attempt res_ipv6; attempt res_ipv4
  knock_modes only_ipv6 kind = attempt res_ipv6
  knock_modes only_ipv4 kind = attempt res_ipv4

  -- The `match` on the address mode in `run_close`
  unfoldable pub close_modes : AddrMode → HostKind → Step (Unit {0})
  close_modes try_both ipv4_literal = attempt res_ipv4
  close_modes try_both ipv6_literal = attempt res_ipv6
  close_modes try_both host_name = λ l. close_then (attempt res_ipv4) (attempt res_ipv6 l)
  close_modes both kind = do attempt res_ipv6; attempt res_ipv4
  close_modes only_ipv6 kind = attempt res_ipv6
  close_modes only_ipv4 kind = attempt res_ipv4

abbrev or_default : Option UserId → UserId → UserId
or_default none u = u
or_default (some v) u = v

-- What `run_knock` and `run_close` look up: the user, the key and the resource.
unfoldable pub target : Config → ℕ → Option UserId → Result ClientError (UserId × Key × ResourceId)
target conf p given =
    let user = or_default given conf.default_user in
    or_error (get_key conf user) no_key (λ key.
      or_error (resource_id_by_port conf.resources p (some user)) no_resource
        (λ resource. ok (user, key, resource)))
  where
    or_error :
        {A B : Type 0} → Option A → ClientError → (A → Result ClientError B) → Result ClientError B
    or_error none e f = err e
    or_error (some a) e f = f a
