-- ===== src/Client/Modes.antt =====
-- letmein/src/command/knock.rs, close.rs: the control port that the client uses, and what the
-- address modes make of the attempts.
use letmein.Base.{
  ◌≡◌, ◌≢◌, Bool, true, false, not, ◌||◌, none, some, List, [], ◌∷◌, arith, if◌then◌else◌, panic,
  ok, Result, err,
}
use letmein.Client.{new_client, Link, Step, ClientError}
use letmein.Client.Sequence.{
  ServerPort, to_control_port, AddrMode, try_both, both, only_ipv6, only_ipv4, ResMode, res_ipv6,
  res_ipv4, HostKind, ipv4_literal, ipv6_literal, host_name,
}
use letmein.Conf.{ControlPort}

-- When the configuration allows TCP or UDP or the options choose one of them, the client's control
-- port has exactly one of them, so the assertions of `Client::new` hold; the port is the given one,
-- or else that of the configuration.
pub to_control_port-one :
    (server : ServerPort) (configured : ControlPort) (connects : Bool)
    → (configured.tcp || configured.udp) || (server.given_tcp || server.given_udp) ≡ true
    → let port = to_control_port server configured in
      (port.tcp ≡ not port.udp)
      × (new_client connects port ≢ panic)
      × (port.port ≡ elim server.given_port [ none ↦ configured.port | some p ↦ p ])
unfolding to_control_port new_client
to_control_port-one server configured connects h = ground arith

-- The reference: the families that a mode and a kind of host name, in the order in which they are
-- tried.
abbrev pub families : AddrMode → HostKind → List ResMode
families try_both ipv4_literal = res_ipv4 ∷ []
families try_both ipv6_literal = res_ipv6 ∷ []
families try_both host_name = res_ipv6 ∷ res_ipv4 ∷ []
families both kind = res_ipv6 ∷ res_ipv4 ∷ []
families only_ipv6 kind = res_ipv6 ∷ []
families only_ipv4 kind = res_ipv4 ∷ []

-- Whether one family is enough
abbrev pub one_is_enough : AddrMode → Bool
one_is_enough both = false
one_is_enough _ = true

abbrev pub Outcome : Type 0
Outcome = Result ClientError (Unit {0})

-- Behind which outcomes no further family is tried; a panic always ends the attempts.
abbrev pub on_panic : Outcome → Bool
on_panic panic = true
on_panic _ = false

abbrev pub on_success : Outcome → Bool
on_success (err e) = false
on_success _ = true

abbrev pub on_failure : Outcome → Bool
on_failure (ok u) = false
on_failure _ = true

-- The outcomes of the attempts up to the first one that stops, and the link behind them
abbrev pub extended : (Outcome → Bool) → Outcome × Link → List Outcome × Link → List Outcome × Link
extended stops (r, l) (rs, end) = if stops r then (r ∷ [], l) else (r ∷ rs, end)

abbrev pub outcomes :
    (ResMode → Step (Unit {0})) → (Outcome → Bool) → List ResMode → Link → List Outcome × Link
outcomes attempt stops [] l = ([], l)
outcomes attempt stops (m ∷ ms) l =
    extended stops (attempt m l) (outcomes attempt stops ms (attempt m l).1)

-- The last of the outcomes
abbrev pub last_of : List Outcome → Outcome
last_of [] = ok tt
last_of (r ∷ []) = r
last_of (r ∷ r' ∷ rs) = last_of (r' ∷ rs)

-- A success among the outcomes, or else the first error, unless they end with a panic
abbrev pub best_of : List Outcome → Outcome
best_of [] = ok tt
best_of (r ∷ []) = r
best_of (r ∷ r' ∷ rs) = better r (best_of (r' ∷ rs))
  where
    better : Outcome → Outcome → Outcome
    better r panic = panic
    better (err e) (ok u) = ok u
    better r r' = r

abbrev pub reported : (List Outcome → Outcome) → List Outcome × Link → Outcome × Link
reported report (rs, l) = (report rs, l)

-- The outcome of a second attempt that is always made once it is reached
abbrev ended : (Outcome → Bool) → Outcome × Link → List Outcome × Link
ended stops y = extended stops y ([], y.1)
