-- ===== src/Server/Listen.antt =====
-- letmeind/src/server.rs: the sockets that `Server::new` listens on, those that systemd hands over or
-- else its own.
use letmein.Base.{
  ◌>>=◌, ◌>>◌, ◌≡◌, refl, Bool, true, false, not, ◌&&◌, ◌||◌, List, [], ◌∷◌, arith, if◌then◌else◌,
  Result, ok, err, guard, with_err, bind-eq-ok, subst, ok_inj,
}
use letmein.Conf.{ControlPort}
use letmein.Systemd.{Fd, SystemdSocket, udp_socket, tcp_socket, unix_socket, SystemdError}

pub data ListenError : Type 0 where
  systemd_failed multiple_tcp multiple_udp unusable_socket : ListenError
  setup_failed notify_failed bind_failed : ListenError

-- Which of the two sockets there are
pub record Sockets : Type 0 where
  pub tcp : Bool
  pub udp : Bool

-- What the system does: the sockets from systemd, if they are used, and whether it takes the
-- notification and the binding of each socket
pub record System : Type 0 where
  pub no_systemd : Bool
  pub handed_over : Result SystemdError (List SystemdSocket)
  pub takes_notify : Bool
  pub binds_tcp : Bool
  pub binds_udp : Bool

module _ (port : ControlPort) (can_set_up : Fd → Bool) where
  -- One socket, where `can_set_up` tells whether it can be made a non-blocking socket of tokio; what is
  -- not configured is dropped.
  abbrev pub use_socket : SystemdSocket → Sockets → Result ListenError Sockets
  use_socket (tcp_socket fd) s = do
    guard (not s.tcp) multiple_tcp
    guard (not port.tcp || can_set_up fd) setup_failed
    ok (record s { tcp = port.tcp })
  use_socket (udp_socket fd) s = do
    guard (not s.udp) multiple_udp
    guard (not port.udp || can_set_up fd) setup_failed
    ok (record s { udp = port.udp })
  use_socket (unix_socket fd) s = err unusable_socket

  unfoldable pub use_sockets : List SystemdSocket → Sockets → Result ListenError Sockets
  use_sockets [] s = ok s
  use_sockets (socket ∷ sockets) s = do s' ← use_socket socket s; use_sockets sockets s'

  unfoldable pub from_systemd : System → Result ListenError Sockets
  unfolding use_sockets
  from_systemd system = if system.no_systemd then ok (record { tcp = false; udp = false }) else (do
    sockets ← with_err system.handed_over systemd_failed
    s ← use_sockets sockets (record { tcp = false; udp = false })
    guard (not (s.tcp || s.udp) || system.takes_notify) notify_failed
    ok s)

  -- With no socket from systemd the configured ones are bound.
  abbrev pub bind_sockets : System → Sockets → Result ListenError Sockets
  bind_sockets system s = if s.tcp || s.udp then ok s else (do
    guard (not port.tcp || system.binds_tcp) bind_failed
    guard (not port.udp || system.binds_udp) bind_failed
    ok (record { tcp = port.tcp; udp = port.udp }))

  -- `Server::new`
  unfoldable pub listen : System → Result ListenError Sockets
  unfolding from_systemd
  listen system = do s ← from_systemd system; bind_sockets system s

  -- Only configured protocols are served.
  abbrev pub Configured : Sockets → Type 0
  Configured s = ((s.tcp && port.tcp) ≡ s.tcp) × ((s.udp && port.udp) ≡ s.udp)

  use_socket-Configured :
      (socket : SystemdSocket) (s s' : Sockets)
      → Configured s
      → use_socket socket s ≡ ok s'
      → Configured s'
  use_socket-Configured socket s s' c e = ground (arith, c, e)

  use_sockets-Configured :
      (sockets : List SystemdSocket) (s s' : Sockets)
      → Configured s
      → use_sockets sockets s ≡ ok s'
      → Configured s'
  unfolding use_sockets
  use_sockets-Configured [] s s' c e = ground (arith, c, e)
  use_sockets-Configured (socket ∷ sockets) s s' c e =
      let (s1, first, e1) = bind-eq-ok (use_socket socket s) _ e in
      use_sockets-Configured sockets s1 s' (use_socket-Configured socket s s1 c first) e1

  from_systemd-Configured :
      (system : System) (s : Sockets) → from_systemd system ≡ ok s → Configured s
  unfolding from_systemd
  from_systemd-Configured system s e = by_case system.no_systemd e
    where
      asked : Result ListenError Sockets
      asked = do
        sockets ← with_err system.handed_over systemd_failed
        s1 ← use_sockets sockets (record { tcp = false; udp = false })
        guard (not (s1.tcp || s1.udp) || system.takes_notify) notify_failed
        ok s1

      by_case :
          (b : Bool)
          → (if b then ok (record { tcp = false; udp = false }) else asked) ≡ ok s
          → Configured s
      by_case true e1 = ground (arith, e1)
      by_case false e1 =
          let (sockets, _, e2) = bind-eq-ok (with_err system.handed_over systemd_failed) _ e1 in
          let (s1, used, e3) =
            bind-eq-ok (use_sockets sockets (record { tcp = false; udp = false })) _ e2 in
          let (_, _, e4) =
            bind-eq-ok (guard (not (s1.tcp || s1.udp) || system.takes_notify) notify_failed) _ e3 in
          subst Configured (ok_inj e4) (
            use_sockets-Configured sockets (record { tcp = false; udp = false }) s1 (refl, refl)
              used)

  bind_sockets-Configured :
      (system : System) (s s' : Sockets)
      → (port.tcp || port.udp) ≡ true
      → Configured s
      → bind_sockets system s ≡ ok s'
      → Configured s' × ((s'.tcp || s'.udp) ≡ true)
  bind_sockets-Configured system s s' usable c e = ground (arith, usable, c, e)

  -- A server that starts listens on a protocol, and on none that is not configured, whatever systemd
  -- hands over, when the control port has a protocol.
  pub listen-Configured :
      (system : System) (s : Sockets)
      → (port.tcp || port.udp) ≡ true
      → listen system ≡ ok s
      → Configured s × ((s.tcp || s.udp) ≡ true)
  unfolding listen
  listen-Configured system s usable e =
      let (s1, asked, e1) = bind-eq-ok (from_systemd system) _ e in
      bind_sockets-Configured system s1 s usable (from_systemd-Configured system s1 asked) e1
