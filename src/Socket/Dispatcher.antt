-- ===== src/Socket/Dispatcher.antt =====
-- letmein-proto/src/socket.rs: `UdpDispatcherRx`, the connection tracking of the UDP dispatcher.
-- `SocketAddr` is a type with an equality test, and the constants MSG_SIZE and Q_SIZE are
-- parameters. What the socket returns is an argument of each call. The two watch channels are
-- counters of the signals sent. An operation returns its result and the state that it leaves: the
-- mutex around the state is not poisoned by a panic.
pub mod Cases
pub mod Bounds
pub mod Accounting
pub mod Calls
pub mod Overflow
pub mod Flood
pub mod Fifo
use mathlib.Core.Option
use letmein.Base.{
  ℕ, ◌+◌, ◌-◌, ◌*◌, Bool, true, false, not, ◌&&◌, Option, none, some, List, [], ◌∷◌, ◌++◌, ltb, leb,
  nat_eq, if◌then◌else◌, length, HasEq, Result, ok, err, panic, map,
}
use letmein.Base.Assoc.{lookup, insert, remove}
use letmein.Base.Bytes.{Bytes}
use letmein.Base.Sums.{weight}
use letmein.Proto.Wire.{msg_size}

pub data Error : Type 0 where
  invalid_size rx_overflow too_many_conns socket_read : Error

-- One connection.
pub record UdpConn (Addr : Type 0) : Type 0 where
  pub rx_queue : List Bytes
  pub peer_addr : Addr
  pub accepted : Bool

pub record Dispatcher (Addr : Type 0) : Type 0 where
  pub conn : List (Addr × UdpConn Addr)
  pub max_nr_conn : ℕ
  pub nr_queued_dgrams : ℕ
  pub accept_signals : ℕ
  pub recv_signals : ℕ

-- The result of `socket.try_recv_from`: the size that was read, the buffer and the sender.
pub data SocketRead (Addr : Type 0) : Type 0 where
  datagram : ℕ → Bytes → Addr → SocketRead Addr
  would_block : SocketRead Addr
  failed : SocketRead Addr

-- `UdpDispatcherRx::new`
unfoldable pub new : {Addr : Type 0} → ℕ → Dispatcher Addr
new max_nr_conn = record {
  conn = [];
  max_nr_conn = max_nr_conn;
  nr_queued_dgrams = 0;
  accept_signals = 0;
  recv_signals = 0;
}

abbrev pub Outcome : Type 0 → Type 0 → Type 0
Outcome Addr A = Result Error A × Dispatcher Addr

module _ {Addr : Type 0} where
  abbrev pub fresh : Addr → UdpConn Addr
  fresh peer = record { rx_queue = []; peer_addr = peer; accepted = false }

  abbrev pub queue_length : UdpConn Addr → ℕ
  queue_length c = length c.rx_queue

  -- The queue of a peer, empty where there is no connection.
  abbrev pub queue : Option (UdpConn Addr) → List Bytes
  queue none = []
  queue (some c) = c.rx_queue

  -- The signals for a connection that is not accepted yet.
  abbrev signal_new : Bool → Dispatcher Addr → Dispatcher Addr
  signal_new true d = d
  signal_new false d = record d {
    accept_signals = d.accept_signals + 1;
    recv_signals = d.recv_signals + 1;
  }

  -- `recv_notify`
  unfoldable pub recv_notify : Dispatcher Addr → Dispatcher Addr
  recv_notify d =
      if ltb 0 d.nr_queued_dgrams then record d { recv_signals = d.recv_signals + 1 } else d

  -- The first connection that is not accepted, which is then marked.
  unfoldable pub accept_first :
      List (Addr × UdpConn Addr) → Option (Addr × List (Addr × UdpConn Addr))
  accept_first [] = none
  accept_first ((k, c) ∷ m) =
      if c.accepted
      then Option.map (λ r. (r.0, (k, c) ∷ r.1)) (accept_first m)
      else some (c.peer_addr, (k, record c { accepted = true }) ∷ m)

module _ {Addr : Type 0} ⦃e : HasEq Addr⦄ (msg_size q_size : ℕ) where
  -- The connection is there, as `c`, in the map `m`; `d` is the state before.
  unfoldable pub enqueue :
      Dispatcher Addr
      → List (Addr × UdpConn Addr)
      → Addr
      → UdpConn Addr
      → Bytes
      → Outcome Addr (Unit {0})
  enqueue d m peer c buf =
      if not (leb (length c.rx_queue) q_size)
      then (panic, record d { conn = m })
      else if nat_eq (length c.rx_queue) q_size
      then (err rx_overflow, record d { conn = remove peer m })
      else let m' = insert peer (record c { rx_queue = c.rx_queue ++ (buf ∷ []) }) m in
        if ltb d.max_nr_conn (length m')
        then (err too_many_conns, record d { conn = remove peer m' })
        else let d' = record d { conn = m'; nr_queued_dgrams = d.nr_queued_dgrams + 1 } in
          if leb d'.nr_queued_dgrams (d.max_nr_conn * q_size)
          then (ok tt, signal_new c.accepted d')
          else (panic, d')

  -- `entry(peer_addr).or_insert_with(..)`
  abbrev entry : Dispatcher Addr → Addr → Bytes → Option (UdpConn Addr) → Outcome Addr (Unit {0})
  entry d peer buf (some c) = enqueue d d.conn peer c buf
  entry d peer buf none = enqueue d (insert peer (fresh peer) d.conn) peer (fresh peer) buf

  -- `try_recv`
  unfoldable pub try_recv : Dispatcher Addr → SocketRead Addr → Outcome Addr (Unit {0})
  unfolding enqueue
  try_recv d would_block = (ok tt, d)
  try_recv d failed = (err socket_read, d)
  try_recv d (datagram n buf peer) =
      if not (nat_eq n msg_size)
      then (err invalid_size, d)
      else if not (leb (length d.conn) d.max_nr_conn)
      then (panic, d)
      else entry d peer buf (lookup peer d.conn)

  accept_after : Outcome Addr (Unit {0}) → Outcome Addr (Option Addr)
  unfolding recv_notify
  accept_after (panic, d) = (panic, d)
  accept_after (err _, d) = (ok none, d)
  accept_after (ok _, d) = elim (accept_first d.conn) [
    | some (peer, m) ↦ (ok (some peer), record d { conn = m })
    | none ↦ (ok none, recv_notify d)
  ]

  -- `try_accept`
  unfoldable pub try_accept : Dispatcher Addr → SocketRead Addr → Outcome Addr (Option Addr)
  unfolding accept_after
  try_accept d read = accept_after (try_recv d read)

  -- `pop_front` on the queue of the connection `c`, and the count
  unfoldable pub pop_queue :
      Addr → Dispatcher Addr → UdpConn Addr → List Bytes → Outcome Addr (Option Bytes)
  unfolding recv_notify
  pop_queue peer d c [] = (ok none, recv_notify d)
  pop_queue peer d c (buf ∷ q) =
      let d' = record d { conn = insert peer (record c { rx_queue = q }) d.conn } in
      if leb 1 d.nr_queued_dgrams
      then (ok (some buf), recv_notify (record d' { nr_queued_dgrams = d.nr_queued_dgrams - 1 }))
      else (panic, d')

  unfoldable pub pop_conn :
      Addr → Dispatcher Addr → Option (UdpConn Addr) → Outcome Addr (Option Bytes)
  unfolding pop_queue
  pop_conn peer d none = (ok none, recv_notify d)
  pop_conn peer d (some c) = pop_queue peer d c c.rx_queue

  unfoldable pub pop_from : Addr → Dispatcher Addr → Outcome Addr (Option Bytes)
  unfolding pop_conn
  pop_from peer d = pop_conn peer d (lookup peer d.conn)

  unfoldable pub recv_after : Addr → Outcome Addr (Unit {0}) → Outcome Addr (Option Bytes)
  unfolding pop_from
  recv_after peer (panic, d) = (panic, d)
  recv_after peer (err x, d) = (err x, d)
  recv_after peer (ok _, d) = pop_from peer d

  -- `try_recv_from`
  unfoldable pub try_recv_from :
      Dispatcher Addr → SocketRead Addr → Addr → Outcome Addr (Option Bytes)
  unfolding recv_after
  try_recv_from d read peer = recv_after peer (try_recv d read)

  -- `disconnect`
  unfoldable pub disconnect : Dispatcher Addr → Addr → Outcome Addr (Unit {0})
  disconnect d peer =
      let queued = weight queue_length (lookup peer d.conn) in
      if not (leb queued d.nr_queued_dgrams)
      then (panic, d)
      else let d' = record d {
        nr_queued_dgrams = d.nr_queued_dgrams - queued;
        conn = remove peer d.conn;
      } in
        if nat_eq (length d'.conn) 0 && not (nat_eq d'.nr_queued_dgrams 0)
        then (panic, d')
        else (ok tt, d')
