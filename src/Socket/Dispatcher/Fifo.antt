-- ===== src/Socket/Dispatcher/Fifo.antt =====
-- letmein-proto/src/socket.rs: the dispatcher against its specification, one first-in-first-out
-- queue for each peer.
use mathlib.Core.List.{append-nil}
use letmein.Base.{
  ℕ, ◌≤◌, ◌≡◌, refl, sym, ap, ◌∙◌, Option, none, some, List, [], ◌∷◌, ◌++◌, arith, if◌then◌else◌,
  length, HasEq, ◌==◌, ok, err, panic,
}
use letmein.Base.Assoc.{lookup, insert, lookup-insert}
use letmein.Base.Bytes.{Bytes}
use letmein.Socket.Dispatcher.{
  UdpConn, Dispatcher, SocketRead, datagram, would_block, failed, Outcome, fresh, queue,
  recv_notify, enqueue, try_recv, pop_queue, pop_conn, pop_from, recv_after, try_recv_from,
}
use letmein.Socket.Dispatcher.Cases.{try_recv_cases}

module _ {Addr : Type 0} ⦃e : HasEq Addr⦄ where
  -- The queues, whatever the map and the counters are
  abbrev pub queued : Dispatcher Addr → Addr → List Bytes
  queued d p = queue (lookup p d.conn)

  -- What a read of the socket brings for a peer
  abbrev pub arrived : SocketRead Addr → Addr → List Bytes
  arrived (datagram n buf peer) p = if peer == p then buf ∷ [] else []
  arrived would_block p = []
  arrived failed p = []

  -- What a call for `peer` hands out of the queue of `p`
  abbrev pub handed_out : Option Bytes → Addr → Addr → List Bytes
  handed_out none peer p = []
  handed_out (some buf) peer p = if peer == p then buf ∷ [] else []

  module _ (msg_size q_size : ℕ) where
    enqueue-queued :
        (d : Dispatcher Addr) (m : List (Addr × UdpConn Addr)) (peer p : Addr) (c : UdpConn Addr)
        (buf : Bytes)
        → lookup peer m ≡ some c
        → (enqueue msg_size q_size d m peer c buf).0 ≡ ok tt
        → queued (enqueue msg_size q_size d m peer c buf).1 p
          ≡ queue (lookup p m) ++ (if peer == p then buf ∷ [] else [])
    unfolding enqueue
    enqueue-queued d m peer p c buf here done = ground (
      arith,
      here,
      done,
      lookup-insert peer p (record c { rx_queue = c.rx_queue ++ (buf ∷ []) }) m,
      e.same_iff peer p,
      append-nil (queue (lookup p m)),
    )

    fresh-queued :
        (m : List (Addr × UdpConn Addr)) (peer p : Addr)
        → lookup peer m ≡ none
        → queue (lookup p (insert peer (fresh peer) m)) ≡ queue (lookup p m)
    fresh-queued m peer p gone =
        ground (arith, gone, lookup-insert peer p (fresh peer) m, e.same_iff peer p)

    fresh-here :
        (m : List (Addr × UdpConn Addr)) (peer : Addr)
        → lookup peer (insert peer (fresh peer) m) ≡ some (fresh peer)
    fresh-here m peer = ground (arith, lookup-insert peer peer (fresh peer) m, e.same_iff peer peer)

    try_recv-queued :
        (d : Dispatcher Addr) (read : SocketRead Addr) (p : Addr)
        → length d.conn ≤ d.max_nr_conn
        → (try_recv msg_size q_size d read).0 ≡ ok tt
        → queued (try_recv msg_size q_size d read).1 p ≡ queued d p ++ arrived read p
    unfolding try_recv
    try_recv-queued d would_block p few done = sym (append-nil (queued d p))
    try_recv-queued d failed p few done = cc
    try_recv-queued d (datagram n buf peer) p few done =
        try_recv_cases msg_size q_size
          (λ o. o.0 ≡ ok tt → queued o.1 p ≡ queued d p ++ arrived (datagram n buf peer) p) d n buf
          peer few (λ h. cc)
          (λ gone h.
            enqueue-queued d (insert peer (fresh peer) d.conn) peer p (fresh peer) buf
              (fresh-here d.conn peer) h
            ∙ ap (λ q. q ++ arrived (datagram n buf peer) p) (fresh-queued d.conn peer p gone))
          (λ c here h. enqueue-queued d d.conn peer p c buf here h) done

    pop_queue-queued :
        (peer p : Addr) (d : Dispatcher Addr) (c : UdpConn Addr) (q : List Bytes) (o : Option Bytes)
        → lookup peer d.conn ≡ some c
        → c.rx_queue ≡ q
        → (pop_queue msg_size q_size peer d c q).0 ≡ ok o
        → queued d p ≡ handed_out o peer p ++ queued (pop_queue msg_size q_size peer d c q).1 p
    unfolding pop_queue recv_notify
    pop_queue-queued peer p d c [] o here is done = ground (arith, here, is, done)
    pop_queue-queued peer p d c (buf ∷ q) o here is done = ground (
      arith,
      here,
      is,
      done,
      lookup-insert peer p (record c { rx_queue = q }) d.conn,
      e.same_iff peer p,
    )

    pop_conn-queued :
        (peer p : Addr) (d : Dispatcher Addr) (c : Option (UdpConn Addr)) (o : Option Bytes)
        → lookup peer d.conn ≡ c
        → (pop_conn msg_size q_size peer d c).0 ≡ ok o
        → queued d p ≡ handed_out o peer p ++ queued (pop_conn msg_size q_size peer d c).1 p
    unfolding pop_conn recv_notify
    pop_conn-queued peer p d none o here done = ground (arith, here, done)
    pop_conn-queued peer p d (some c) o here done =
        pop_queue-queued peer p d c c.rx_queue o here refl done

    recv_after-queued :
        (peer p : Addr) (x : Outcome Addr (Unit {0})) (o : Option Bytes)
        → (recv_after msg_size q_size peer x).0 ≡ ok o
        → (x.0 ≡ ok tt)
          × (queued x.1 p ≡ handed_out o peer p ++ queued (recv_after msg_size q_size peer x).1 p)
    unfolding recv_after pop_from
    recv_after-queued peer p (ok u, d) o done =
        (refl, pop_conn-queued peer p d (lookup peer d.conn) o refl done)
    recv_after-queued peer p (err x, d) o done = cc
    recv_after-queued peer p (panic, d) o done = cc

    -- A successful `try_recv_from` refines one first-in-first-out queue for each peer: what was queued
    -- for a peer and what the socket read brings for it, in this order, is what the call hands out for
    -- it followed by what is queued then. No datagram is lost, repeated, reordered or given to another
    -- peer.
    pub try_recv_from-queued :
        (d : Dispatcher Addr) (read : SocketRead Addr) (peer p : Addr) (o : Option Bytes)
        → length d.conn ≤ d.max_nr_conn
        → (try_recv_from msg_size q_size d read peer).0 ≡ ok o
        → queued d p ++ arrived read p
          ≡ handed_out o peer p ++ queued (try_recv_from msg_size q_size d read peer).1 p
    unfolding try_recv_from
    try_recv_from-queued d read peer p o few done =
        let (received, popped) =
          recv_after-queued peer p (try_recv msg_size q_size d read) o done in
        sym (try_recv-queued d read p few received) ∙ popped
