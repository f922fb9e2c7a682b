-- ===== src/Socket/Dispatcher/Overflow.antt =====
-- letmein-proto/src/socket.rs: what an overflow of a receive queue does to the counter of queued
-- datagrams.
use letmein.Base.{ℕ, ◌+◌, ◌<◌, ◌≡◌, none, some, [], ◌∷◌, arith, HasEq, err, panic}
use letmein.Base.Assoc.{lookup, remove, lookup-remove_self}
use letmein.Base.Bytes.{Bytes}
use letmein.Base.Sums.{total, total-remove}
use letmein.Socket.Dispatcher.{
  rx_overflow, UdpConn, Dispatcher, datagram, queue_length, enqueue, try_recv, disconnect,
}
use letmein.Socket.Dispatcher.Accounting.{IsExact}
use letmein.Socket.Dispatcher.Bounds.{Bounded}

module _ {Addr : Type 0} ⦃e : HasEq Addr⦄ (msg_size q_size : ℕ) where
  -- A datagram for a full queue closes the connection and drops its queue, but the counter still
  -- counts the dropped datagrams.
  pub overflow_leaks :
      (d : Dispatcher Addr) (buf : Bytes) (peer : Addr) (c : UdpConn Addr)
      → Bounded q_size d
      → IsExact d
      → lookup peer d.conn ≡ some c
      → queue_length c ≡ q_size
      → let r = try_recv msg_size q_size d (datagram msg_size buf peer) in
        (r.0 ≡ err rx_overflow)
        × (lookup peer r.1.conn ≡ none)
        × (r.1.nr_queued_dgrams ≡ total queue_length r.1.conn + q_size)
  unfolding try_recv enqueue
  overflow_leaks d buf peer c b x here full = ground (
    arith,
    b.conns,
    lookup-remove_self peer d.conn b.distinct,
    total-remove queue_length peer d.conn,
  )

  -- A datagram for the full queue of the only connection overflows it, and closing its socket then
  -- fails the assertion in `disconnect` that the counter is 0.
  pub overflow-disconnect_panics :
      (d : Dispatcher Addr) (buf : Bytes) (peer : Addr) (c : UdpConn Addr)
      → Bounded q_size d
      → IsExact d
      → d.conn ≡ (peer, c) ∷ []
      → queue_length c ≡ q_size
      → 0 < q_size
      → let r = try_recv msg_size q_size d (datagram msg_size buf peer) in
        (r.0 ≡ err rx_overflow) × ((disconnect msg_size q_size r.1 peer).0 ≡ panic)
  unfolding try_recv enqueue disconnect lookup remove
  overflow-disconnect_panics d buf peer c b x only full pos =
      ground (arith, b.conns, e.same_iff peer peer)
