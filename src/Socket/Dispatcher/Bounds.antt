-- ===== src/Socket/Dispatcher/Bounds.antt =====
-- letmein-proto/src/socket.rs: the limits on connections and queues hold after every operation.
use letmein.Base.{
  ℕ, ◌+◌, ◌≤◌, ◌≡◌, some, List, length, HasEq, [], ◌∷◌, ◌++◌, arith, length-append, refl, inl, inr,
  Option-cases, Option, none, Result, ok, err, panic,
}
use letmein.Base.Assoc.{lookup, Distinct, insert, lookup-insert, insert-Distinct, remove-Distinct}
use letmein.Base.Bytes.{Bytes}
use letmein.Base.Sums.{
  total, AllEntries, total-insert, total-remove, length-insert, length-remove, AllEntries-insert,
  AllEntries-remove, AllEntries-lookup,
}
use letmein.Socket.Dispatcher.{
  UdpConn, Dispatcher, queue_length, enqueue, SocketRead, datagram, would_block, failed, fresh,
  accept_first, try_recv, recv_notify, accept_after, try_accept, pop_from, disconnect, Error,
  pop_queue, pop_conn, recv_after, try_recv_from,
}
use letmein.Socket.Dispatcher.Cases.{try_recv_cases, EntryOk, accept_first-SameQueues}

module _ {Addr : Type 0} ⦃e : HasEq Addr⦄ (q_size : ℕ) where
  -- The map has distinct keys, and no more entries and no longer queues than allowed; the counter
  -- of queued datagrams is not below the sum of the queues.
  pub record Bounded (d : Dispatcher Addr) : Type 0 where
    pub distinct : Distinct d.conn
    pub conns : length d.conn ≤ d.max_nr_conn
    pub entries : AllEntries (EntryOk q_size) d.conn
    pub queued : total queue_length d.conn ≤ d.nr_queued_dgrams

  module _ (msg_size : ℕ) where
    enqueue-Bounded :
        (d : Dispatcher Addr) (m : List (Addr × UdpConn Addr)) (peer : Addr) (c : UdpConn Addr)
        (buf : Bytes)
        → lookup peer m ≡ some c
        → Distinct m
        → length m ≤ d.max_nr_conn + 1
        → AllEntries (EntryOk q_size) m
        → total queue_length m ≤ d.nr_queued_dgrams
        → Bounded (enqueue msg_size q_size d m peer c buf).1
    unfolding enqueue
    enqueue-Bounded d m peer c buf here distinct conns entries queued =
        let c' = record c { rx_queue = c.rx_queue ++ (buf ∷ []) } in
        let m' = insert peer c' m in
        let ok' = AllEntries-lookup (EntryOk q_size) peer c m entries here in
        ground (
          arith,
          length-append c.rx_queue (buf ∷ []),
          lookup-insert peer peer c' m,
          e.same_iff peer peer,
          insert-Distinct peer c' m distinct,
          remove-Distinct peer m distinct,
          remove-Distinct peer m' (insert-Distinct peer c' m distinct),
          length-insert peer c' m,
          length-remove peer m,
          length-remove peer m',
          total-insert queue_length peer c' m,
          total-remove queue_length peer m,
          total-remove queue_length peer m',
          AllEntries-insert (EntryOk q_size) peer c' m,
          AllEntries-remove (EntryOk q_size) peer m entries,
          AllEntries-remove (EntryOk q_size) peer m',
        )

    pub try_recv-Bounded :
        (d : Dispatcher Addr) (read : SocketRead Addr)
        → Bounded d
        → Bounded (try_recv msg_size q_size d read).1
    unfolding try_recv
    try_recv-Bounded d would_block b = b
    try_recv-Bounded d failed b = b
    try_recv-Bounded d (datagram n buf peer) b =
        try_recv_cases msg_size q_size (λ r. Bounded r.1) d n buf peer b.conns b
          (λ gone.
            enqueue-Bounded d (insert peer (fresh peer) d.conn) peer (fresh peer) buf
              (rw lookup-insert (rw ((e.same_iff peer peer).1 refl)))
              (insert-Distinct peer (fresh peer) d.conn b.distinct)
              (omega (arith, b.conns, length-insert peer (fresh peer) d.conn))
              (AllEntries-insert (EntryOk q_size) peer (fresh peer) d.conn (omega arith, refl)
                b.entries)
              (omega (
                arith,
                b.queued,
                total-insert (queue_length {Addr = Addr}) peer (fresh peer) d.conn,
              )))
          (λ c here.
            enqueue-Bounded d d.conn peer c buf here b.distinct (omega (arith, b.conns)) b.entries
              b.queued)

  recv_notify-Bounded : (d : Dispatcher Addr) → Bounded d → Bounded (recv_notify d)
  unfolding recv_notify
  recv_notify-Bounded d b = ground arith

  module _ (msg_size : ℕ) where
    accept_after-Bounded :
        (r : Result Error (Unit {0})) (d : Dispatcher Addr)
        → Bounded d
        → Bounded (accept_after msg_size q_size (r, d)).1
    unfolding accept_after
    accept_after-Bounded panic d b = b
    accept_after-Bounded (err x) d b = b
    accept_after-Bounded (ok _) d b = elim (Option-cases (accept_first d.conn)) [
      | inl none_new ↦ rw (none_new, accept_after) (recv_notify-Bounded d b)
      | inr ((peer, n), found) ↦
          let s = accept_first-SameQueues q_size d.conn n peer found in
          rw (found, accept_after)
            (record {
              distinct = s.keeps_distinct b.distinct;
              conns = omega (arith, s.sizes, b.conns);
              entries = s.keeps_entries b.entries;
              queued = omega (arith, s.totals, b.queued);
            })
    ]

    pub try_accept-Bounded :
        (d : Dispatcher Addr) (read : SocketRead Addr)
        → Bounded d
        → Bounded (try_accept msg_size q_size d read).1
    unfolding try_accept
    try_accept-Bounded d read b = accept_after-Bounded _ _ (try_recv-Bounded msg_size d read b)

    pop_queue-Bounded :
        (peer : Addr) (d : Dispatcher Addr) (c : UdpConn Addr) (q : List Bytes)
        → Bounded d
        → lookup peer d.conn ≡ some c
        → c.rx_queue ≡ q
        → Bounded (pop_queue msg_size q_size peer d c q).1
    unfolding pop_queue recv_notify
    pop_queue-Bounded peer d c [] b here is = ground arith
    pop_queue-Bounded peer d c (buf ∷ q) b here is =
        let c' = record c { rx_queue = q } in
        ground (
          arith,
          AllEntries-lookup (EntryOk q_size) peer c d.conn b.entries here,
          AllEntries-insert (EntryOk q_size) peer c' d.conn,
          insert-Distinct peer c' d.conn b.distinct,
          length-insert peer c' d.conn,
          total-insert queue_length peer c' d.conn,
        )

    pop_conn-Bounded :
        (peer : Addr) (d : Dispatcher Addr) (o : Option (UdpConn Addr))
        → Bounded d
        → lookup peer d.conn ≡ o
        → Bounded (pop_conn msg_size q_size peer d o).1
    unfolding pop_conn
    pop_conn-Bounded peer d none b here = recv_notify-Bounded d b
    pop_conn-Bounded peer d (some c) b here = pop_queue-Bounded peer d c c.rx_queue b here refl

    recv_after-Bounded :
        (peer : Addr) (r : Result Error (Unit {0})) (d : Dispatcher Addr)
        → Bounded d
        → Bounded (recv_after msg_size q_size peer (r, d)).1
    unfolding recv_after pop_from
    recv_after-Bounded peer panic d b = b
    recv_after-Bounded peer (err x) d b = b
    recv_after-Bounded peer (ok _) d b = pop_conn-Bounded peer d _ b refl

    pub try_recv_from-Bounded :
        (d : Dispatcher Addr) (read : SocketRead Addr) (peer : Addr)
        → Bounded d
        → Bounded (try_recv_from msg_size q_size d read peer).1
    unfolding try_recv_from
    try_recv_from-Bounded d read peer b =
        recv_after-Bounded peer _ _ (try_recv-Bounded msg_size d read b)

    pub disconnect-Bounded :
        (d : Dispatcher Addr) (peer : Addr)
        → Bounded d
        → Bounded (disconnect msg_size q_size d peer).1
    unfolding disconnect
    disconnect-Bounded d peer b = ground (
      arith,
      length-remove peer d.conn,
      total-remove queue_length peer d.conn,
      remove-Distinct peer d.conn b.distinct,
      AllEntries-remove (EntryOk q_size) peer d.conn b.entries,
    )
