-- ===== src/Socket/Dispatcher/Accounting.antt =====
-- letmein-proto/src/socket.rs: the counter of queued datagrams is the sum of the queues, as long as
-- no receive queue overflows, and no assertion of the dispatcher fails meanwhile.
use letmein.Base.{
  ℕ, ◌*◌, ◌≤◌, ◌≡◌, ◌≢◌, ◌⊎◌, some, List, [], ◌∷◌, arith, length, HasEq, err, panic, ◌++◌,
  length-append, refl, ◌∙◌, inl, inr, Option, none, Option-cases, Result, ok,
}
use letmein.Base.Assoc.{lookup, Distinct, insert, lookup-insert, remove, insert-Distinct}
use letmein.Base.Bytes.{Bytes}
use letmein.Base.Sums.{
  total, AllEntries, total-insert, total-remove, length-insert, AllEntries-insert,
  AllEntries-lookup,
}
use letmein.Socket.Dispatcher.{
  rx_overflow, UdpConn, Dispatcher, Outcome, queue_length, recv_notify, enqueue, SocketRead,
  datagram, would_block, failed, try_recv, Error, fresh, accept_first, accept_after, try_accept,
  pop_queue, pop_conn, pop_from, recv_after, try_recv_from, disconnect,
}
use letmein.Socket.Dispatcher.Bounds.{Bounded}
use letmein.Socket.Dispatcher.Cases.{try_recv_cases, accept_first-SameQueues, EntryOk}

module _ {Addr : Type 0} where
  -- `nr_queued_dgrams` counts the datagrams in the queues.
  abbrev pub IsExact : Dispatcher Addr → Type 0
  IsExact d = total queue_length d.conn ≡ d.nr_queued_dgrams

  -- The outcome is no panic, and the state that it leaves is exact.
  pub record Sound {A : Type 0} (r : Outcome Addr A) : Type 0 where
    pub returns : r.0 ≢ panic
    pub exact : IsExact r.1

  recv_notify-IsExact : (d : Dispatcher Addr) → IsExact d → IsExact (recv_notify d)
  unfolding recv_notify
  recv_notify-IsExact d x = ground arith

module _ {Addr : Type 0} ⦃e : HasEq Addr⦄ (msg_size q_size : ℕ) where
  entries_total :
      (m : List (Addr × UdpConn Addr))
      → AllEntries (EntryOk q_size) m
      → total queue_length m ≤ length m * q_size
  entries_total [] a = omega arith
  entries_total ((k, c) ∷ m) a = grind (arith, entries_total m a.1)

  within_limit :
      (m : List (Addr × UdpConn Addr)) (limit : ℕ)
      → AllEntries (EntryOk q_size) m
      → length m ≤ limit
      → total queue_length m ≤ limit * q_size
  within_limit m limit a h = grind (arith, entries_total m a)

  enqueue-Sound :
      (d : Dispatcher Addr) (m : List (Addr × UdpConn Addr)) (peer : Addr) (c : UdpConn Addr)
      (buf : Bytes)
      → lookup peer m ≡ some c
      → Distinct m
      → AllEntries (EntryOk q_size) m
      → total queue_length m ≡ d.nr_queued_dgrams
      → (length m ≤ d.max_nr_conn) ⊎ (length c.rx_queue ≡ 0)
      → (enqueue msg_size q_size d m peer c buf).0 ≢ err rx_overflow
      → Sound (enqueue msg_size q_size d m peer c buf)
  unfolding enqueue
  enqueue-Sound d m peer c buf here distinct entries exact room no_overflow =
      let c' = record c { rx_queue = c.rx_queue ++ (buf ∷ []) } in
      let m' = insert peer c' m in
      let ok' = AllEntries-lookup (EntryOk q_size) peer c m entries here in
      ground (
        arith,
        length-append c.rx_queue (buf ∷ []),
        lookup-insert peer peer c' m,
        e.same_iff peer peer,
        length-insert peer c' m,
        total-insert queue_length peer c' m,
        total-remove queue_length peer m',
        AllEntries-insert (EntryOk q_size) peer c' m,
        within_limit m' d.max_nr_conn,
      )

  -- A datagram leaves the counter exact and fails no assertion, whatever the socket returns, unless
  -- the queue of its sender is full.
  pub try_recv-Sound :
      (d : Dispatcher Addr) (read : SocketRead Addr)
      → Bounded q_size d
      → IsExact d
      → (try_recv msg_size q_size d read).0 ≢ err rx_overflow
      → Sound (try_recv msg_size q_size d read)
  unfolding try_recv
  try_recv-Sound d would_block b x = λ _. record { returns = λ p. cc; exact = x }
  try_recv-Sound d failed b x = λ _. record { returns = λ p. cc; exact = x }
  try_recv-Sound d (datagram n buf peer) b x =
      try_recv_cases msg_size q_size (λ r. r.0 ≢ err rx_overflow → Sound r) d n buf peer b.conns
        (λ _. record { returns = λ p. cc; exact = x })
        (λ gone.
          enqueue-Sound d (insert peer (fresh peer) d.conn) peer (fresh peer) buf
            (rw lookup-insert (rw ((e.same_iff peer peer).1 refl)))
            (insert-Distinct peer (fresh peer) d.conn b.distinct)
            (AllEntries-insert (EntryOk q_size) peer (fresh peer) d.conn (omega arith, refl)
              b.entries)
            (ground (arith, total-insert (queue_length {Addr = Addr}) peer (fresh peer) d.conn))
            (inr refl))
        (λ c here. enqueue-Sound d d.conn peer c buf here b.distinct b.entries x (inl b.conns))

  accept_after-Sound :
      (r : Result Error (Unit {0})) (d : Dispatcher Addr)
      → Sound (r, d)
      → Sound (accept_after msg_size q_size (r, d))
  unfolding accept_after
  accept_after-Sound panic d s = absurd (s.returns refl)
  accept_after-Sound (err x) d s = record { returns = λ p. cc; exact = s.exact }
  accept_after-Sound (ok _) d s = elim (Option-cases (accept_first d.conn)) [
    | inl none_new ↦
        rw (none_new, accept_after)
          (record { returns = λ p. cc; exact = recv_notify-IsExact d s.exact })
    | inr ((peer, n), found) ↦
        rw (found, accept_after)
          (record {
            returns = λ p. cc;
            exact = (accept_first-SameQueues q_size d.conn n peer found).totals ∙ s.exact;
          })
  ]

  pub try_accept-Sound :
      (d : Dispatcher Addr) (read : SocketRead Addr)
      → Bounded q_size d
      → IsExact d
      → (try_recv msg_size q_size d read).0 ≢ err rx_overflow
      → Sound (try_accept msg_size q_size d read)
  unfolding try_accept
  try_accept-Sound d read b x no_overflow =
      accept_after-Sound _ _ (try_recv-Sound d read b x no_overflow)

  pop_queue-Sound :
      (peer : Addr) (d : Dispatcher Addr) (c : UdpConn Addr) (q : List Bytes)
      → IsExact d
      → lookup peer d.conn ≡ some c
      → c.rx_queue ≡ q
      → Sound (pop_queue msg_size q_size peer d c q)
  unfolding pop_queue
  pop_queue-Sound peer d c [] x here is = record {
    returns = λ p. cc;
    exact = recv_notify-IsExact d x;
  }
  pop_queue-Sound peer d c (buf ∷ q) x here is =
      let c' = record c { rx_queue = q } in
      unfold recv_notify in
      ground
        (arith, total-insert queue_length peer c' d.conn, total-remove queue_length peer d.conn)

  pop_conn-Sound :
      (peer : Addr) (d : Dispatcher Addr) (o : Option (UdpConn Addr))
      → IsExact d
      → lookup peer d.conn ≡ o
      → Sound (pop_conn msg_size q_size peer d o)
  unfolding pop_conn
  pop_conn-Sound peer d none x here = record { returns = λ p. cc; exact = recv_notify-IsExact d x }
  pop_conn-Sound peer d (some c) x here = pop_queue-Sound peer d c c.rx_queue x here refl

  recv_after-Sound :
      (peer : Addr) (r : Result Error (Unit {0})) (d : Dispatcher Addr)
      → Sound (r, d)
      → Sound (recv_after msg_size q_size peer (r, d))
  unfolding recv_after pop_from
  recv_after-Sound peer panic d s = absurd (s.returns refl)
  recv_after-Sound peer (err x) d s = record { returns = λ p. cc; exact = s.exact }
  recv_after-Sound peer (ok _) d s = pop_conn-Sound peer d _ s.exact refl

  pub try_recv_from-Sound :
      (d : Dispatcher Addr) (read : SocketRead Addr) (peer : Addr)
      → Bounded q_size d
      → IsExact d
      → (try_recv msg_size q_size d read).0 ≢ err rx_overflow
      → Sound (try_recv_from msg_size q_size d read peer)
  unfolding try_recv_from
  try_recv_from-Sound d read peer b x no_overflow =
      recv_after-Sound peer _ _ (try_recv-Sound d read b x no_overflow)

  empty-total : (m : List (Addr × UdpConn Addr)) → length m ≡ 0 → total queue_length m ≡ 0
  empty-total [] h = refl
  empty-total (x ∷ m) h = absurd (omega arith)

  pub disconnect-Sound :
      (d : Dispatcher Addr) (peer : Addr) → IsExact d → Sound (disconnect msg_size q_size d peer)
  unfolding disconnect
  disconnect-Sound d peer x =
      ground (arith, total-remove queue_length peer d.conn, empty-total (remove peer d.conn))
