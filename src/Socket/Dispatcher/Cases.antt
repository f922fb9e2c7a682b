-- ===== src/Socket/Dispatcher/Cases.antt =====
-- letmein-proto/src/socket.rs: the ways through `try_recv`, and the connection list that
-- `try_accept` leaves.
use letmein.Base.{
  ℕ, ◌≤◌, ◌≡◌, refl, subst, inl, inr, Bool, true, Option, none, some, List, [], ◌∷◌, arith, leb,
  nat_eq, Bool-cases, Option-cases, length, HasEq, err,
}
use letmein.Base.Assoc.{lookup, insert, Distinct}
use letmein.Base.Bytes.{Bytes}
use letmein.Base.Sums.{total, AllEntries, present}
use letmein.Socket.Dispatcher.{
  invalid_size, UdpConn, Dispatcher, datagram, Outcome, fresh, queue_length, queue, accept_first,
  enqueue, try_recv,
}

module _ {Addr : Type 0} ⦃e : HasEq Addr⦄ (msg_size q_size : ℕ) where
  -- A datagram of the right size goes to a new connection or to that of its sender.
  pub try_recv_cases :
      (P : Outcome Addr (Unit {0}) → Type 0) (d : Dispatcher Addr) (n : ℕ) (buf : Bytes)
      (peer : Addr)
      → length d.conn ≤ d.max_nr_conn
      → P (err invalid_size, d)
      → (lookup peer d.conn ≡ none
          → P (enqueue msg_size q_size d (insert peer (fresh peer) d.conn) peer (fresh peer) buf))
      → ((c : UdpConn Addr)
          → lookup peer d.conn ≡ some c
          → P (enqueue msg_size q_size d d.conn peer c buf))
      → P (try_recv msg_size q_size d (datagram n buf peer))
  unfolding try_recv
  try_recv_cases P d n buf peer few wrong_size new old = elim (Bool-cases (nat_eq n msg_size)) [
    | inr wrong ↦ rw wrong wrong_size
    | inl size ↦ elim (Bool-cases (leb (length d.conn) d.max_nr_conn)) [
      | inr many ↦ absurd (ground arith)
      | inl fits ↦ elim (Option-cases (lookup peer d.conn)) [
        | inl gone ↦ rw (size, fits, gone) (new gone)
        | inr (c, here) ↦ rw (size, fits, here) (old c here)
      ]
    ]
  ]

module _ {Addr : Type 0} ⦃e : HasEq Addr⦄ (q_size : ℕ) where
  -- A queue within its limit, under the address of its peer.
  abbrev pub EntryOk : Addr → UdpConn Addr → Type 0
  EntryOk peer c = (queue_length c ≤ q_size) × (c.peer_addr ≡ peer)

  -- Marking a connection as accepted changes no queue.
  pub record SameQueues (m n : List (Addr × UdpConn Addr)) : Type 0 where
    pub sizes : length n ≡ length m
    pub totals : total queue_length n ≡ total queue_length m
    pub keeps_distinct : Distinct m → Distinct n
    pub keeps_entries : AllEntries EntryOk m → AllEntries EntryOk n
    pub same_queue : (peer : Addr) → queue (lookup peer n) ≡ queue (lookup peer m)
    pub same_keys : (peer : Addr) → present (lookup peer n) ≡ present (lookup peer m)

  SameQueues-refl : (m : List (Addr × UdpConn Addr)) → SameQueues m m
  SameQueues-refl m = record {
    sizes = refl;
    totals = refl;
    keeps_distinct = λ d. d;
    keeps_entries = λ a. a;
    same_queue = λ peer. refl;
    same_keys = λ peer. refl;
  }

  present-none : (o p : Option (UdpConn Addr)) → present o ≡ present p → p ≡ none → o ≡ none
  present-none o p h e = ground arith

  SameQueues-cons :
      (k : Addr) (c : UdpConn Addr) (b : Bool) (m n : List (Addr × UdpConn Addr))
      → SameQueues m n
      → SameQueues ((k, c) ∷ m) ((k, record c { accepted = b }) ∷ n)
  unfolding lookup
  SameQueues-cons k c b m n s = record {
    sizes = omega (arith, s.sizes);
    totals = omega (arith, s.totals);
    keeps_distinct =
        λ d. (present-none (lookup k n) (lookup k m) (s.same_keys k) d.0, s.keeps_distinct d.1);
    keeps_entries = λ a. (a.0, s.keeps_entries a.1);
    same_queue = λ peer. ground (arith, s.same_queue peer);
    same_keys = λ peer. ground (arith, s.same_keys peer);
  }

  pub accept_first-SameQueues :
      (m n : List (Addr × UdpConn Addr)) (peer : Addr)
      → accept_first m ≡ some (peer, n)
      → SameQueues m n
  unfolding accept_first
  accept_first-SameQueues [] n peer h = cc
  accept_first-SameQueues ((k, c) ∷ m) n peer h = elim (Bool-cases c.accepted) [
    | inr new ↦
        let is : (k, record c { accepted = true }) ∷ m ≡ n = ground arith in
        subst (SameQueues ((k, c) ∷ m)) is (SameQueues-cons k c true m m (SameQueues-refl m))
    | inl old ↦ elim (Option-cases (accept_first m)) [
      | inl none_left ↦ absurd (ground arith)
      | inr ((p, n'), found) ↦
          let is : (k, record c { accepted = c.accepted }) ∷ n' ≡ n = ground arith in
          subst (SameQueues ((k, c) ∷ m)) is
            (SameQueues-cons k c c.accepted m n' (accept_first-SameQueues m n' p found))
    ]
  ]
