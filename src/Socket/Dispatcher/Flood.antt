-- ===== src/Socket/Dispatcher/Flood.antt =====
-- letmein-proto/src/socket.rs: datagrams of one peer that nobody takes out of its queue.
use native.Mathlib.Nat.{zero-mul, zero-add, suc-add, add-zero}
use letmein.Base.{
  ℕ, zero, suc, ◌+◌, ◌<◌, ◌≡◌, [], ◌∷◌, arith, HasEq, panic, ◌*◌, ◌≤◌, refl, ap, false, ◌++◌,
  replicate, length-replicate, subst,
}
use letmein.Base.Assoc.{lookup, remove, insert}
use letmein.Base.Bytes.{Bytes}
use letmein.Socket.Dispatcher.{new, UdpConn, Dispatcher, datagram, enqueue, try_recv}

module _ {Addr : Type 0} ⦃e : HasEq Addr⦄ (msg_size q_size : ℕ) where
  -- The datagrams are read one after the other, and the results are dropped.
  pub deliver : Dispatcher Addr → ℕ → Bytes → Addr → Dispatcher Addr
  deliver d zero buf peer = d
  deliver d (suc k) buf peer =
      deliver (try_recv msg_size q_size d (datagram msg_size buf peer)).1 k buf peer

  module _ (buf : Bytes) (peer : Addr) (limit : ℕ) where
    -- The connection of `peer` after `k` datagrams.
    abbrev holding : ℕ → UdpConn Addr
    holding k = record { rx_queue = replicate k buf; peer_addr = peer; accepted = false }

    record Idle (d : Dispatcher Addr) (s : ℕ) : Type 0 where
      no_conn : d.conn ≡ []
      limit_is : d.max_nr_conn ≡ limit
      count_is : d.nr_queued_dgrams ≡ s

    record Filling (d : Dispatcher Addr) (k s : ℕ) : Type 0 where
      one_conn : d.conn ≡ (peer, holding k) ∷ []
      limit_is : d.max_nr_conn ≡ limit
      count_is : d.nr_queued_dgrams ≡ s

    replicate-concat : (k : ℕ) → replicate k buf ++ (buf ∷ []) ≡ replicate (suc k) buf
    replicate-concat zero = refl
    replicate-concat (suc k) = ap (◌∷◌ buf) (replicate-concat k)

    abbrev next : Dispatcher Addr → Dispatcher Addr
    next d = (try_recv msg_size q_size d (datagram msg_size buf peer)).1

    first_datagram :
        (d : Dispatcher Addr) (s : ℕ)
        → Idle d s
        → 0 < q_size
        → 0 < limit
        → s + 1 ≤ limit * q_size
        → Filling (next d) 1 (s + 1)
    unfolding try_recv enqueue lookup insert
    first_datagram d s i hq hl fits = ground (arith, i, e.same_iff peer peer)

    next_datagram :
        (d : Dispatcher Addr) (k s : ℕ)
        → Filling d k s
        → k < q_size
        → 0 < limit
        → s + 1 ≤ limit * q_size
        → Filling (next d) (suc k) (s + 1)
    unfolding try_recv enqueue lookup insert
    next_datagram d k s f hk hl fits =
        ground (arith, e.same_iff peer peer, replicate-concat k, length-replicate k buf)

    last_datagram : (d : Dispatcher Addr) (s : ℕ) → Filling d q_size s → 0 < limit → Idle (next d) s
    unfolding try_recv enqueue lookup remove
    last_datagram d s f hl = ground (arith, e.same_iff peer peer, length-replicate q_size buf)

    -- From `k` queued datagrams, `j` more fill the queue and one more overflows it.
    fill_up :
        (j : ℕ) (d : Dispatcher Addr) (k s : ℕ)
        → Filling d k s
        → k + j ≡ q_size
        → 0 < limit
        → s + j ≤ limit * q_size
        → Idle (deliver d (suc j) buf peer) (s + j)
    unfolding deliver
    fill_up zero d k s f full hl fits =
        let k_is : k ≡ q_size = omega arith in
        rw add-zero (last_datagram d s (subst (λ n. Filling d n s) k_is f) hl)
    fill_up (suc j) d k s f full hl fits =
        let s_is : s + 1 + j ≡ s + suc j = omega arith in
        subst (Idle (deliver (next d) (suc j) buf peer)) s_is (
          fill_up j (next d) (suc k) (s + 1) (next_datagram d k s f (omega arith) hl (omega arith))
            (omega arith) hl (omega arith))

    one_flood :
        (q : ℕ) (d : Dispatcher Addr) (s : ℕ)
        → q_size ≡ suc q
        → Idle d s
        → 0 < limit
        → s + q_size ≤ limit * q_size
        → Idle (deliver d (suc (suc q)) buf peer) (s + q_size)
    unfolding deliver
    one_flood q d s is i hl fits =
        let s_is : s + 1 + q ≡ s + q_size = omega arith in
        subst (Idle (deliver (next d) (suc q) buf peer)) s_is (
          fill_up q (next d) 1 (s + 1) (first_datagram d s i (omega arith) hl (omega arith))
            (omega arith) hl (omega arith))

    deliver-add :
        (m n : ℕ) (d : Dispatcher Addr)
        → deliver d (m + n) buf peer ≡ deliver (deliver d m buf peer) n buf peer
    unfolding deliver
    deliver-add zero n d = rw zero-add
    deliver-add (suc m) n d = rw suc-add (deliver-add m n (next d))

    floods :
        (q i : ℕ) (d : Dispatcher Addr) (s : ℕ)
        → q_size ≡ suc q
        → Idle d s
        → 0 < limit
        → s + i * q_size ≤ limit * q_size
        → Idle (deliver d (i * suc (suc q)) buf peer) (s + i * q_size)
    floods q zero d s is idle hl fits = rw (zero-mul, zero-mul, add-zero) (unfold deliver in idle)
    floods q (suc i) d s is idle hl fits =
        let s_is : s + q_size + i * q_size ≡ s + suc i * q_size = grind arith in
        let n_is : suc (suc q) + i * suc (suc q) ≡ suc i * suc (suc q) = grind arith in
        subst (λ n. Idle (deliver d n buf peer) (s + suc i * q_size)) n_is
          (rw deliver-add (
            subst (Idle (deliver (deliver d (suc (suc q)) buf peer) (i * suc (suc q)) buf peer))
              s_is
              (floods q i (deliver d (suc (suc q)) buf peer) (s + q_size) is
                (one_flood q d s is idle hl (grind arith)) hl (grind arith))))

    saturated :
        (d : Dispatcher Addr) (s : ℕ) (late : Bytes) (other : Addr)
        → Idle d s
        → limit * q_size ≤ s
        → 0 < q_size
        → 0 < limit
        → (try_recv msg_size q_size d (datagram msg_size late other)).0 ≡ panic
    unfolding try_recv enqueue lookup insert
    saturated d s late other i full hq hl = ground (arith, i, e.same_iff other other)

  -- One peer alone stops the receive path. When `limit` times a full queue and one datagram more,
  -- all of the message size, have come in from it and none was taken out, no connection is left, and
  -- the next datagram of the message size, from whichever peer, fails the assertion in `try_recv`
  -- that bounds the counter.
  pub flood_panics :
      (q limit : ℕ) (buf late : Bytes) (peer other : Addr)
      → q_size ≡ suc q
      → 0 < limit
      → let d = deliver (new limit) (limit * suc q_size) buf peer in
        (d.conn ≡ []) × ((try_recv msg_size q_size d (datagram msg_size late other)).0 ≡ panic)
  unfolding new
  flood_panics q limit buf late peer other is hl =
      let start : Idle buf peer limit (new limit) 0 = record {
        no_conn = refl;
        limit_is = refl;
        count_is = refl;
      } in
      let sizes : limit * suc (suc q) ≡ limit * suc q_size = rw is in
      let idle = floods buf peer limit q limit (new limit) 0 is start hl (omega arith) in
      let idle' =
        subst (λ n. Idle buf peer limit (deliver (new limit) n buf peer) (0 + limit * q_size)) sizes
          idle in
      (idle'.no_conn, saturated buf peer limit _ _ late other idle' (omega arith) (omega arith) hl)
