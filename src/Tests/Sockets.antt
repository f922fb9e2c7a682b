-- ===== src/Tests/Sockets.antt =====
-- The UDP dispatcher and the loops over a byte stream.
use letmein.Base.{
  nat_has_eq, ℕ, suc, ◌*◌, ◌≤◌, ◌≡◌, refl, true, some, List, [], ◌∷◌, ◌++◌, arith, length, ok, err,
  panic,
}
use letmein.Base.Assoc.{lookup, insert}
use letmein.Base.Bytes.{Bytes}
use letmein.Socket.Dispatcher.{
  new, rx_overflow, UdpConn, Dispatcher, datagram, try_recv, disconnect, enqueue, try_recv_from,
  recv_after, pop_from, pop_conn, pop_queue, recv_notify,
}
use letmein.Socket.Dispatcher.Accounting.{Sound}
use letmein.Socket.Dispatcher.Bounds.{Bounded}
use letmein.Socket.Dispatcher.Calls.{start, accepts, step, Overflows, Reach-Sound}
use letmein.Socket.Dispatcher.Fifo.{queued, arrived, handed_out, try_recv_from-queued}
use letmein.Socket.Dispatcher.Flood.{deliver, flood_panics}
use letmein.Socket.Dispatcher.Overflow.{overflow-disconnect_panics}
use letmein.Stream.{takes, write_failed, done, send_loop}
use letmein.Stream.Fragments.{Sent, Unbroken, writes, send_loop-whole}

abbrev conn_with : List Bytes → UdpConn ℕ
conn_with q = record { rx_queue = q; peer_addr = 7; accepted = true }

-- One connection with a full queue of one datagram.
abbrev full : Dispatcher ℕ
full = record {
  conn = (7, conn_with ([] ∷ [])) ∷ [];
  max_nr_conn = 2;
  nr_queued_dgrams = 1;
  accept_signals = 0;
  recv_signals = 0;
}

full-Bounded : Bounded 1 full
unfolding lookup
full-Bounded = record {
  distinct = (refl, tt);
  conns = omega arith;
  entries = ((omega arith, refl), tt);
  queued = omega arith;
}

full_conn : lookup 7 full.conn ≡ some (conn_with ([] ∷ []))
unfolding lookup
full_conn = refl

overflow-disconnect_panics_example :
    let r = try_recv 4 1 full (datagram 4 [] 7) in
    (r.0 ≡ err rx_overflow) × ((disconnect 4 1 r.1 7).0 ≡ panic)
overflow-disconnect_panics_example =
    overflow-disconnect_panics 4 1 full [] 7 (conn_with ([] ∷ [])) full-Bounded refl refl refl
      (omega arith)

flood_panics_example :
    let d = deliver 4 2 (new {Addr = ℕ} 1) (1 * suc 2) [] 7 in
    (d.conn ≡ []) × ((try_recv 4 2 d (datagram 4 [] 8)).0 ≡ panic)
flood_panics_example = flood_panics 4 2 1 1 [] [] 7 8 refl (omega arith)

no_overflow : ¬ Overflows 4 2 (new {Addr = ℕ} 1) (accepts (datagram 4 [] 7))
unfolding Overflows try_recv new enqueue insert lookup
no_overflow e = cc

Reach-Sound_example : Sound (step 4 2 (new {Addr = ℕ} 1) (accepts (datagram 4 [] 7)))
Reach-Sound_example =
    Reach-Sound 4 2 {max_nr_conn = 1} start (accepts (datagram 4 [] 7)) no_overflow

abbrev msg : Bytes
msg = 1 ∷ 2 ∷ 3 ∷ []

abbrev busy : Dispatcher ℕ
busy = record {
  conn = (7, conn_with ((9 ∷ []) ∷ (5 ∷ []) ∷ [])) ∷ [];
  max_nr_conn = 2;
  nr_queued_dgrams = 2;
  accept_signals = 0;
  recv_signals = 0;
}

-- A datagram of another peer comes in while the oldest one of peer 7 is handed out.
busy_hands_out : (try_recv_from 1 4 busy (datagram 1 (3 ∷ []) 8) 7).0 ≡ ok (some (9 ∷ []))
unfolding try_recv_from recv_after pop_from pop_conn pop_queue recv_notify try_recv enqueue lookup
    insert
busy_hands_out = refl

try_recv_from-queued_example :
    queued busy 8 ++ arrived {Addr = ℕ} (datagram 1 (3 ∷ []) 8) 8
    ≡ handed_out {Addr = ℕ} (some (9 ∷ [])) 7 8
      ++ queued (try_recv_from 1 4 busy (datagram 1 (3 ∷ []) 8) 7).1 8
try_recv_from-queued_example =
    try_recv_from-queued 1 4 busy (datagram 1 (3 ∷ []) 8) 7 8 (some (9 ∷ [])) (omega arith)
      busy_hands_out

send_loop-whole_example :
    Sent msg [] (send_loop (takes 2 ∷ write_failed ∷ []) msg [])
    × (length msg ≤ writes (takes 2 ∷ write_failed ∷ [])
        → Unbroken (takes 2 ∷ write_failed ∷ [])
        → send_loop (takes 2 ∷ write_failed ∷ []) msg [] ≡ done (ok tt, msg))
send_loop-whole_example = send_loop-whole (takes 2 ∷ write_failed ∷ []) msg (omega arith)
