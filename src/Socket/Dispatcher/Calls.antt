-- ===== src/Socket/Dispatcher/Calls.antt =====
-- letmein-proto/src/socket.rs: any sequence of calls of the dispatcher, by any tasks, each of which
-- holds the mutex while it runs.
use letmein.Base.{ℕ, ◌≡◌, refl, ◌≢◌, arith, HasEq, Result, ok, err, panic}
use letmein.Socket.Dispatcher.{
  new, Error, rx_overflow, Dispatcher, SocketRead, Outcome, try_recv, try_accept, try_recv_from,
  disconnect,
}
use letmein.Socket.Dispatcher.Accounting.{
  IsExact, Sound, try_accept-Sound, try_recv_from-Sound, disconnect-Sound,
}
use letmein.Socket.Dispatcher.Bounds.{
  Bounded, try_accept-Bounded, try_recv_from-Bounded, disconnect-Bounded,
}

pub data Call (Addr : Type 0) : Type 0 where
  accepts : SocketRead Addr → Call Addr
  receives : SocketRead Addr → Addr → Call Addr
  disconnects : Addr → Call Addr

-- The result without its value.
abbrev outcome {ℓ} : {A : Type ℓ} → Result Error A → Result Error (Unit {0})
outcome (ok a) = ok tt
outcome (err x) = err x
outcome panic = panic

outcome-panic : {A : Type 0} (r : Result Error A) → r ≢ panic → outcome r ≢ panic
outcome-panic (ok a) h p = cc
outcome-panic (err x) h p = cc
outcome-panic panic h p = h refl

module _ {Addr : Type 0} ⦃e : HasEq Addr⦄ (msg_size q_size : ℕ) where
  pub step : Dispatcher Addr → Call Addr → Outcome Addr (Unit {0})
  step d (accepts read) = let r = try_accept msg_size q_size d read in (outcome r.0, r.1)
  step d (receives read peer) =
      let r = try_recv_from msg_size q_size d read peer in (outcome r.0, r.1)
  step d (disconnects peer) = disconnect msg_size q_size d peer

  -- The call reads a datagram that its sender's queue has no room for.
  unfoldable pub Overflows : Dispatcher Addr → Call Addr → Type 0
  Overflows d (accepts read) = (try_recv msg_size q_size d read).0 ≡ err rx_overflow
  Overflows d (receives read peer) = (try_recv msg_size q_size d read).0 ≡ err rx_overflow
  Overflows d (disconnects peer) = ⊥

  -- The states that calls lead to from a new dispatcher, with no overflow on the way.
  pub data Reach (max_nr_conn : ℕ) : Dispatcher Addr → Type 0 where
    start : Reach max_nr_conn (new max_nr_conn)
    call :
        {d : Dispatcher Addr}
        → Reach max_nr_conn d
        → (c : Call Addr) → ¬ Overflows d c
        → Reach max_nr_conn (step d c).1

  step-Bounded :
      (d : Dispatcher Addr) (c : Call Addr) → Bounded q_size d → Bounded q_size (step d c).1
  unfolding step
  step-Bounded d (accepts read) b = try_accept-Bounded q_size msg_size d read b
  step-Bounded d (receives read peer) b = try_recv_from-Bounded q_size msg_size d read peer b
  step-Bounded d (disconnects peer) b = disconnect-Bounded q_size msg_size d peer b

  step-Sound :
      (d : Dispatcher Addr) (c : Call Addr)
      → Bounded q_size d
      → IsExact d
      → ¬ Overflows d c
      → Sound (step d c)
  unfolding step Overflows
  step-Sound d (accepts read) b x h =
      let s = try_accept-Sound msg_size q_size d read b x h in
      record { returns = outcome-panic _ s.returns; exact = s.exact }
  step-Sound d (receives read peer) b x h =
      let s = try_recv_from-Sound msg_size q_size d read peer b x h in
      record { returns = outcome-panic _ s.returns; exact = s.exact }
  step-Sound d (disconnects peer) b x h = disconnect-Sound msg_size q_size d peer x

  new-Bounded : (max_nr_conn : ℕ) → Bounded q_size (new {Addr = Addr} max_nr_conn)
  unfolding new
  new-Bounded max_nr_conn = record {
    distinct = tt;
    conns = omega arith;
    entries = tt;
    queued = omega arith;
  }

  Reach-Invariant :
      {max_nr_conn : ℕ} {d : Dispatcher Addr} → Reach max_nr_conn d → Bounded q_size d × IsExact d
  Reach-Invariant {max_nr_conn} start = (new-Bounded max_nr_conn, unfold new in refl)
  Reach-Invariant (call {d} r c h) =
      let (b, x) = Reach-Invariant r in (step-Bounded d c b, (step-Sound d c b x h).exact)

  -- As long as no receive queue overflows, no sequence of accepts, receives and disconnects makes
  -- an assertion of the dispatcher fail or its counter go below 0, and the counter stays the sum of
  -- the queues.
  pub Reach-Sound :
      {max_nr_conn : ℕ} {d : Dispatcher Addr}
      → Reach max_nr_conn d
      → (c : Call Addr) → ¬ Overflows d c
      → Sound (step d c)
  Reach-Sound {d = d} r c h = let (b, x) = Reach-Invariant r in step-Sound d c b x h
