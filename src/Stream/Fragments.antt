-- ===== src/Stream/Fragments.antt =====
-- A message is received whole however the stream is cut up, and sent whole or reported as not sent.
use mathlib.Core.List.{append_assoc, append-nil}
use letmein.Base.{
  ℕ, suc, ◌+◌, ◌≤◌, ◌<◌, ◌≡◌, some, List, [], ◌∷◌, ◌++◌, arith, length, ok, ◌-◌, refl, take, drop,
  length-append, take-append-drop, length-take, length-drop, take-append_le, drop-append_le,
  take_all, drop_all, err, panic, min, zero,
}
use letmein.Base.Bytes.{Bytes}
use letmein.Stream.{
  ReadEvent, ready, read_would_block, read_failed, read_poll_failed, done, recv_loop, WriteEvent,
  takes, write_would_block, write_failed, write_poll_failed, Progress, waiting, read_size,
  SendResult, send_loop,
}

-- No event is a failure.
abbrev pub Undisturbed : List ReadEvent → Type 0
Undisturbed [] = Unit {0}
Undisturbed (ready k ∷ events) = Undisturbed events
Undisturbed (read_would_block ∷ events) = Undisturbed events
Undisturbed (read_failed ∷ events) = ⊥
Undisturbed (read_poll_failed ∷ events) = ⊥

-- The rounds that read something.
abbrev pub reads : List ReadEvent → ℕ
reads [] = 0
reads (ready k ∷ events) = suc (reads events)
reads (_ ∷ events) = reads events

-- `front` is in the buffer and `back` is still to come, `rest` behind it.
recv_loop-rest :
    (size : ℕ) (events : List ReadEvent) (front back rest : Bytes)
    → length front + length back ≡ size
    → 0 < length back
    → length back ≤ reads events
    → Undisturbed events
    → recv_loop size events (back ++ rest) front ≡ done (ok (some (front ++ back)), rest)
unfolding recv_loop
recv_loop-rest size [] front back rest sizes pos enough u = absurd (omega arith)
recv_loop-rest size (read_would_block ∷ events) front back rest sizes pos enough u =
    recv_loop-rest size events front back rest sizes pos enough u
recv_loop-rest size (read_failed ∷ events) front back rest sizes pos enough u = absurd u
recv_loop-rest size (read_poll_failed ∷ events) front back rest sizes pos enough u = absurd u
recv_loop-rest size (ready k ∷ events) front back rest sizes pos enough u =
    let n = read_size k (size - length front) (back ++ rest) in
    ground (
      arith,
      take-append_le n back rest,
      drop-append_le n back rest,
      length-take n back,
      length-drop n back,
      length-append back rest,
      length-append front (take n back),
      take-append-drop n back,
      append_assoc front (take n back) (drop n back),
      take_all n back,
      drop_all n back,
      recv_loop-rest size events (front ++ take n back) (drop n back) rest,
    )

-- A message of `size` bytes is received as it was sent, in as many pieces as the stream gives, with
-- any number of rounds that would block in between, and what follows it stays in the stream.
pub recv_loop-fragments :
    (size : ℕ) (events : List ReadEvent) (msg rest : Bytes)
    → length msg ≡ size
    → 0 < size
    → size ≤ reads events
    → Undisturbed events
    → recv_loop size events (msg ++ rest) [] ≡ done (ok (some msg), rest)
recv_loop-fragments size events msg rest sizes pos enough u =
    recv_loop-rest size events [] msg rest (omega arith) (omega arith) (omega arith) u

-- What the send loop has done when it ends or waits.
abbrev pub Sent : Bytes → Bytes → Progress SendResult → Type 0
Sent buf sent waiting = Unit {0}
Sent buf sent (done (ok _, out)) = out ≡ sent ++ buf
Sent buf sent (done (err _, out)) = (left : Bytes) × (out ++ left ≡ sent ++ buf)
Sent buf sent (done (panic, out)) = ⊥

send_loop-Sent :
    (events : List WriteEvent) (buf sent : Bytes) → Sent buf sent (send_loop events buf sent)
unfolding send_loop
send_loop-Sent [] buf sent = tt
send_loop-Sent (write_poll_failed ∷ events) buf sent = (buf, refl)
send_loop-Sent (write_failed ∷ events) buf sent = (buf, refl)
send_loop-Sent (write_would_block ∷ events) buf sent = send_loop-Sent events buf sent
send_loop-Sent (takes k ∷ events) buf sent =
    let n = min k (length buf) in
    ground (
      arith,
      take-append-drop n buf,
      append_assoc sent (take n buf) (drop n buf),
      append-nil (sent ++ take n buf),
      length-drop n buf,
      drop_all n buf,
      send_loop-Sent events (drop n buf) (sent ++ take n buf),
    )

-- No event of the send loop is a failure.
abbrev pub Unbroken : List WriteEvent → Type 0
Unbroken [] = Unit {0}
Unbroken (takes k ∷ events) = Unbroken events
Unbroken (write_would_block ∷ events) = Unbroken events
Unbroken (write_failed ∷ events) = ⊥
Unbroken (write_poll_failed ∷ events) = ⊥

-- The rounds that take something.
abbrev pub writes : List WriteEvent → ℕ
writes [] = 0
writes (takes (suc k) ∷ events) = suc (writes events)
writes (_ ∷ events) = writes events

send_loop-ends :
    (events : List WriteEvent) (buf sent : Bytes)
    → 0 < length buf
    → length buf ≤ writes events
    → Unbroken events
    → send_loop events buf sent ≡ done (ok tt, sent ++ buf)
unfolding send_loop
send_loop-ends [] buf sent pos enough u = absurd (omega arith)
send_loop-ends (write_poll_failed ∷ events) buf sent pos enough u = absurd u
send_loop-ends (write_failed ∷ events) buf sent pos enough u = absurd u
send_loop-ends (write_would_block ∷ events) buf sent pos enough u =
    send_loop-ends events buf sent pos enough u
send_loop-ends (takes zero ∷ events) buf sent pos enough u =
    ground (arith, append-nil sent, send_loop-ends events buf sent pos enough u)
send_loop-ends (takes (suc k) ∷ events) buf sent pos enough u =
    let n = min (suc k) (length buf) in
    ground (
      arith,
      take-append-drop n buf,
      append_assoc sent (take n buf) (drop n buf),
      append-nil (sent ++ take n buf),
      length-drop n buf,
      drop_all n buf,
      send_loop-ends events (drop n buf) (sent ++ take n buf),
    )

-- A message is sent whole when no round fails and there are as many rounds that take something as
-- the message has bytes; and whatever the rounds are, success means that the whole message has been
-- taken, and after a failure what has been taken is a first part of it.
pub send_loop-whole :
    (events : List WriteEvent) (msg : Bytes)
    → 0 < length msg
    → Sent msg [] (send_loop events msg [])
      × (length msg ≤ writes events → Unbroken events → send_loop events msg [] ≡ done (ok tt, msg))
send_loop-whole events msg pos =
    (send_loop-Sent events msg [], λ enough u. send_loop-ends events msg [] pos enough u)
