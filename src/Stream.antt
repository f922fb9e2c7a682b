-- ===== src/Stream.antt =====
-- The loops that send and receive one message over a byte stream, as in letmein-fwproto/src/lib.rs
-- (`FirewallMessage::send`, `recv`) and letmein-proto/src/socket.rs (TCP). The kernel's answers are
-- a list of events; a list that ends leaves the loop waiting.
pub mod Fragments
use letmein.Base.{
  ℕ, suc, ◌-◌, min, not, Option, none, some, List, [], ◌∷◌, ◌++◌, leb, nat_eq, if◌then◌else◌,
  length, take, drop, Result, ok, err, panic,
}
use letmein.Base.Bytes.{Bytes}

pub data IoError : Type 0 where
  poll_failed io_failed : IoError

-- One round of the receive loop: the poll fails, `try_read` would block or fails, or it returns as
-- many bytes as are there and fit, `k + 1` at most. With nothing there it returns 0, the end.
pub data ReadEvent : Type 0 where
  ready : ℕ → ReadEvent
  read_would_block read_failed read_poll_failed : ReadEvent

-- One round of the send loop: `try_write` takes `k` bytes at most.
pub data WriteEvent : Type 0 where
  takes : ℕ → WriteEvent
  write_would_block write_failed write_poll_failed : WriteEvent

pub data Progress (A : Type 0) : Type 0 where
  done : A → Progress A
  waiting : Progress A

-- The result, and what is left in the stream.
abbrev pub RecvResult : Type 0
RecvResult = Result IoError (Option Bytes) × Bytes

-- What `try_read` returns for `ready k` with room for `room` bytes.
abbrev pub read_size : ℕ → ℕ → Bytes → ℕ
read_size k room incoming = min (suc k) (min room (length incoming))

-- `incoming` is what the peer has sent; `buf` is the part of the buffer that is filled.
unfoldable pub recv_loop : ℕ → List ReadEvent → Bytes → Bytes → Progress RecvResult
recv_loop size [] incoming buf = waiting
recv_loop size (read_poll_failed ∷ events) incoming buf = done (err poll_failed, incoming)
recv_loop size (read_failed ∷ events) incoming buf = done (err io_failed, incoming)
recv_loop size (read_would_block ∷ events) incoming buf = recv_loop size events incoming buf
recv_loop size (ready k ∷ events) incoming buf =
    let n = read_size k (size - length buf) incoming in
    let buf' = buf ++ take n incoming in
    let rest = drop n incoming in
    let more = recv_loop size events rest buf' in
    if nat_eq n 0
    then done (ok none, incoming)
    else if not (leb (length buf') size)
    then done (panic, rest)
    else if nat_eq (length buf') size
    then done (ok (some buf'), rest)
    else more

abbrev pub SendResult : Type 0
SendResult = Result IoError (Unit {0}) × Bytes

-- `sent` is what the kernel has taken of the message, `buf` what is left of it.
unfoldable pub send_loop : List WriteEvent → Bytes → Bytes → Progress SendResult
send_loop [] buf sent = waiting
send_loop (write_poll_failed ∷ events) buf sent = done (err poll_failed, sent)
send_loop (write_failed ∷ events) buf sent = done (err io_failed, sent)
send_loop (write_would_block ∷ events) buf sent = send_loop events buf sent
send_loop (takes k ∷ events) buf sent =
    let n = min k (length buf) in
    let more = send_loop events (drop n buf) (sent ++ take n buf) in
    if nat_eq (length (drop n buf)) 0 then done (ok tt, sent ++ take n buf) else more
