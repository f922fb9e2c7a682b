-- ===== src/Tests/Delivery.antt =====
-- A message over TCP that both kernels cut up.
use letmein.Base.{nat_has_eq, ℕ, ◌≡◌, false, true, some, [], ◌∷◌, ◌++◌, arith, ok, replicate}
use letmein.Proto.Operation.{knock}
use letmein.Socket.Dispatcher.{new, Dispatcher}
use letmein.Socket.Net.{over_tcp, Network, After, send_msg, recv_msg}
use letmein.Socket.Net.Delivery.{arriving, recv_msg-send_msg}
use letmein.Stream.{ready, read_would_block, takes, write_would_block, done}
use letmein.Tests.Protocol.{message, message-IsValid}

abbrev bytewise : Network ℕ
bytewise = record {
  read_events = ready 8 ∷ read_would_block ∷ replicate 56 (ready 0);
  write_events = write_would_block ∷ takes 0 ∷ replicate 56 (takes 1);
  incoming = [];
  datagrams = [];
  takes_datagram = true;
}

abbrev idle : Dispatcher ℕ
idle = new 8

recv_msg-send_msg_example :
    (sent : After ℕ) × (send_msg (message knock) (over_tcp false) bytewise idle
      ≡ done (ok tt, sent))
    × (recv_msg (over_tcp false) (arriving (sent.bytes ++ (1 ∷ 2 ∷ [])) bytewise) idle
        ≡ done (ok (some (message knock)), record { bytes = 1 ∷ 2 ∷ []; dispatcher = idle }))
recv_msg-send_msg_example =
    recv_msg-send_msg (message knock) bytewise bytewise (1 ∷ 2 ∷ []) idle idle
      (message-IsValid knock) (omega arith) tt (omega arith) tt
