-- ===== src/Socket/Net/Delivery.antt =====
-- letmein-proto/src/socket.rs and src/lib.rs: a message from one TCP socket to another.
use letmein.Base.{◌≤◌, ◌≡◌, refl, ap, ◌∙◌, false, some, ◌++◌, arith, HasEq, ok}
use letmein.Base.Bytes.{Bytes}
use letmein.Proto.Message.{Message, IsValid}
use letmein.Proto.Wire.{msg_size, msg_serialize}
use letmein.Proto.Wire.RoundTrip.{deserialize-serialize, length-msg_serialize}
use letmein.Socket.Dispatcher.{Dispatcher}
use letmein.Socket.Net.{
  over_tcp, Network, After, tcp_sent, tcp_received, read_message, send, recv, send_msg, recv_msg,
}
use letmein.Stream.{done}
use letmein.Stream.Fragments.{
  Undisturbed, reads, recv_loop-fragments, Unbroken, writes, send_loop-whole,
}

module _ {Addr : Type 0} ⦃e : HasEq Addr⦄ where
  -- The network at the receiver, when these bytes come over TCP.
  abbrev pub arriving : Bytes → Network Addr → Network Addr
  arriving bytes net = record net { incoming = bytes }

  send_msg-whole :
      (m : Message) (net : Network Addr) (d : Dispatcher Addr)
      → IsValid m
      → msg_size ≤ writes net.write_events
      → Unbroken net.write_events
      → send_msg m (over_tcp false) net d
        ≡ done (ok tt, record { bytes = msg_serialize m; dispatcher = d })
  unfolding send_msg send
  send_msg-whole m net d v enough u =
      let size = length-msg_serialize m v in
      ap (λ x. tcp_sent x d)
        ((send_loop-whole net.write_events (msg_serialize m) (omega (arith, size))).1
          (omega (arith, size, enough)) u)

  recv_msg-whole :
      (m : Message) (net : Network Addr) (later : Bytes) (d : Dispatcher Addr)
      → IsValid m
      → msg_size ≤ reads net.read_events
      → Undisturbed net.read_events
      → recv_msg (over_tcp false) (arriving (msg_serialize m ++ later) net) d
        ≡ done (ok (some m), record { bytes = later; dispatcher = d })
  unfolding recv_msg recv
  recv_msg-whole m net later d v enough u =
      ap (λ x. read_message (tcp_received x d))
        (recv_loop-fragments msg_size net.read_events (msg_serialize m) later
          (length-msg_serialize m v) (omega arith) enough u)
      ∙ rw (deserialize-serialize m v) refl

  -- A valid message over TCP is sent whole and read by the receiver as it was, with what the peer
  -- sends behind it still in the stream, however both kernels cut it up and whenever they would
  -- block, as long as neither connection fails and the kernels go on taking and giving bytes.
  pub recv_msg-send_msg :
      (m : Message) (sender receiver : Network Addr) (later : Bytes) (d d' : Dispatcher Addr)
      → IsValid m
      → msg_size ≤ writes sender.write_events
      → Unbroken sender.write_events
      → msg_size ≤ reads receiver.read_events
      → Undisturbed receiver.read_events
      → (sent : After Addr) × (send_msg m (over_tcp false) sender d ≡ done (ok tt, sent))
        × (recv_msg (over_tcp false) (arriving (sent.bytes ++ later) receiver) d'
            ≡ done (ok (some m), record { bytes = later; dispatcher = d' }))
  recv_msg-send_msg m sender receiver later d d' v writes_on unbroken reads_on undisturbed = (
    record { bytes = msg_serialize m; dispatcher = d },
    send_msg-whole m sender d v writes_on unbroken,
    recv_msg-whole m receiver later d' v reads_on undisturbed,
  )
