-- ===== src/Socket/Net.antt =====
-- letmein-proto/src/socket.rs: `NetSocket` over TCP or over the UDP dispatcher, and the loop of
-- `UdpDispatcher::recv_from`; with `Message::send` and `Message::recv` of letmein-proto/src/lib.rs.
pub mod Delivery
use letmein.Base.{
  Bool, true, false, Option, none, some, List, [], ◌∷◌, ℕ, if◌then◌else◌, HasEq, Result, ok, err,
  panic,
}
use letmein.Base.Bytes.{Bytes}
use letmein.Proto.Message.{Message}
use letmein.Proto.Wire.{msg_size, msg_serialize, try_msg_deserialize}
use letmein.Socket.Dispatcher.{Error, Dispatcher, SocketRead, Outcome, try_recv_from, disconnect}
use letmein.Stream.{
  IoError, ReadEvent, WriteEvent, Progress, done, waiting, RecvResult, recv_loop, SendResult,
  send_loop,
}

pub data NetError : Type 0 where
  socket_closed udp_send_failed bad_message : NetError
  in_stream : IoError → NetError
  in_dispatcher : Error → NetError

-- `NetSocketTcp`, `NetSocketUdp`, with their closed-flags
pub data NetSocket (Addr : Type 0) : Type 0 where
  over_tcp : (closed : Bool) → NetSocket Addr
  over_udp : (peer_addr : Addr) (closed : Bool) → NetSocket Addr

-- `UDP_RX_QUEUE_SIZE`
abbrev pub udp_rx_queue_size : ℕ
udp_rx_queue_size = 4

-- What the kernel does for a socket: the rounds of the loops with the bytes that have come over TCP,
-- the reads of the UDP socket, and whether it takes a datagram.
pub record Network (Addr : Type 0) : Type 0 where
  pub read_events : List ReadEvent
  pub write_events : List WriteEvent
  pub incoming : Bytes
  pub datagrams : List (SocketRead Addr)
  pub takes_datagram : Bool

-- What a call leaves: the bytes that are left in the TCP stream, or that were sent, and the dispatcher.
pub record After (Addr : Type 0) : Type 0 where
  pub bytes : Bytes
  pub dispatcher : Dispatcher Addr

abbrev pub Call : Type 0 → Type 0 → Type 0
Call Addr A = Progress (Result NetError A × After Addr)

module _ {Addr : Type 0} ⦃e : HasEq Addr⦄ where
  -- `is_closed`
  unfoldable pub is_closed : NetSocket Addr → Bool
  is_closed (over_tcp closed) = closed
  is_closed (over_udp peer closed) = closed

  -- One round: a datagram, an error, or another round.
  abbrev pub received : Outcome Addr (Option Bytes) → Call Addr Bytes → Call Addr Bytes
  received (ok (some buf), d) more = done (ok buf, record { bytes = []; dispatcher = d })
  received (ok none, d) more = more
  received (err x, d) more = done (err (in_dispatcher x), record { bytes = []; dispatcher = d })
  received (panic, d) more = done (panic, record { bytes = []; dispatcher = d })

  -- `UdpDispatcher::recv_from`
  unfoldable pub recv_from : List (SocketRead Addr) → Addr → Dispatcher Addr → Call Addr Bytes
  unfolding try_recv_from
  recv_from [] peer d = waiting
  recv_from (read ∷ reads) peer d =
      let o = try_recv_from msg_size udp_rx_queue_size d read peer in
      let more = recv_from reads peer o.1 in received o more

  -- `UdpDispatcher::send_to`
  abbrev pub send_to : Bool → Bytes → Dispatcher Addr → Call Addr (Unit {0})
  send_to true buf d = done (ok tt, record { bytes = buf; dispatcher = d })
  send_to false buf d = done (err udp_send_failed, record { bytes = []; dispatcher = d })

  abbrev pub tcp_sent : Progress SendResult → Dispatcher Addr → Call Addr (Unit {0})
  tcp_sent waiting d = waiting
  tcp_sent (done (ok _, sent)) d = done (ok tt, record { bytes = sent; dispatcher = d })
  tcp_sent (done (err x, sent)) d =
      done (err (in_stream x), record { bytes = sent; dispatcher = d })
  tcp_sent (done (panic, sent)) d = done (panic, record { bytes = sent; dispatcher = d })

  abbrev pub closed_error : {A : Type 0} → Dispatcher Addr → Call Addr A
  closed_error d = done (err socket_closed, record { bytes = []; dispatcher = d })

  -- `NetSocket::send`
  unfoldable pub send :
      NetSocket Addr → Bytes → Network Addr → Dispatcher Addr → Call Addr (Unit {0})
  unfolding send_loop
  send (over_tcp closed) buf net d =
      if closed then closed_error d else tcp_sent (send_loop net.write_events buf []) d
  send (over_udp peer closed) buf net d =
      if closed then closed_error d else send_to net.takes_datagram buf d

  abbrev pub tcp_received : Progress RecvResult → Dispatcher Addr → Call Addr (Option Bytes)
  tcp_received waiting d = waiting
  tcp_received (done (ok o, left)) d = done (ok o, record { bytes = left; dispatcher = d })
  tcp_received (done (err x, left)) d =
      done (err (in_stream x), record { bytes = left; dispatcher = d })
  tcp_received (done (panic, left)) d = done (panic, record { bytes = left; dispatcher = d })

  abbrev pub udp_received : Call Addr Bytes → Call Addr (Option Bytes)
  udp_received waiting = waiting
  udp_received (done (ok buf, a)) = done (ok (some buf), a)
  udp_received (done (err x, a)) = done (err x, a)
  udp_received (done (panic, a)) = done (panic, a)

  -- `NetSocket::recv`
  unfoldable pub recv : NetSocket Addr → Network Addr → Dispatcher Addr → Call Addr (Option Bytes)
  unfolding recv_loop recv_from
  recv (over_tcp closed) net d =
      if closed
      then closed_error d
      else tcp_received (recv_loop msg_size net.read_events net.incoming []) d
  recv (over_udp peer closed) net d =
      if closed then closed_error d else udp_received (recv_from net.datagrams peer d)

  -- `NetSocket::close`: the dispatcher is told once.
  unfoldable pub close :
      NetSocket Addr → Dispatcher Addr → Result Error (Unit {0}) × NetSocket Addr × Dispatcher Addr
  unfolding disconnect
  close (over_tcp closed) d = (ok tt, over_tcp true, d)
  close (over_udp peer true) d = (ok tt, over_udp peer true, d)
  close (over_udp peer false) d =
      let o = disconnect msg_size udp_rx_queue_size d peer in (o.0, over_udp peer true, o.1)

  -- `Message::send`
  unfoldable pub send_msg :
      Message → NetSocket Addr → Network Addr → Dispatcher Addr → Call Addr (Unit {0})
  unfolding send msg_serialize
  send_msg m socket net d = send socket (msg_serialize m) net d

  abbrev pub read_message : Call Addr (Option Bytes) → Call Addr (Option Message)
  read_message waiting = waiting
  read_message (done (ok none, a)) = done (ok none, a)
  read_message (done (ok (some buf), a)) = done (
    elim (try_msg_deserialize buf) [ ok m ↦ ok (some m) | err x ↦ err bad_message | panic ↦ panic ],
    a,
  )
  read_message (done (err x, a)) = done (err x, a)
  read_message (done (panic, a)) = done (panic, a)

  -- `Message::recv`
  unfoldable pub recv_msg :
      NetSocket Addr → Network Addr → Dispatcher Addr → Call Addr (Option Message)
  unfolding recv try_msg_deserialize
  recv_msg socket net d = read_message (recv socket net d)
