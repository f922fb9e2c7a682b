-- ===== src/FwProto/Message.antt =====
-- letmein-fwproto/src/lib.rs: `FirewallMessage`, its constructors and its accessors.
use letmein.Base.{
  ℕ, ◌^◌, ◌<◌, ◌≡◌, refl, ap, Bool, true, false, Option, none, some, ◌++◌, arith, if◌then◌else◌,
  length, replicate, All, take_all,
}
use letmein.Base.Bytes.{Bytes, IsByte, slice}
use letmein.FwProto.Fields.{
  FirewallOperation, nack, ack, opens, closes, PortType, tcp, AddrType, ipv6, ipv4, IpAddr, v4, v6,
  IsAddr,
}

abbrev pub addr_size : ℕ
addr_size = 16

pub record FirewallMessage : Type 0 where
  pub operation : FirewallOperation
  pub port_type : PortType
  pub port : ℕ
  pub addr_type : AddrType
  pub addr : Bytes

-- What the Rust types guarantee.
pub record IsValid (m : FirewallMessage) : Type 0 where
  pub port_ok : m.port < 2 ^ 16
  pub addr_ok : length m.addr ≡ addr_size
  pub addr_bytes : All IsByte m.addr

-- `addr_to_octets`
unfoldable pub addr_to_octets : IpAddr → AddrType × Bytes
addr_to_octets (v4 o) = (ipv4, replicate 12 0 ++ o)
addr_to_octets (v6 o) = (ipv6, o)

-- `octets_to_addr`: the last four octets are those of an IPv4 address.
unfoldable pub octets_to_addr : AddrType → Bytes → IpAddr
octets_to_addr ipv4 addr = v4 (slice addr 12 4)
octets_to_addr ipv6 addr = v6 addr

unfoldable pub new_open : IpAddr → PortType → ℕ → FirewallMessage
new_open addr port_type port =
    let (addr_type, octets) = addr_to_octets addr in
    record {
      operation = opens;
      port_type = port_type;
      port = port;
      addr_type = addr_type;
      addr = octets;
    }

unfoldable pub new_close : IpAddr → PortType → ℕ → FirewallMessage
new_close addr port_type port =
    let (addr_type, octets) = addr_to_octets addr in
    record {
      operation = closes;
      port_type = port_type;
      port = port;
      addr_type = addr_type;
      addr = octets;
    }

-- `Default::default()` with an operation
abbrev default : FirewallOperation → FirewallMessage
default operation = record {
  operation = operation;
  port_type = tcp;
  port = 0;
  addr_type = ipv6;
  addr = replicate addr_size 0;
}

unfoldable pub new_ack : FirewallMessage
new_ack = default ack

unfoldable pub new_nack : FirewallMessage
new_nack = default nack

-- An Open or a Close message carries a port and an address.
abbrev carries_port : FirewallOperation → Bool
carries_port opens = true
carries_port closes = true
carries_port ack = false
carries_port nack = false

-- `FirewallMessage::port`
unfoldable pub get_port : FirewallMessage → Option (PortType × ℕ)
get_port m = if carries_port m.operation then some (m.port_type, m.port) else none

-- `FirewallMessage::addr`
unfoldable pub get_addr : FirewallMessage → Option IpAddr
get_addr m = if carries_port m.operation then some (octets_to_addr m.addr_type m.addr) else none

pub octets_to_addr-addr_to_octets :
    (a : IpAddr) → IsAddr a → octets_to_addr (addr_to_octets a).0 (addr_to_octets a).1 ≡ a
unfolding addr_to_octets octets_to_addr
octets_to_addr-addr_to_octets (v4 o) h = ap v4 (take_all 4 o (omega (arith, h.0)))
octets_to_addr-addr_to_octets (v6 o) h = refl

pub addr_to_octets_ok :
    (a : IpAddr)
    → IsAddr a
    → (length (addr_to_octets a).1 ≡ addr_size) × All IsByte (addr_to_octets a).1
unfolding addr_to_octets
addr_to_octets_ok (v4 o) h = (omega (arith, h.0), ground (arith, h.1))
addr_to_octets_ok (v6 o) h = h
