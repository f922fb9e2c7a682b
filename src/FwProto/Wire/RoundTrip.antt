-- ===== src/FwProto/Wire/RoundTrip.antt =====
-- letmein-fwproto/src/lib.rs: `msg_serialize` and `try_msg_deserialize` are inverse to one another.
use mathlib.Core.List.{append-nil}
use letmein.Base.{
  ◌≡◌, refl, sym, ap, ◌∙◌, [], ◌++◌, arith, length, replicate, ok, ℕ, ◌^◌, ◌<◌, some, take_all,
}
use letmein.Base.Bytes.{Bytes, write_at, u16_be, from_be-u16_be, write_at-append}
use letmein.FwProto.Fields.{
  operation_to_u16, port_type_to_u16, addr_type_to_u16, operation_try_from-to_u16,
  port_type_try_from-to_u16, addr_type_try_from-to_u16, opens, closes, PortType, IpAddr, IsAddr,
  FirewallOperation,
}
use letmein.FwProto.Message.{
  IsValid, addr_size, FirewallMessage, new_open, new_close, get_port, get_addr,
  octets_to_addr-addr_to_octets, addr_to_octets_ok,
}
use letmein.FwProto.Wire.{msg_serialize, try_msg_deserialize, fwmsg_size}

-- The five fields one after the other.
abbrev layout : FirewallMessage → Bytes
layout m =
    u16_be (operation_to_u16 m.operation)
    ++ (u16_be (port_type_to_u16 m.port_type)
        ++ (u16_be m.port ++ (u16_be (addr_type_to_u16 m.addr_type) ++ m.addr)))

msg_serialize-layout :
    (m : FirewallMessage) → length m.addr ≡ addr_size → msg_serialize m ≡ layout m
unfolding msg_serialize
msg_serialize-layout m h =
    let head =
      u16_be (operation_to_u16 m.operation)
      ++ (u16_be (port_type_to_u16 m.port_type)
          ++ (u16_be m.port ++ u16_be (addr_type_to_u16 m.addr_type))) in
    ap (λ rest. write_at (head ++ rest) 8 m.addr) (sym (append-nil (replicate 16 0)))
    ∙ write_at-append head (replicate 16 0) [] m.addr 8 refl (sym h)
    ∙ ap (λ rest. head ++ rest) (append-nil m.addr)

deserialize-layout : (m : FirewallMessage) → IsValid m → try_msg_deserialize (layout m) ≡ ok m
unfolding try_msg_deserialize
deserialize-layout m v = ground (
  arith,
  v.addr_ok,
  take_all 16 m.addr,
  from_be-u16_be m.port v.port_ok,
  from_be-u16_be (operation_to_u16 m.operation),
  from_be-u16_be (port_type_to_u16 m.port_type),
  from_be-u16_be (addr_type_to_u16 m.addr_type),
  operation_try_from-to_u16 m.operation,
  port_type_try_from-to_u16 m.port_type,
  addr_type_try_from-to_u16 m.addr_type,
)

-- Every valid firewall message is read back from its 24 bytes as it was.
pub fw_deserialize-serialize :
    (m : FirewallMessage) → IsValid m → try_msg_deserialize (msg_serialize m) ≡ ok m
fw_deserialize-serialize m v = rw (msg_serialize-layout m v.addr_ok) (deserialize-layout m v)

pub length-fw_serialize : (m : FirewallMessage) → IsValid m → length (msg_serialize m) ≡ fwmsg_size
length-fw_serialize m v = rw (msg_serialize-layout m v.addr_ok) (omega (arith, v.addr_ok))

-- The message is read back from its bytes with the operation, address, port type and port.
abbrev pub Delivered : FirewallOperation → IpAddr → PortType → ℕ → FirewallMessage → Type 0
Delivered operation a p port sent =
    (m : FirewallMessage) × (try_msg_deserialize (msg_serialize sent) ≡ ok m)
    × (m.operation ≡ operation)
    × (get_addr m ≡ some a)
    × (get_port m ≡ some (p, port))

request_ok :
    (a : IpAddr) (p : PortType) (port : ℕ)
    → IsAddr a
    → port < 2 ^ 16
    → IsValid (new_open a p port) × IsValid (new_close a p port)
unfolding new_open new_close
request_ok a p port h hp =
    let octets = addr_to_octets_ok a h in
    (
      record { port_ok = hp; addr_ok = octets.0; addr_bytes = octets.1 },
      record { port_ok = hp; addr_ok = octets.0; addr_bytes = octets.1 },
    )

-- A request to open or to close a port for an address is read by letmeinfwd from the bytes that
-- letmeind sends with the same operation, address, port type and port. An IPv4 address stays one.
pub requests-Delivered :
    (a : IpAddr) (p : PortType) (port : ℕ)
    → IsAddr a
    → port < 2 ^ 16
    → Delivered opens a p port (new_open a p port) × Delivered closes a p port (new_close a p port)
unfolding new_open new_close get_addr get_port
requests-Delivered a p port h hp =
    let valid = request_ok a p port h hp in
    let same = ap some (octets_to_addr-addr_to_octets a h) in
    (
      (new_open a p port, fw_deserialize-serialize (new_open a p port) valid.0, refl, same, refl),
      (new_close a p port, fw_deserialize-serialize (new_close a p port) valid.1, refl, same, refl),
    )
