-- ===== src/FwProto/Wire.antt =====
-- letmein-fwproto/src/lib.rs: a firewall message as 24 bytes.
pub mod RoundTrip
use letmein.Base.{ℕ, ◌+◌, nat_eq, length, replicate, Result, ok, ◌>>=◌, ◌>>◌, guard}
use letmein.Base.Bytes.{Bytes, write_at, slice, u16_be, from_be}
use letmein.FwProto.Fields.{
  Error, operation_to_u16, operation_try_from, port_type_to_u16, port_type_try_from,
  addr_type_to_u16, addr_type_try_from, size_mismatch,
}
use letmein.FwProto.Message.{addr_size, FirewallMessage}

-- `FWMSG_SIZE`
abbrev pub fwmsg_size : ℕ
fwmsg_size = 2 + 2 + 2 + 2 + addr_size

abbrev offs_operation : ℕ
offs_operation = 0

abbrev offs_port_type : ℕ
offs_port_type = 2

abbrev offs_port : ℕ
offs_port = 4

abbrev offs_addr_type : ℕ
offs_addr_type = 6

abbrev offs_addr : ℕ
offs_addr = 8

abbrev serialize_u16 : Bytes → ℕ → ℕ → Bytes
serialize_u16 buf offs value = write_at buf offs (u16_be value)

abbrev deserialize_u16 : Bytes → ℕ → ℕ
deserialize_u16 buf offs = from_be (slice buf offs 2) 0

unfoldable pub msg_serialize : FirewallMessage → Bytes
msg_serialize m =
    let buf0 = replicate fwmsg_size 0 in
    let buf1 = serialize_u16 buf0 offs_operation (operation_to_u16 m.operation) in
    let buf2 = serialize_u16 buf1 offs_port_type (port_type_to_u16 m.port_type) in
    let buf3 = serialize_u16 buf2 offs_port m.port in
    let buf4 = serialize_u16 buf3 offs_addr_type (addr_type_to_u16 m.addr_type) in
    write_at buf4 offs_addr m.addr

unfoldable pub try_msg_deserialize : Bytes → Result Error FirewallMessage
try_msg_deserialize buf = do
  guard (nat_eq (length buf) fwmsg_size) size_mismatch
  let operation = deserialize_u16 buf offs_operation
  let port_type = deserialize_u16 buf offs_port_type
  let port = deserialize_u16 buf offs_port
  let addr_type = deserialize_u16 buf offs_addr_type
  let addr = slice buf offs_addr addr_size
  operation' ← operation_try_from operation
  port_type' ← port_type_try_from port_type
  addr_type' ← addr_type_try_from addr_type
  ok (record {
    operation = operation';
    port_type = port_type';
    port = port;
    addr_type = addr_type';
    addr = addr;
  })
