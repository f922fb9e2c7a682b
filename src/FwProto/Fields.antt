-- ===== src/FwProto/Fields.antt =====
-- letmein-fwproto/src/lib.rs: the enumerations of a firewall message, and addresses.
use letmein.Base.{
  ℕ, ◌≡◌, ◌↔◌, Bool, true, false, arith, nat_eq, if◌then◌else◌, length, All, HasEq, list_eq,
  list_eq_iff, Result, ok, err,
}
use letmein.Base.Bytes.{Bytes, IsByte}

-- `FirewallOperation`: `Nack`, `Ack`, `Open` and `Close`
pub data FirewallOperation : Type 0 where
  nack ack opens closes : FirewallOperation

pub data PortType : Type 0 where
  tcp udp tcp_udp : PortType

pub data AddrType : Type 0 where
  ipv6 ipv4 : AddrType

pub data Error : Type 0 where
  size_mismatch bad_operation bad_port_type bad_addr_type : Error

-- `std::net::IpAddr`, by its octets
pub data IpAddr : Type 0 where
  v4 v6 : Bytes → IpAddr

-- What the Rust type guarantees: 4 or 16 octets.
abbrev pub IsAddr : IpAddr → Type 0
IsAddr (v4 o) = (length o ≡ 4) × All IsByte o
IsAddr (v6 o) = (length o ≡ 16) × All IsByte o

abbrev pub operation_to_u16 : FirewallOperation → ℕ
operation_to_u16 nack = 0
operation_to_u16 ack = 1
operation_to_u16 opens = 2
operation_to_u16 closes = 3

unfoldable pub operation_try_from : ℕ → Result Error FirewallOperation
operation_try_from value =
    if nat_eq value (operation_to_u16 opens)
    then ok opens
    else if nat_eq value (operation_to_u16 ack)
    then ok ack
    else if nat_eq value (operation_to_u16 nack)
    then ok nack
    else if nat_eq value (operation_to_u16 closes)
    then ok closes
    else err bad_operation

abbrev pub port_type_to_u16 : PortType → ℕ
port_type_to_u16 tcp = 0
port_type_to_u16 udp = 1
port_type_to_u16 tcp_udp = 2

unfoldable pub port_type_try_from : ℕ → Result Error PortType
port_type_try_from value =
    if nat_eq value (port_type_to_u16 tcp)
    then ok tcp
    else if nat_eq value (port_type_to_u16 udp)
    then ok udp
    else if nat_eq value (port_type_to_u16 tcp_udp)
    then ok tcp_udp
    else err bad_port_type

abbrev pub addr_type_to_u16 : AddrType → ℕ
addr_type_to_u16 ipv6 = 0
addr_type_to_u16 ipv4 = 1

unfoldable pub addr_type_try_from : ℕ → Result Error AddrType
addr_type_try_from value =
    if nat_eq value (addr_type_to_u16 ipv6)
    then ok ipv6
    else if nat_eq value (addr_type_to_u16 ipv4)
    then ok ipv4
    else err bad_addr_type

pub operation_try_from-to_u16 :
    (o : FirewallOperation) → operation_try_from (operation_to_u16 o) ≡ ok o
unfolding operation_try_from
operation_try_from-to_u16 o = ground arith

pub port_type_try_from-to_u16 : (p : PortType) → port_type_try_from (port_type_to_u16 p) ≡ ok p
unfolding port_type_try_from
port_type_try_from-to_u16 p = ground arith

pub addr_type_try_from-to_u16 : (a : AddrType) → addr_type_try_from (addr_type_to_u16 a) ≡ ok a
unfolding addr_type_try_from
addr_type_try_from-to_u16 a = ground arith

-- `PartialEq for IpAddr`
unfoldable pub addr_eq : IpAddr → IpAddr → Bool
addr_eq (v4 a) (v4 b) = list_eq a b
addr_eq (v6 a) (v6 b) = list_eq a b
addr_eq _ _ = false

pub addr_eq_iff : (a b : IpAddr) → (addr_eq a b ≡ true) ↔ (a ≡ b)
unfolding addr_eq
addr_eq_iff (v4 a) (v4 b) = ground (arith, list_eq_iff a b)
addr_eq_iff (v6 a) (v6 b) = ground (arith, list_eq_iff a b)
addr_eq_iff _ _ = ground arith

instance abbrev pub addr_has_eq : HasEq IpAddr
addr_has_eq = record { same = addr_eq; same_iff = addr_eq_iff }
