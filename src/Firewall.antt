-- ===== src/Firewall.antt =====
-- letmeinfwd/src/firewall.rs: the leases. An instant is a number of nanoseconds; `now` is what
-- `Instant::now()` returns.
pub mod Commands
pub mod State
pub mod Server
pub mod Leases
pub mod Effects
pub mod UidGid
pub mod Accept
pub mod Daemon
pub mod Invariant
pub mod Service
pub mod Maintenance
pub mod Deletion
pub mod Acknowledged
pub mod Kernel
use letmein.Base.{
  ℕ, ◌+◌, ◌≡◌, ◌↔◌, Bool, true, false, not, ◌&&◌, List, [], ◌∷◌, arith, leb, nat_eq, if◌then◌else◌,
  HasEq, Result, ok, check, ◌>>=◌, ◌>>◌,
}
use letmein.Conf.{Config}
use letmein.FwProto.Fields.{IpAddr, addr_eq, addr_eq_iff}

pub data LeasePort : Type 0 where
  lease_tcp lease_udp lease_tcp_udp : ℕ → LeasePort

pub data SingleLeasePort : Type 0 where
  single_tcp single_udp : ℕ → SingleLeasePort

pub record Lease : Type 0 where
  pub addr : IpAddr
  pub lease_port : LeasePort
  pub timeout : ℕ

abbrev pub LeaseId : Type 0
LeaseId = IpAddr × LeasePort

abbrev pub LeaseMap : Type 0
LeaseMap = List (LeaseId × Lease)

abbrev pub port_number : LeasePort → ℕ
port_number (lease_tcp p) = p
port_number (lease_udp p) = p
port_number (lease_tcp_udp p) = p

-- `Lease::new`; the control port is never leased.
unfoldable pub new : {E : Type 0} → Config → ℕ → IpAddr → LeasePort → Result E Lease
new conf now addr port = do
  check (not (nat_eq conf.control_port.port (port_number port)))
  ok (record { addr = addr; lease_port = port; timeout = now + conf.nft_timeout })

-- `refresh_timeout`
abbrev pub refresh_timeout : Config → ℕ → Lease → Lease
refresh_timeout conf now lease = record lease { timeout = now + conf.nft_timeout }

-- `is_timed_out`
abbrev pub is_timed_out : ℕ → Lease → Bool
is_timed_out now lease = leb lease.timeout now

-- `prune_all_lease_timeouts`: the leases that are pruned, and those that are kept.
unfoldable pub prune_all_lease_timeouts : ℕ → LeaseMap → List Lease × LeaseMap
prune_all_lease_timeouts now [] = ([], [])
prune_all_lease_timeouts now ((id, lease) ∷ leases) =
    let rest = prune_all_lease_timeouts now leases in
    if is_timed_out now lease then (lease ∷ rest.0, rest.1) else (rest.0, (id, lease) ∷ rest.1)

unfoldable pub lease_port_eq : LeasePort → LeasePort → Bool
lease_port_eq (lease_tcp p) (lease_tcp q) = nat_eq p q
lease_port_eq (lease_udp p) (lease_udp q) = nat_eq p q
lease_port_eq (lease_tcp_udp p) (lease_tcp_udp q) = nat_eq p q
lease_port_eq _ _ = false

pub lease_port_eq_iff : (p q : LeasePort) → (lease_port_eq p q ≡ true) ↔ (p ≡ q)
unfolding lease_port_eq
lease_port_eq_iff p q = ground arith

-- `PartialEq for LeaseId`
unfoldable pub id_eq : LeaseId → LeaseId → Bool
id_eq (a, p) (b, q) = addr_eq a b && lease_port_eq p q

pub id_eq_iff : (i j : LeaseId) → (id_eq i j ≡ true) ↔ (i ≡ j)
unfolding id_eq
id_eq_iff (a, p) (b, q) = ground (arith, addr_eq_iff a b, lease_port_eq_iff p q)

instance abbrev pub id_has_eq : HasEq LeaseId
id_has_eq = record { same = id_eq; same_iff = id_eq_iff }
