-- ===== src/Firewall/Leases.antt =====
-- letmeinfwd/src/firewall.rs and nftables.rs: what the lease map holds, whatever `nft` does.
use letmein.Base.{ℕ, ◌≡◌, refl, ◌≢◌, true, none, some, [], ◌∷◌, arith, if◌then◌else◌, ok}
use letmein.Base.Assoc.{lookup, insert, remove, Distinct, insert-Distinct, remove-Distinct}
use letmein.Base.Sums.{AllEntries, AllEntries-insert, AllEntries-remove}
use letmein.Conf.{Config}
use letmein.Firewall.{
  id_has_eq, LeasePort, Lease, LeaseId, LeaseMap, port_number, is_timed_out,
  prune_all_lease_timeouts, id_eq_iff,
}
use letmein.Firewall.Server.{addr_check, is_configured, check_request}
use letmein.Firewall.State.{NftFirewall}
use letmein.FwProto.Fields.{IpAddr}
use letmein.FwProto.Message.{FirewallMessage}

-- Every lease stands under its own key, is for a configured port, and is not for the control port.
abbrev pub LeaseOk : Config → LeaseId → Lease → Type 0
LeaseOk conf id lease =
    (id ≡ (lease.addr, lease.lease_port))
    × (is_configured conf (port_number lease.lease_port) ≡ true)
    × (port_number lease.lease_port ≢ conf.control_port.port)

pub record IsSound (conf : Config) (fw : NftFirewall) : Type 0 where
  pub leases_ok : AllEntries (LeaseOk conf) fw.leases
  pub leases_distinct : Distinct fw.leases

-- A port that the daemon may lease.
abbrev pub MayLease : Config → LeasePort → Type 0
MayLease conf port =
    (is_configured conf (port_number port) ≡ true) × (port_number port ≢ conf.control_port.port)

pub check_request-MayLease :
    (conf : Config) (msg : FirewallMessage) {addr : IpAddr} {port : LeasePort}
    → check_request conf msg ≡ ok (addr, port)
    → (addr_check addr ≡ true) × MayLease conf port
unfolding check_request
check_request-MayLease conf msg h = ground arith

pub insert-IsSound :
    (conf : Config) (id : LeaseId) (lease : Lease) (fw : NftFirewall)
    → LeaseOk conf id lease
    → IsSound conf fw
    → IsSound conf (record fw { leases = insert id lease fw.leases })
insert-IsSound conf id lease fw h v = record {
  leases_ok = AllEntries-insert (LeaseOk conf) id lease fw.leases h v.leases_ok;
  leases_distinct = insert-Distinct id lease fw.leases v.leases_distinct;
}

pub remove-IsSound :
    (conf : Config) (id : LeaseId) (fw : NftFirewall)
    → IsSound conf fw
    → IsSound conf (record fw { leases = remove id fw.leases })
remove-IsSound conf id fw v = record {
  leases_ok = AllEntries-remove (LeaseOk conf) id fw.leases v.leases_ok;
  leases_distinct = remove-Distinct id fw.leases v.leases_distinct;
}

-- A lease survives the pruning if and only if it has not timed out.
pub lookup-prune :
    (now : ℕ) (id : LeaseId) (leases : LeaseMap)
    → Distinct leases
    → lookup id (prune_all_lease_timeouts now leases).1 ≡ elim (lookup id leases) [
      | none ↦ none
      | some lease ↦ if is_timed_out now lease then none else some lease
    ]
unfolding lookup prune_all_lease_timeouts
lookup-prune now id [] d = refl
lookup-prune now id ((j, lease) ∷ leases) d =
    ground (arith, id_eq_iff j id, lookup-prune now id leases d.1)

pub prune-AllEntries :
    (P : LeaseId → Lease → Type 0) (now : ℕ) (leases : LeaseMap)
    → AllEntries P leases
    → AllEntries P (prune_all_lease_timeouts now leases).1
unfolding prune_all_lease_timeouts
prune-AllEntries P now [] a = tt
prune-AllEntries P now ((j, lease) ∷ leases) a = ground (arith, prune-AllEntries P now leases a.1)

pub prune-Distinct :
    (now : ℕ) (leases : LeaseMap)
    → Distinct leases
    → Distinct (prune_all_lease_timeouts now leases).1
unfolding prune_all_lease_timeouts lookup
prune-Distinct now [] d = tt
prune-Distinct now ((j, lease) ∷ leases) d =
    ground (arith, lookup-prune now j leases d.1, prune-Distinct now leases d.1)
