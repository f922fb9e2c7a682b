-- ===== src/Firewall/Kernel/Keeping.antt =====
-- letmeinfwd/src/firewall/nftables.rs: the parts of the operations that keep the rules in the kernel
-- asked for.
use letmein.Base.{
  list_has_eq, ℕ, ◌+◌, ◌≡◌, refl, ap, Option, none, some, List, [], ◌∷◌, arith, true, false, Bool,
  Result, ok, err, panic, if◌then◌else◌,
}
use letmein.Base.Assoc.{lookup, remove}
use letmein.Base.Sums.{weight, total-remove}
use letmein.Base.Texts.{Text}
use letmein.Conf.{Config}
use letmein.Firewall.{id_has_eq, new, LeasePort, Lease, LeaseMap, prune_all_lease_timeouts}
use letmein.Firewall.Commands.{Rule, NfCmd, FwError, NftNames, get_names}
use letmein.Firewall.Invariant.{new_lease}
use letmein.Firewall.Kernel.{Nft, count_texts, lease_comments, leased}
use letmein.Firewall.Kernel.Adding.{count_texts-append}
use letmein.Firewall.Kernel.Rebuilt.{full_rebuild-Exact}
use letmein.Firewall.Kernel.Removing.{list_comments, remove_leases-Removed}
use letmein.Firewall.Leases.{MayLease}
use letmein.Firewall.State.{
  NftFirewall, State, full_rebuild, remove_leases, rebuild_on_error, maintain, open_found,
  close_found, remove_one,
}
use letmein.FwProto.Fields.{IpAddr}
use letmein.Firewall.Kernel.Stray.{
  wanted-running, NoStray, Exact-NoStray, Removed-NoStray, one_lease, lease_weight,
  add_lease-NoStray, refresh-NoStray,
}

module _ {K : Type 0} (list_rules : K → Option (List Rule)) (apply : K → List NfCmd → Option K)
    (show_addr : IpAddr → Text) (conf : Config) (names : NftNames) (chain : K → List Rule)
    (named : get_names conf ≡ ok names) (nft : Nft list_rules apply names chain)
    (strict : conf.debug ≡ false) where
  abbrev pub Kept : State K → Type 0
  Kept = NoStray list_rules apply show_addr conf names chain named nft strict

  pub if_Kept :
      (b : Bool) (x y : Result FwError (Unit {0}) × State K)
      → b ≡ false
      → ((if b then x else y).0 ≡ ok tt → y.0 ≡ ok tt) × (Kept y.1 → Kept (if b then x else y).1)
  if_Kept true x y h = cc
  if_Kept false x y h = ((λ e. e), λ v. v)

  pub open_found-Kept :
      (now : ℕ) (addr : IpAddr) (port : LeasePort) (o : Option Lease) (s : State K)
      → MayLease conf port
      → lookup (addr, port) s.fw.leases ≡ o
      → s.fw.is_shut_down ≡ false
      → Kept s
      → Kept (open_found list_rules apply show_addr conf now (addr, port) o s).1
  open_found-Kept now addr port (some lease) s may q running v =
      refresh-NoStray list_rules apply show_addr conf names chain named nft strict now (addr, port)
        lease s running q v
  open_found-Kept now addr port none s may q running v =
      rw (new_lease list_rules apply show_addr conf now addr port may) (
        add_lease-NoStray list_rules apply show_addr conf names chain named nft strict (addr, port)
          (record { addr = addr; lease_port = port; timeout = now + conf.nft_timeout }) s running q
          v)

  -- With no lease in memory rules may be removed, and none is added.
  remove_one-Kept :
      (r : Result FwError Lease) (s : State K)
      → Kept s
      → (remove_one list_rules apply show_addr conf r s).0 ≡ ok tt
      → Kept (remove_one list_rules apply show_addr conf r s).1
  remove_one-Kept (err x) s v e = cc
  remove_one-Kept panic s v e = cc
  remove_one-Kept (ok lease) s v e =
      Removed-NoStray list_rules apply show_addr conf names chain named nft strict (lease ∷ []) s.fw
        s (remove_leases list_rules apply show_addr conf (lease ∷ []) s).1 v (λ c. omega arith)
        (remove_leases-Removed list_rules apply show_addr conf names chain named nft strict
          (lease ∷ []) s e v.0)

  pub close_found-Kept :
      (now : ℕ) (addr : IpAddr) (port : LeasePort) (o : Option Lease) (s : State K)
      → MayLease conf port
      → lookup (addr, port) s.fw.leases ≡ o
      → s.fw.is_shut_down ≡ false
      → Kept s
      → (close_found list_rules apply show_addr conf now (addr, port) o s).0 ≡ ok tt
      → Kept (close_found list_rules apply show_addr conf now (addr, port) o s).1
  close_found-Kept now addr port (some lease) s may q running v e =
      let fw' : NftFirewall = record s.fw { leases = remove (addr, port) s.fw.leases } in
      let s' : State K = record s { fw = fw' } in
      Removed-NoStray list_rules apply show_addr conf names chain named nft strict (lease ∷ []) s.fw
        s' (remove_leases list_rules apply show_addr conf (lease ∷ []) s').1 v
        (λ c. omega (
          arith,
          wanted-running list_rules apply show_addr conf s.fw c running,
          wanted-running list_rules apply show_addr conf fw' c running,
          total-remove (lease_weight list_rules apply show_addr conf names chain named nft strict c)
              (addr, port) s.fw.leases,
          ap (weight (lease_weight list_rules apply show_addr conf names chain named nft strict c))
              q,
          one_lease list_rules apply show_addr conf names chain named nft strict c lease,
        ))
        (remove_leases-Removed list_rules apply show_addr conf names chain named nft strict
          (lease ∷ []) s' e v.0)
  close_found-Kept now addr port none s may q running v e =
      remove_one-Kept (new conf now addr port) s v e

  prune-leased :
      (now : ℕ) (c : Text) (leases : LeaseMap)
      → leased show_addr c leases
        ≡ leased show_addr c (prune_all_lease_timeouts now leases).1
          + count_texts c (list_comments show_addr (prune_all_lease_timeouts now leases).0)
  unfolding prune_all_lease_timeouts count_texts
  prune-leased now c [] = refl
  prune-leased now c ((id, lease) ∷ leases) = ground (
    arith,
    prune-leased now c leases,
    count_texts-append c (lease_comments show_addr lease)
        (list_comments show_addr (prune_all_lease_timeouts now leases).0),
  )

  pub rebuild-Kept :
      (s : State K)
      → (full_rebuild list_rules apply show_addr conf s).0 ≡ ok tt
      → Kept (full_rebuild list_rules apply show_addr conf s).1
  rebuild-Kept s e =
      Exact-NoStray list_rules apply show_addr conf names chain named nft strict
        (full_rebuild list_rules apply show_addr conf s).1
        (full_rebuild-Exact list_rules apply show_addr conf names chain named nft s e)

  rebuild_on_error-Kept :
      (o : Result FwError (Unit {0}) × State K)
      → (o.0 ≡ ok tt → Kept o.1)
      → (rebuild_on_error list_rules apply show_addr conf o).0 ≡ ok tt
      → Kept (rebuild_on_error list_rules apply show_addr conf o).1
  unfolding full_rebuild
  rebuild_on_error-Kept (ok u, s) k e = k refl
  rebuild_on_error-Kept (err x, s) k e = rebuild-Kept s e
  rebuild_on_error-Kept (panic, s) k e = cc

  pub maintain-Kept :
      (now : ℕ) (s : State K)
      → s.fw.is_shut_down ≡ false
      → Kept s
      → (maintain list_rules apply show_addr conf now s).0 ≡ ok tt
      → Kept (maintain list_rules apply show_addr conf now s).1
  unfolding maintain
  maintain-Kept now s running v e =
      let pruned = prune_all_lease_timeouts now s.fw.leases in
      let fw' : NftFirewall = record s.fw { leases = pruned.1 } in
      let s' : State K = record s { fw = fw' } in
      let kept = if_Kept s.fw.is_shut_down (panic, s) _ running in
      kept.1 (
        rebuild_on_error-Kept (remove_leases list_rules apply show_addr conf pruned.0 s')
          (λ removed.
            Removed-NoStray list_rules apply show_addr conf names chain named nft strict pruned.0
              s.fw s' (remove_leases list_rules apply show_addr conf pruned.0 s').1 v
              (λ c. omega (
                arith,
                wanted-running list_rules apply show_addr conf s.fw c running,
                wanted-running list_rules apply show_addr conf fw' c running,
                prune-leased now c s.fw.leases,
              ))
              (remove_leases-Removed list_rules apply show_addr conf names chain named nft strict
                pruned.0 s' removed v.0))
          (kept.0 e))
