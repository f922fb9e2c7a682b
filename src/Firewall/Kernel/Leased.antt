-- ===== src/Firewall/Kernel/Leased.antt =====
-- letmeinfwd/src/firewall/nftables.rs: the operations of `NftFirewall` against the kernel.
use letmein.Base.{list_has_eq, ℕ, ◌≡◌, refl, Option, List, [], true, false, Bool, Result, ok, panic}
use letmein.Base.Assoc.{lookup}
use letmein.Base.Texts.{Text}
use letmein.Conf.{Config}
use letmein.Firewall.{id_has_eq, LeasePort}
use letmein.Firewall.Commands.{Rule, NfCmd, FwError, NftNames, get_names}
use letmein.Firewall.Kernel.{Nft}
use letmein.Firewall.Leases.{MayLease}
use letmein.Firewall.State.{
  open_port, close_port, shutdown, new_firewall, State, full_rebuild, maintain,
}
use letmein.FwProto.Fields.{IpAddr}
use letmein.Firewall.Kernel.Stray.{NoStray}
use letmein.Firewall.Kernel.Keeping.{
  Kept, if_Kept, open_found-Kept, close_found-Kept, maintain-Kept, rebuild-Kept,
}

-- The operations of the firewall
pub data FirewallCall : Type 0 where
  opens_port closes_port : IpAddr → LeasePort → FirewallCall
  maintains rebuilds shuts_down : FirewallCall

-- A port that is opened or closed is one that the daemon may lease.
abbrev pub MayCall : Config → FirewallCall → Type 0
MayCall conf (opens_port addr port) = MayLease conf port
MayCall conf (closes_port addr port) = MayLease conf port
MayCall conf _ = Unit {0}

-- Opening is safe also when it fails; the others are where they succeed.
abbrev pub Settles : FirewallCall → Result FwError (Unit {0}) → Type 0
Settles (opens_port addr port) r = Unit {0}
Settles _ r = r ≡ ok tt

module _ {K : Type 0} (list_rules : K → Option (List Rule)) (apply : K → List NfCmd → Option K)
    (show_addr : IpAddr → Text) (conf : Config) where
  abbrev pub call_firewall : ℕ → FirewallCall → State K → Result FwError (Unit {0}) × State K
  call_firewall now (opens_port addr port) s =
      open_port list_rules apply show_addr conf now addr port s
  call_firewall now (closes_port addr port) s =
      close_port list_rules apply show_addr conf now addr port s
  call_firewall now maintains s = maintain list_rules apply show_addr conf now s
  call_firewall now rebuilds s = full_rebuild list_rules apply show_addr conf s
  call_firewall now shuts_down s = shutdown list_rules apply show_addr conf s

module _ {K : Type 0} (list_rules : K → Option (List Rule)) (apply : K → List NfCmd → Option K)
    (show_addr : IpAddr → Text) (conf : Config) (names : NftNames) (chain : K → List Rule)
    (named : get_names conf ≡ ok names) (nft : Nft list_rules apply names chain)
    (strict : conf.debug ≡ false) where
  -- A new firewall, when it starts, has cleared the chain of all but the rules of the control port.
  pub new_firewall-NoStray :
      (nft_runs : Bool) (k : K)
      → (new_firewall list_rules apply show_addr conf nft_runs k).0 ≡ ok tt
      → Kept list_rules apply show_addr conf names chain named nft strict
          (new_firewall list_rules apply show_addr conf nft_runs k).1
  unfolding new_firewall
  new_firewall-NoStray true k e =
      rebuild-Kept list_rules apply show_addr conf names chain named nft strict
        (record {
          fw = record { leases = []; is_shut_down = false; num_ctrl_rules = 0 };
          kernel = k;
        })
        e
  new_firewall-NoStray false k e = cc

  -- Outside the debug mode each operation of a running firewall keeps the kernel's chain a refinement
  -- of the leases: it never has more rules with a comment than the control port and the leases ask
  -- for. Opening keeps this on every branch, closing, the maintenance, a full rebuild and the shutdown
  -- where they succeed. The names of the configuration are good, and `nft` behaves as documented.
  pub call_firewall-NoStray :
      (now : ℕ) (call : FirewallCall) (s : State K)
      → s.fw.is_shut_down ≡ false
      → MayCall conf call
      → NoStray list_rules apply show_addr conf names chain named nft strict s
      → Settles call (call_firewall list_rules apply show_addr conf now call s).0
      → NoStray list_rules apply show_addr conf names chain named nft strict
          (call_firewall list_rules apply show_addr conf now call s).1
  unfolding open_port close_port shutdown
  call_firewall-NoStray now (opens_port addr port) s running may v e =
      (if_Kept list_rules apply show_addr conf names chain named nft strict s.fw.is_shut_down
          (panic, s) _ running).1
        (open_found-Kept list_rules apply show_addr conf names chain named nft strict now addr port
          (lookup (addr, port) s.fw.leases) s may refl running v)
  call_firewall-NoStray now (closes_port addr port) s running may v e =
      let kept =
        if_Kept list_rules apply show_addr conf names chain named nft strict s.fw.is_shut_down
          (panic, s) _ running in
      kept.1 (
        close_found-Kept list_rules apply show_addr conf names chain named nft strict now addr port
          (lookup (addr, port) s.fw.leases) s may refl running v (kept.0 e))
  call_firewall-NoStray now maintains s running may v e =
      maintain-Kept list_rules apply show_addr conf names chain named nft strict now s running v e
  call_firewall-NoStray now rebuilds s running may v e =
      rebuild-Kept list_rules apply show_addr conf names chain named nft strict s e
  call_firewall-NoStray now shuts_down s running may v e =
      let kept =
        if_Kept list_rules apply show_addr conf names chain named nft strict s.fw.is_shut_down
          (panic, s) _ running in
      kept.1 (
        rebuild-Kept list_rules apply show_addr conf names chain named nft strict
          (record s { fw = record s.fw { leases = []; is_shut_down = true } }) (kept.0 e))
