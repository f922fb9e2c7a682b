-- ===== src/Firewall/Maintenance.antt =====
-- letmeinfwd/src/firewall/nftables.rs: the periodic maintenance, whatever `nft` answers.
use letmein.Base.{
  ℕ, ◌≡◌, refl, sym, ap, ◌∙◌, subst, Bool, true, false, Option, none, some, List, if◌then◌else◌,
  Result, ok, err, panic,
}
use letmein.Base.Assoc.{lookup, Distinct}
use letmein.Base.Sums.{AllEntries}
use letmein.Base.Texts.{Text}
use letmein.Conf.{Config}
use letmein.Firewall.{id_has_eq, LeaseId, is_timed_out, prune_all_lease_timeouts}
use letmein.Firewall.Commands.{Rule, NfCmd, FwError}
use letmein.Firewall.Effects.{SameFw, remove_leases-SameFw, full_rebuild-SameFw}
use letmein.Firewall.Invariant.{Running, StillRunning}
use letmein.Firewall.Leases.{LeaseOk, lookup-prune, prune-AllEntries, prune-Distinct}
use letmein.Firewall.State.{NftFirewall, State, full_rebuild, rebuild_on_error, maintain}
use letmein.FwProto.Fields.{IpAddr}

module _ {K : Type 0} (list_rules : K → Option (List Rule)) (apply : K → List NfCmd → Option K)
    (show_addr : IpAddr → Text) (conf : Config) (now : ℕ) where
  rebuild_on_error-SameFw :
      (fw : NftFirewall) (o : Result FwError (Unit {0}) × State K)
      → SameFw list_rules apply show_addr conf fw o
      → SameFw list_rules apply show_addr conf fw
          (rebuild_on_error list_rules apply show_addr conf o)
  unfolding full_rebuild
  rebuild_on_error-SameFw fw (ok u, s) h = (h.0, h.1, λ x. cc)
  rebuild_on_error-SameFw fw (err e, s) h =
      let r = full_rebuild-SameFw list_rules apply show_addr conf s in (r.0 ∙ h.0, r.1 ∙ h.1, r.2)
  rebuild_on_error-SameFw fw (panic, s) h = absurd (h.2 refl)

  if_same :
      (b : Bool) (fw : NftFirewall) (x y : Result FwError (Unit {0}) × State K)
      → b ≡ false
      → SameFw list_rules apply show_addr conf fw y
      → SameFw list_rules apply show_addr conf fw (if b then x else y)
  if_same true fw x y h v = cc
  if_same false fw x y h v = v

  -- The firewall without the leases that have timed out.
  abbrev pruned_fw : State K → NftFirewall
  pruned_fw s = record s.fw { leases = (prune_all_lease_timeouts now s.fw.leases).1 }

  maintain-SameFw :
      (s : State K)
      → s.fw.is_shut_down ≡ false
      → SameFw list_rules apply show_addr conf
          (pruned_fw s)
          (maintain list_rules apply show_addr conf now s)
  unfolding maintain
  maintain-SameFw s h = if_same s.fw.is_shut_down (pruned_fw s) _ _ h (
      rebuild_on_error-SameFw (pruned_fw s) _ (
        remove_leases-SameFw list_rules apply show_addr conf
          (prune_all_lease_timeouts now s.fw.leases).0 (record s { fw = pruned_fw s })))

  -- The periodic maintenance of a running daemon does not panic, keeps the leases sound and drops
  -- exactly those that have timed out, also when `nft` fails; the others keep their timeouts.
  pub maintain_leases :
      (s : State K)
      → Running list_rules apply show_addr conf s.fw
      → (StillRunning list_rules apply show_addr conf
          (maintain list_rules apply show_addr conf now s))
        × ((id : LeaseId)
            → lookup id (maintain list_rules apply show_addr conf now s).1.fw.leases
              ≡ elim (lookup id s.fw.leases) [
                | none ↦ none
                | some lease ↦ if is_timed_out now lease then none else some lease
              ])
  maintain_leases s v =
      let same = maintain-SameFw s v.1 in
      let leases = s.fw.leases in
      (
        (
          (
            record {
              leases_ok =
                  subst (AllEntries (LeaseOk conf)) (sym same.0)
                    (prune-AllEntries (LeaseOk conf) now leases v.0.leases_ok);
              leases_distinct =
                  subst Distinct (sym same.0) (prune-Distinct now leases v.0.leases_distinct);
            },
            same.1 ∙ v.1,
          ),
          same.2,
        ),
        λ id. ap (lookup id) same.0 ∙ lookup-prune now id leases v.0.leases_distinct,
      )
