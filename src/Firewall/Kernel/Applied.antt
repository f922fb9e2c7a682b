-- ===== src/Firewall/Kernel/Applied.antt =====
-- letmeinfwd/src/firewall/nftables.rs: what a batch of the daemon does to the chain, and which
-- rules the chain is meant to have.
use letmein.Base.{
  list_has_eq, ℕ, ◌+◌, ◌≡◌, refl, ◌≢◌, Option, none, some, List, Bool, true, false, if◌then◌else◌,
  Result, ok, err, panic, ◌⊎◌, inl, inr, is_ok, length,
}
use letmein.Base.Texts.{Text}
use letmein.Conf.{Config}
use letmein.Firewall.Commands.{Rule, NfCmd, FwError, NftNames, get_names}
use letmein.Firewall.Kernel.{Nft, HaveHandles, count_rules, count_texts, comments, leased}
use letmein.Firewall.Kernel.Adding.{Adds, Adds-Addresses, Adds-Batch}
use letmein.Firewall.State.{
  NftFirewall, State, applied, apply_batch, apply_result, control_ports, count_ctrl,
}
use letmein.FwProto.Fields.{IpAddr}

module _ {K : Type 0} (list_rules : K → Option (List Rule)) (apply : K → List NfCmd → Option K)
    (show_addr : IpAddr → Text) (conf : Config) where
  -- The commands were generated and `nft` took them.
  abbrev pub Taken :
      Result FwError (List NfCmd) → State K → Result FwError (Unit {0}) × State K → Type 0
  Taken r s o =
      (cmds : List NfCmd) × (k : K) × (r ≡ ok cmds)
      × (apply s.kernel cmds ≡ some k)
      × (o ≡ (ok tt, record s { kernel = k }))

  -- It has failed, and nothing has changed.
  abbrev pub Unchanged : State K → Result FwError (Unit {0}) × State K → Type 0
  Unchanged s o = (o.1 ≡ s) × (o.0 ≢ ok tt)

  applied-cases :
      (cmds : List NfCmd) (s : State K) (o : Option K)
      → apply s.kernel cmds ≡ o
      → Unchanged s (applied list_rules apply show_addr conf o s)
        ⊎ Taken (ok cmds) s (applied list_rules apply show_addr conf o s)
  applied-cases cmds s none e = inl (refl, λ x. cc)
  applied-cases cmds s (some k) e = inr (cmds, k, refl, e, refl)

  pub apply_result-cases :
      (r : Result FwError (List NfCmd)) (s : State K)
      → Unchanged s (apply_result list_rules apply show_addr conf r s)
        ⊎ Taken r s (apply_result list_rules apply show_addr conf r s)
  unfolding apply_batch
  apply_result-cases (ok cmds) s = applied-cases cmds s (apply s.kernel cmds) refl
  apply_result-cases (err e) s = inl (refl, λ x. cc)
  apply_result-cases panic s = inl (refl, λ x. cc)

  -- How many rules with the comment the chain is meant to have
  abbrev pub wanted : NftFirewall → Text → ℕ
  wanted fw c =
      if fw.is_shut_down
      then 0
      else count_texts c (comments show_addr none (control_ports list_rules apply show_addr conf))
        + leased show_addr c fw.leases

  pub wanted-count_ctrl :
      (fw : NftFirewall) (c : Text)
      → wanted (count_ctrl list_rules apply show_addr conf fw) c ≡ wanted fw c
  wanted-count_ctrl fw c = by_case (is_ok (get_names conf))
    where
      by_case :
          (b : Bool)
          → wanted
              (if b
                then record fw {
                  num_ctrl_rules =
                      if fw.is_shut_down
                      then 0
                      else length (control_ports list_rules apply show_addr conf);
                }
                else fw)
              c
            ≡ wanted fw c
      by_case true = refl
      by_case false = refl

module _ {K : Type 0} (list_rules : K → Option (List Rule)) (apply : K → List NfCmd → Option K)
    (show_addr : IpAddr → Text) (conf : Config) (names : NftNames) (chain : K → List Rule)
    (named : get_names conf ≡ ok names) (nft : Nft list_rules apply names chain) where
  -- A batch of added rules that `nft` takes
  pub apply-Adds :
      (cmds : List NfCmd) (cs : List Text) (k k' : K)
      → Adds names cmds cs
      → apply k cmds ≡ some k'
      → HaveHandles (chain k)
      → HaveHandles (chain k')
        × ((c : Text) → count_rules c (chain k') ≡ count_rules c (chain k) + count_texts c cs)
  apply-Adds cmds cs k k' a e v =
      Adds-Batch names cmds cs (chain k) (chain k') a
        (nft.applies k k' cmds (Adds-Addresses names cmds cs a) e) v
