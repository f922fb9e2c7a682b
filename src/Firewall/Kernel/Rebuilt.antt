-- ===== src/Firewall/Kernel/Rebuilt.antt =====
-- letmeinfwd/src/firewall/nftables.rs: what a full rebuild does to the chain.
use native.Mathlib.Nat.{zero-add}
use letmein.Base.{
  list_has_eq, ◌+◌, ◌≡◌, refl, sym, subst, ap, ◌∙◌, Option, none, some, List, [], ◌∷◌, ◌++◌, arith,
  Bool, true, false, if◌then◌else◌, Result, ok, bind-eq-ok, ok_inj, ◌⊎◌, inl, inr,
}
use letmein.Base.Texts.{Text}
use letmein.Conf.{Config}
use letmein.Firewall.{LeaseMap}
use letmein.Firewall.Commands.{Rule, NfCmd, flush_chain, FwError, NftNames, get_names, gen_each}
use letmein.Firewall.Kernel.{
  Batch, Nft, HaveHandles, count_rules, count_texts, comments, lease_comments, leased,
}
use letmein.Firewall.Kernel.Adding.{
  count_texts-append, Adds, Adds-append, Adds-Addresses, Adds-Batch,
}
use letmein.Firewall.Kernel.Generated.{gen_each-Adds, all_comments, all_lease_cmds-Adds}
use letmein.Firewall.State.{
  NftFirewall, State, control_ports, all_lease_cmds, rebuild_cmds, count_ctrl, full_rebuild,
}
use letmein.FwProto.Fields.{IpAddr}
use letmein.Firewall.Kernel.Applied.{
  Taken, Unchanged, apply_result-cases, wanted, wanted-count_ctrl,
}

module _ {K : Type 0} (list_rules : K → Option (List Rule)) (apply : K → List NfCmd → Option K)
    (show_addr : IpAddr → Text) (conf : Config) (names : NftNames) (chain : K → List Rule)
    (named : get_names conf ≡ ok names) (nft : Nft list_rules apply names chain) where
  if_Adds :
      (b : Bool) (r : Result FwError (List NfCmd)) (cs : List Text)
      → ((cmds : List NfCmd) → r ≡ ok cmds → Adds names cmds cs)
      → (cmds : List NfCmd) → (if b then ok [] else r) ≡ ok cmds
      → Adds names cmds (if b then [] else cs)
  if_Adds true r cs k cmds e = subst (λ x. Adds names x []) (ok_inj e) tt
  if_Adds false r cs k cmds e = k cmds e

  leased-all_comments :
      (c : Text) (leases : LeaseMap)
      → count_texts c (all_comments show_addr conf names named leases) ≡ leased show_addr c leases
  unfolding count_texts
  leased-all_comments c [] = refl
  leased-all_comments c ((id, lease) ∷ leases) = omega (
    arith,
    count_texts-append c (lease_comments show_addr lease)
        (all_comments show_addr conf names named leases),
    leased-all_comments c leases,
  )

  abbrev controls : List Text
  controls = comments show_addr none (control_ports list_rules apply show_addr conf)

  -- The comments that a rebuild of this firewall writes
  abbrev rebuilt : NftFirewall → List Text
  rebuilt fw =
      (if fw.is_shut_down then [] else controls)
      ++ (if fw.is_shut_down then [] else all_comments show_addr conf names named fw.leases)

  rebuilt-wanted :
      (fw : NftFirewall) (c : Text)
      → count_texts c (rebuilt fw) ≡ wanted list_rules apply show_addr conf fw c
  unfolding count_texts
  rebuilt-wanted fw c = by_case fw.is_shut_down
    where
      by_case :
          (b : Bool)
          → count_texts c (
              (if b then [] else controls)
              ++ (if b then [] else all_comments show_addr conf names named fw.leases))
            ≡ (if b then 0 else count_texts c controls + leased show_addr c fw.leases)
      by_case true = refl
      by_case false = omega (
        arith,
        count_texts-append c controls (all_comments show_addr conf names named fw.leases),
        leased-all_comments c fw.leases,
      )

  rebuild_cmds-Adds :
      (fw : NftFirewall) (cmds : List NfCmd)
      → rebuild_cmds list_rules apply show_addr conf fw ≡ ok cmds
      → (adds : List NfCmd) × (cmds
          ≡ flush_chain names.names_family names.names_table names.names_chain ∷ adds)
        × Adds names adds (rebuilt fw)
  unfolding rebuild_cmds
  rebuild_cmds-Adds fw cmds e =
      let (names', named', e1) = bind-eq-ok (get_names conf) _ e in
      let (own, made, e2) =
        bind-eq-ok
          (if fw.is_shut_down
            then ok []
            else gen_each show_addr conf none (control_ports list_rules apply show_addr conf))
          _ e1 in
      let (more, made_more, e3) =
        bind-eq-ok
          (if fw.is_shut_down
            then ok []
            else all_lease_cmds list_rules apply show_addr conf fw.leases)
          _ e2 in
      let same : names' ≡ names = ok_inj (sym named' ∙ named) in
      (
        own ++ more,
        sym (ok_inj e3)
            ∙ ap (λ n. flush_chain n.names_family n.names_table n.names_chain ∷ own ++ more) same,
        Adds-append names own more _ _
            (if_Adds fw.is_shut_down _ controls
              (gen_each-Adds show_addr conf names named none
                (control_ports list_rules apply show_addr conf))
              own made)
            (if_Adds fw.is_shut_down _ (all_comments show_addr conf names named fw.leases)
              (all_lease_cmds-Adds show_addr conf names named list_rules apply fw.leases) more
              made_more),
      )

  -- Behind a full rebuild that succeeds the chain has exactly the rules of the control port and of the
  -- leases.
  abbrev pub Exact : State K → Type 0
  Exact s =
      HaveHandles (chain s.kernel)
      × ((c : Text)
          → count_rules c (chain s.kernel) ≡ wanted list_rules apply show_addr conf s.fw c)

  flushed :
      (fw : NftFirewall) (cmds : List NfCmd) (k k' : K)
      → rebuild_cmds list_rules apply show_addr conf fw ≡ ok cmds
      → apply k cmds ≡ some k'
      → HaveHandles (chain k')
        × ((c : Text) → count_rules c (chain k') ≡ wanted list_rules apply show_addr conf fw c)
  unfolding count_rules
  flushed fw cmds k k' made e =
      let (adds, split, a) = rebuild_cmds-Adds fw cmds made in
      let batch =
        nft.applies k k' (flush_chain names.names_family names.names_table names.names_chain ∷ adds)
          ((refl, refl, refl), Adds-Addresses names adds (rebuilt fw) a)
          (ap (apply k) (sym split) ∙ e) in
      let added =
        Adds-Batch names adds (rebuilt fw) [] (chain k') a
          (subst (λ x. Batch x adds (chain k')) batch.1 batch.2) tt in
      (added.0, λ c. added.1 c ∙ zero-add (count_texts c (rebuilt fw)) ∙ rebuilt-wanted fw c)

  pub full_rebuild-Exact :
      (s : State K)
      → (full_rebuild list_rules apply show_addr conf s).0 ≡ ok tt
      → Exact (full_rebuild list_rules apply show_addr conf s).1
  unfolding full_rebuild
  full_rebuild-Exact s e = by_case (
      apply_result-cases list_rules apply show_addr conf
        (rebuild_cmds list_rules apply show_addr conf s.fw)
        (record s { fw = count_ctrl list_rules apply show_addr conf s.fw }))
    where
      by_case :
          Unchanged list_rules apply show_addr conf
              (record s { fw = count_ctrl list_rules apply show_addr conf s.fw })
              (full_rebuild list_rules apply show_addr conf s)
            ⊎ Taken list_rules apply show_addr conf
                (rebuild_cmds list_rules apply show_addr conf s.fw)
                (record s { fw = count_ctrl list_rules apply show_addr conf s.fw })
                (full_rebuild list_rules apply show_addr conf s)
          → Exact (full_rebuild list_rules apply show_addr conf s).1
      by_case (inl u) = absurd (u.1 e)
      by_case (inr (cmds, k, made, taken, o)) =
          let v = flushed s.fw cmds s.kernel k made taken in
          subst (λ x. Exact x.1) (sym o)
            (v.0, λ c. v.1 c ∙ sym (wanted-count_ctrl list_rules apply show_addr conf s.fw c))
