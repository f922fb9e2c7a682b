-- ===== src/Firewall/Kernel/Removing.antt =====
-- letmeinfwd/src/firewall/nftables.rs: what `nftables_remove_leases` does to the chain where it
-- succeeds outside the debug mode.
use letmein.Base.{
  list_has_eq, ℕ, ◌+◌, ◌≤◌, ◌≡◌, refl, sym, subst, ap, ◌∙◌, Option, none, some, List, [], ◌∷◌, ◌++◌,
  arith, false, Result, ok, bind-eq-ok, ok_inj, ◌⊎◌, inl, inr,
}
use letmein.Base.Texts.{Text}
use letmein.Conf.{Config}
use letmein.Firewall.{Lease}
use letmein.Firewall.Commands.{
  Rule, NfCmd, FwError, NftNames, get_names, single_ports, delete_each, gen_delete_lease_cmds,
}
use letmein.Firewall.Kernel.{chain_of, Nft, HaveHandles, count_rules, count_texts, lease_comments}
use letmein.Firewall.Kernel.Applied.{Taken, Unchanged, apply_result-cases}
use letmein.Firewall.Kernel.Deleting.{deletions-count}
use letmein.Firewall.Kernel.Finding.{
  deletions, delete_each-deletions, deletions-append, deletions-Addresses,
}
use letmein.Firewall.State.{State, delete_all, lenient, remove_listed, remove_leases}
use letmein.FwProto.Fields.{IpAddr}

-- The comments of the rules of these leases
abbrev pub list_comments : (IpAddr → Text) → List Lease → List Text
list_comments show_addr [] = []
list_comments show_addr (lease ∷ leases) =
    lease_comments show_addr lease ++ list_comments show_addr leases

module _ {K : Type 0} (list_rules : K → Option (List Rule)) (apply : K → List NfCmd → Option K)
    (show_addr : IpAddr → Text) (conf : Config) (names : NftNames) (chain : K → List Rule)
    (named : get_names conf ≡ ok names) (nft : Nft list_rules apply names chain)
    (strict : conf.debug ≡ false) where
  gen_delete_lease_cmds-deletions :
      (rules : List Rule) (lease : Lease) (cmds : List NfCmd)
      → gen_delete_lease_cmds show_addr rules conf lease ≡ ok cmds
      → cmds ≡ deletions names (chain_of names rules) (lease_comments show_addr lease)
  unfolding gen_delete_lease_cmds
  gen_delete_lease_cmds-deletions rules lease cmds e =
      let (names', named', e1) = bind-eq-ok (get_names conf) _ e in
      sym (ok_inj e1)
      ∙ ap (λ n. delete_each show_addr rules n lease.addr (single_ports lease.lease_port))
          (ok_inj (sym named' ∙ named))
      ∙ delete_each-deletions show_addr names lease.addr (single_ports lease.lease_port) rules

  delete_all-deletions :
      (rules : List Rule) (leases : List Lease) (cmds : List NfCmd)
      → delete_all list_rules apply show_addr conf rules leases ≡ ok cmds
      → cmds ≡ deletions names (chain_of names rules) (list_comments show_addr leases)
  unfolding deletions
  delete_all-deletions rules [] cmds e = sym (ok_inj e)
  delete_all-deletions rules (lease ∷ leases) cmds e =
      let (own, made, e1) = bind-eq-ok (gen_delete_lease_cmds show_addr rules conf lease) _ e in
      let (more, rest, e2) =
        bind-eq-ok (delete_all list_rules apply show_addr conf rules leases) _ e1 in
      sym (ok_inj e2)
      ∙ ap (λ x. x ++ more) (gen_delete_lease_cmds-deletions rules lease own made)
      ∙ ap (λ x. deletions names (chain_of names rules) (lease_comments show_addr lease) ++ x)
          (delete_all-deletions rules leases more rest)
      ∙ sym (
          deletions-append names (chain_of names rules) (lease_comments show_addr lease)
            (list_comments show_addr leases))

  -- The firewall is as before, and the rules of these leases are gone from the chain.
  abbrev pub Removed : List Lease → State K → State K → Type 0
  Removed leases s s' =
      (s'.fw ≡ s.fw)
      × HaveHandles (chain s'.kernel)
      × ((c : Text) (n : ℕ)
          → count_rules c (chain s.kernel) ≤ n + count_texts c (list_comments show_addr leases)
          → count_rules c (chain s'.kernel) ≤ n)

  lenient-ok :
      (o : Result FwError (Unit {0}) × State K)
      → (lenient list_rules apply show_addr conf o).0 ≡ ok tt
      → (o.0 ≡ ok tt) × (lenient list_rules apply show_addr conf o ≡ o)
  lenient-ok (r, s) e = ground (arith, strict)

  take_deletes :
      (rules : List Rule) (leases : List Lease) (s : State K) (k : K) (cmds : List NfCmd)
      → list_rules s.kernel ≡ some rules
      → delete_all list_rules apply show_addr conf rules leases ≡ ok cmds
      → apply s.kernel cmds ≡ some k
      → HaveHandles (chain s.kernel)
      → Removed leases s (record s { kernel = k })
  take_deletes rules leases s k cmds listed made taken v =
      let cs = list_comments show_addr leases in
      let same : cmds ≡ deletions names (chain s.kernel) cs =
        delete_all-deletions rules leases cmds made
        ∙ ap (λ x. deletions names x cs) (nft.lists s.kernel rules listed) in
      let gone = deletions-count names cs (chain s.kernel) (chain k) v (
        nft.applies s.kernel k (deletions names (chain s.kernel) cs)
          (deletions-Addresses names (chain s.kernel) cs)
          (ap (apply s.kernel) (sym same) ∙ taken)) in
      (refl, gone.0, gone.1)

  remove_listed-Removed :
      (listed : Option (List Rule)) (leases : List Lease) (s : State K)
      → list_rules s.kernel ≡ listed
      → (remove_listed list_rules apply show_addr conf listed leases s).0 ≡ ok tt
      → HaveHandles (chain s.kernel)
      → Removed leases s (remove_listed list_rules apply show_addr conf listed leases s).1
  remove_listed-Removed none leases s q e v = cc
  remove_listed-Removed (some rules) leases s q e v = by_case (
      apply_result-cases list_rules apply show_addr conf
        (delete_all list_rules apply show_addr conf rules leases) s)
    where
      by_case :
          Unchanged list_rules apply show_addr conf s
              (remove_listed list_rules apply show_addr conf (some rules) leases s)
            ⊎ Taken list_rules apply show_addr conf
                (delete_all list_rules apply show_addr conf rules leases)
                s
                (remove_listed list_rules apply show_addr conf (some rules) leases s)
          → Removed leases s (remove_listed list_rules apply show_addr conf (some rules) leases s).1
      by_case (inl u) = absurd (u.1 e)
      by_case (inr (cmds, k, made, taken, o)) =
          subst (λ x. Removed leases s x.1) (sym o)
            (take_deletes rules leases s k cmds q made taken v)

  pub remove_leases-Removed :
      (leases : List Lease) (s : State K)
      → (remove_leases list_rules apply show_addr conf leases s).0 ≡ ok tt
      → HaveHandles (chain s.kernel)
      → Removed leases s (remove_leases list_rules apply show_addr conf leases s).1
  unfolding remove_leases count_texts
  remove_leases-Removed [] s e v = (refl, v, λ c n le. omega (arith, le))
  remove_leases-Removed (lease ∷ leases) s e v =
      let o =
        remove_listed list_rules apply show_addr conf (list_rules s.kernel) (lease ∷ leases) s in
      let done = lenient-ok o e in
      subst (λ x. Removed (lease ∷ leases) s x.1) (sym done.1)
        (remove_listed-Removed (list_rules s.kernel) (lease ∷ leases) s refl done.0 v)
