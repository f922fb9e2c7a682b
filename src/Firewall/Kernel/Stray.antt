-- ===== src/Firewall/Kernel/Stray.antt =====
-- letmeinfwd/src/firewall/nftables.rs: no rule stands in the chain without a lease, or a control port,
-- that asks for it. Adding and refreshing leases keeps this.
use letmein.Base.{
  list_has_eq, ℕ, ◌+◌, ◌≤◌, ◌≡◌, refl, ◌≢◌, sym, subst, ap, Option, none, some, List, [], ◌∷◌,
  arith, false, Result, ok, err, panic, ◌⊎◌, inl, inr,
}
use letmein.Base.Assoc.{lookup, insert}
use letmein.Base.Sums.{weight, total-insert}
use letmein.Base.Texts.{Text}
use letmein.Conf.{Config}
use letmein.Firewall.{id_has_eq, Lease, LeaseId, refresh_timeout}
use letmein.Firewall.Commands.{Rule, NfCmd, FwError, NftNames, get_names, gen_add_lease_cmds}
use letmein.Firewall.Kernel.{
  Nft, HaveHandles, count_rules, count_texts, comments, lease_comments, leased,
}
use letmein.Firewall.Kernel.Adding.{count_texts-append}
use letmein.Firewall.Kernel.Applied.{Taken, Unchanged, apply_result-cases, wanted, apply-Adds}
use letmein.Firewall.Kernel.Rebuilt.{Exact}
use letmein.Firewall.Kernel.Generated.{gen_add_lease_cmds-Adds}
use letmein.Firewall.Kernel.Removing.{list_comments, Removed}
use letmein.Firewall.State.{NftFirewall, State, control_ports, add_lease, insert_on_ok}
use letmein.FwProto.Fields.{IpAddr}

module _ {K : Type 0} (list_rules : K → Option (List Rule)) (apply : K → List NfCmd → Option K)
    (show_addr : IpAddr → Text) (conf : Config) where
  pub wanted-running :
      (fw : NftFirewall) (c : Text)
      → fw.is_shut_down ≡ false
      → wanted list_rules apply show_addr conf fw c
        ≡ count_texts c (comments show_addr none (control_ports list_rules apply show_addr conf))
          + leased show_addr c fw.leases
  wanted-running fw c e = rw (e) refl

module _ {K : Type 0} (list_rules : K → Option (List Rule)) (apply : K → List NfCmd → Option K)
    (show_addr : IpAddr → Text) (conf : Config) (names : NftNames) (chain : K → List Rule)
    (named : get_names conf ≡ ok names) (nft : Nft list_rules apply names chain)
    (strict : conf.debug ≡ false) where
  -- The rules with a comment are at most as many as the leases and the control port ask for.
  abbrev pub NoStray : State K → Type 0
  NoStray s =
      HaveHandles (chain s.kernel)
      × ((c : Text)
          → count_rules c (chain s.kernel) ≤ wanted list_rules apply show_addr conf s.fw c)

  pub Exact-NoStray :
      (s : State K) → Exact list_rules apply show_addr conf names chain named nft s → NoStray s
  Exact-NoStray s v = (v.0, λ c. omega (arith, v.1 c))

  -- The rules are removed, and then the leases ask for as many less.
  pub Removed-NoStray :
      (leases : List Lease) (fw : NftFirewall) (s s' : State K)
      → NoStray (record s { fw = fw })
      → ((c : Text)
          → wanted list_rules apply show_addr conf fw c
            ≤ wanted list_rules apply show_addr conf s.fw c
              + count_texts c (list_comments show_addr leases))
      → Removed list_rules apply show_addr conf names chain named nft strict leases s s'
      → NoStray s'
  Removed-NoStray leases fw s s' v asked gone = (
    gone.1,
    λ c.
        subst (λ f. count_rules c (chain s'.kernel) ≤ wanted list_rules apply show_addr conf f c)
          (sym gone.0)
          (gone.2 c (wanted list_rules apply show_addr conf s.fw c)
            (omega (arith, v.1 c, asked c))),
  )

  pub one_lease :
      (c : Text) (lease : Lease)
      → count_texts c (list_comments show_addr (lease ∷ []))
        ≡ count_texts c (lease_comments show_addr lease)
  unfolding count_texts
  one_lease c lease = omega (arith, count_texts-append c (lease_comments show_addr lease) [])

  abbrev pub lease_weight : Text → Lease → ℕ
  lease_weight c lease = count_texts c (lease_comments show_addr lease)

  pub add_lease-NoStray :
      (id : LeaseId) (lease : Lease) (s : State K)
      → s.fw.is_shut_down ≡ false
      → lookup id s.fw.leases ≡ none
      → NoStray s
      → NoStray
          (insert_on_ok list_rules apply show_addr conf id lease
            (add_lease list_rules apply show_addr conf lease s)).1
  unfolding add_lease
  add_lease-NoStray id lease s running absent v = by_case (
      apply_result-cases list_rules apply show_addr conf (gen_add_lease_cmds show_addr conf lease)
        s)
    where
      by_case :
          Unchanged list_rules apply show_addr conf s
              (add_lease list_rules apply show_addr conf lease s)
            ⊎ Taken list_rules apply show_addr conf
                (gen_add_lease_cmds show_addr conf lease)
                s
                (add_lease list_rules apply show_addr conf lease s)
          → NoStray
              (insert_on_ok list_rules apply show_addr conf id lease
                (add_lease list_rules apply show_addr conf lease s)).1
      by_case (inl u) = not_inserted (add_lease list_rules apply show_addr conf lease s) u.0 u.1
        where
          not_inserted :
              (o : Result FwError (Unit {0}) × State K)
              → o.1 ≡ s
              → o.0 ≢ ok tt
              → NoStray (insert_on_ok list_rules apply show_addr conf id lease o).1
          not_inserted (ok u', s') e h = absurd (h refl)
          not_inserted (err x, s') e h = subst NoStray (sym e) v
          not_inserted (panic, s') e h = subst NoStray (sym e) v
      by_case (inr (cmds, k, made, taken, o)) =
          let added =
            apply-Adds list_rules apply show_addr conf names chain named nft cmds
              (lease_comments show_addr lease) s.kernel k
              (gen_add_lease_cmds-Adds show_addr conf names named lease cmds made) taken v.0 in
          let fw' : NftFirewall = record s.fw { leases = insert id lease s.fw.leases } in
          subst (λ x. NoStray (insert_on_ok list_rules apply show_addr conf id lease x).1) (sym o)
            (
              added.0,
              λ c. omega (
                arith,
                added.1 c,
                v.1 c,
                wanted-running list_rules apply show_addr conf s.fw c running,
                wanted-running list_rules apply show_addr conf fw' c running,
                total-insert (lease_weight c) id lease s.fw.leases,
                ap (weight (lease_weight c)) absent,
              ),
            )

  pub refresh-NoStray :
      (now : ℕ) (id : LeaseId) (lease : Lease) (s : State K)
      → s.fw.is_shut_down ≡ false
      → lookup id s.fw.leases ≡ some lease
      → NoStray s
      → NoStray (record s {
        fw = record s.fw { leases = insert id (refresh_timeout conf now lease) s.fw.leases };
      })
  refresh-NoStray now id lease s running found v =
      let fw' : NftFirewall = record s.fw {
        leases = insert id (refresh_timeout conf now lease) s.fw.leases;
      } in
      (
        v.0,
        λ c. omega (
          arith,
          v.1 c,
          wanted-running list_rules apply show_addr conf s.fw c running,
          wanted-running list_rules apply show_addr conf fw' c running,
          total-insert (lease_weight c) id (refresh_timeout conf now lease) s.fw.leases,
          ap (weight (lease_weight c)) found,
        ),
      )
