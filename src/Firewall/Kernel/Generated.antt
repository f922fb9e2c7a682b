-- ===== src/Firewall/Kernel/Generated.antt =====
-- letmeinfwd/src/firewall/nftables.rs: the generated commands that add rules are about the chain and
-- have the comments of their address and ports.
use letmein.Base.{
  list_has_eq, nat_has_eq, ◌≡◌, refl, sym, subst, Option, none, some, List, [], ◌∷◌, ◌++◌, arith,
  ok, true, bind-eq-ok, ok_inj, list_eq_iff, ◌∙◌, ap,
}
use letmein.Base.Texts.{Text}
use letmein.Conf.{Config}
use letmein.Firewall.{SingleLeasePort, Lease, LeaseMap}
use letmein.Firewall.Commands.{
  accept_statement, family_eq_iff, Rule, NfCmd, NftNames, get_names, single_ports,
  statement_match_dport, source_matches, gen_rule_comment, gen_add_lease_cmd, gen_each,
  gen_add_lease_cmds,
}
use letmein.Firewall.Kernel.{in_chain, comments, lease_comments}
use letmein.Firewall.Kernel.Adding.{Adds, Adds-append}
use letmein.Firewall.State.{all_lease_cmds}
use letmein.FwProto.Fields.{IpAddr}

-- A rule that is made for the chain stands in it.
pub made_in_chain :
    (names : NftNames) (rule : Rule)
    → rule.family ≡ names.names_family
    → rule.table ≡ names.names_table
    → rule.chain ≡ names.names_chain
    → in_chain names rule ≡ true
made_in_chain names rule f t c = ground (
  arith,
  f,
  t,
  c,
  family_eq_iff rule.family names.names_family,
  list_eq_iff rule.table names.names_table,
  list_eq_iff rule.chain names.names_chain,
)

module _ (show_addr : IpAddr → Text) (conf : Config) (names : NftNames)
    (named : get_names conf ≡ ok names) where
  gen_add_lease_cmd-Adds :
      (addr : Option IpAddr) (p : SingleLeasePort) (cmd : NfCmd)
      → gen_add_lease_cmd show_addr conf addr p ≡ ok cmd
      → Adds names (cmd ∷ []) (gen_rule_comment show_addr addr p ∷ [])
  unfolding gen_add_lease_cmd
  gen_add_lease_cmd-Adds addr p cmd e =
      let (names', named', e1) = bind-eq-ok (get_names conf) _ e in
      let (source, _, e2) = bind-eq-ok (source_matches show_addr names'.names_family addr) _ e1 in
      let same : names' ≡ names = ok_inj (sym named' ∙ named) in
      let rule : Rule = record {
        family = names'.names_family;
        table = names'.names_table;
        chain = names'.names_chain;
        expr = source ++ (statement_match_dport p ∷ accept_statement ∷ []);
        handle = none;
        comment = some (gen_rule_comment show_addr addr p);
      } in
      subst (λ x. Adds names (x ∷ []) (gen_rule_comment show_addr addr p ∷ [])) (ok_inj e2)
        (
          made_in_chain names rule (ap (λ n. n.names_family) same) (ap (λ n. n.names_table) same)
              (ap (λ n. n.names_chain) same),
          refl,
          tt,
        )

  pub gen_each-Adds :
      (addr : Option IpAddr) (ps : List SingleLeasePort) (cmds : List NfCmd)
      → gen_each show_addr conf addr ps ≡ ok cmds
      → Adds names cmds (comments show_addr addr ps)
  gen_each-Adds addr [] cmds e = subst (λ x. Adds names x []) (ok_inj e) tt
  gen_each-Adds addr (p ∷ ps) cmds e =
      let (cmd, made, e1) = bind-eq-ok (gen_add_lease_cmd show_addr conf addr p) _ e in
      let (more, rest, e2) = bind-eq-ok (gen_each show_addr conf addr ps) _ e1 in
      subst (λ x. Adds names x (comments show_addr addr (p ∷ ps))) (ok_inj e2)
        (Adds-append names (cmd ∷ []) more (gen_rule_comment show_addr addr p ∷ [])
          (comments show_addr addr ps) (gen_add_lease_cmd-Adds addr p cmd made)
          (gen_each-Adds addr ps more rest))

  pub gen_add_lease_cmds-Adds :
      (lease : Lease) (cmds : List NfCmd)
      → gen_add_lease_cmds show_addr conf lease ≡ ok cmds
      → Adds names cmds (lease_comments show_addr lease)
  unfolding gen_add_lease_cmds
  gen_add_lease_cmds-Adds lease cmds e =
      gen_each-Adds (some lease.addr) (single_ports lease.lease_port) cmds e

  -- The comments of all leases
  abbrev pub all_comments : LeaseMap → List Text
  all_comments [] = []
  all_comments ((_, lease) ∷ leases) = lease_comments show_addr lease ++ all_comments leases

  module _ {K : Type 0} (list_rules : K → Option (List Rule))
      (apply : K → List NfCmd → Option K) where
    pub all_lease_cmds-Adds :
        (leases : LeaseMap) (cmds : List NfCmd)
        → all_lease_cmds list_rules apply show_addr conf leases ≡ ok cmds
        → Adds names cmds (all_comments leases)
    all_lease_cmds-Adds [] cmds e = subst (λ x. Adds names x []) (ok_inj e) tt
    all_lease_cmds-Adds ((id, lease) ∷ leases) cmds e =
        let (own, made, e1) = bind-eq-ok (gen_add_lease_cmds show_addr conf lease) _ e in
        let (more, rest, e2) =
          bind-eq-ok (all_lease_cmds list_rules apply show_addr conf leases) _ e1 in
        subst (λ x. Adds names x (all_comments ((id, lease) ∷ leases))) (ok_inj e2)
          (Adds-append names own more (lease_comments show_addr lease) (all_comments leases)
            (gen_add_lease_cmds-Adds lease own made) (all_lease_cmds-Adds leases more rest))
