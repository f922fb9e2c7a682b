-- ===== src/Firewall/Effects.antt =====
-- letmeinfwd/src/firewall/nftables.rs: what the commands to `nft` leave alone, whatever it answers.
use letmein.Base.{
  list_has_eq, ◌≡◌, ◌≢◌, Option, List, arith, Result, panic, refl, Bool, true, false, none, some,
  [], ◌∷◌, if◌then◌else◌, ok, err, bind_total,
}
use letmein.Base.Texts.{Text}
use letmein.Conf.{Config}
use letmein.Firewall.{SingleLeasePort, Lease, LeaseMap}
use letmein.Firewall.Commands.{
  Rule, NfCmd, FwError, get_names, statement_match_saddr, gen_add_lease_cmd, Family, single_ports,
  source_matches, gen_each, gen_add_lease_cmds, gen_delete_lease_cmds,
}
use letmein.Firewall.State.{
  State, apply_batch, NftFirewall, apply_result, control_ports, all_lease_cmds, rebuild_cmds,
  count_ctrl, full_rebuild, add_lease, delete_all, lenient, remove_listed, remove_leases,
}
use letmein.FwProto.Fields.{IpAddr, v4, v6}

module _ (show_addr : IpAddr → Text) (conf : Config) where
  names_total : get_names conf ≢ panic
  unfolding get_names
  names_total = ground arith

  saddr_total :
      (family : Family) (addr : IpAddr) → statement_match_saddr show_addr family addr ≢ panic
  unfolding statement_match_saddr
  saddr_total family (v4 o) = ground arith
  saddr_total family (v6 o) = ground arith

  source_total :
      (family : Family) (addr : Option IpAddr) → source_matches show_addr family addr ≢ panic
  source_total family none = λ x. cc
  source_total family (some a) =
      bind_total (statement_match_saddr show_addr family a) _ (saddr_total family a) (λ m x. cc)

  gen_add_total :
      (addr : Option IpAddr) (p : SingleLeasePort) → gen_add_lease_cmd show_addr conf addr p ≢ panic
  unfolding gen_add_lease_cmd
  gen_add_total addr p = bind_total (get_names conf) _ names_total (λ names.
      bind_total (source_matches show_addr names.names_family addr) _
        (source_total names.names_family addr) (λ source x. cc))

  pub gen_each_total :
      (addr : Option IpAddr) (ps : List SingleLeasePort) → gen_each show_addr conf addr ps ≢ panic
  gen_each_total addr [] = λ x. cc
  gen_each_total addr (p ∷ ps) =
      bind_total (gen_add_lease_cmd show_addr conf addr p) _ (gen_add_total addr p) (λ cmd.
        bind_total (gen_each show_addr conf addr ps) _ (gen_each_total addr ps) (λ cmds x. cc))

  pub gen_add_lease_total : (lease : Lease) → gen_add_lease_cmds show_addr conf lease ≢ panic
  unfolding gen_add_lease_cmds
  gen_add_lease_total lease = gen_each_total (some lease.addr) (single_ports lease.lease_port)

  pub gen_delete_lease_total :
      (rules : List Rule) (lease : Lease) → gen_delete_lease_cmds show_addr rules conf lease ≢ panic
  unfolding gen_delete_lease_cmds
  gen_delete_lease_total rules lease = bind_total (get_names conf) _ names_total (λ names x. cc)

module _ {K : Type 0} (list_rules : K → Option (List Rule)) (apply : K → List NfCmd → Option K)
    (show_addr : IpAddr → Text) (conf : Config) where
  -- The leases and the shutdown flag are as before, and nothing panics.
  abbrev pub SameFw : NftFirewall → Result FwError (Unit {0}) × State K → Type 0
  SameFw fw o =
      (o.1.fw.leases ≡ fw.leases) × (o.1.fw.is_shut_down ≡ fw.is_shut_down) × (o.0 ≢ panic)

  apply_result-SameFw :
      (r : Result FwError (List NfCmd)) (s : State K)
      → r ≢ panic
      → SameFw s.fw (apply_result list_rules apply show_addr conf r s)
  unfolding apply_batch
  apply_result-SameFw (ok cmds) s h = ground arith
  apply_result-SameFw (err e) s h = (refl, refl, λ x. cc)
  apply_result-SameFw panic s h = absurd (h refl)

  pub add_lease-SameFw :
      (lease : Lease) (s : State K)
      → SameFw s.fw (add_lease list_rules apply show_addr conf lease s)
  unfolding add_lease
  add_lease-SameFw lease s =
      apply_result-SameFw (gen_add_lease_cmds show_addr conf lease) s
        (gen_add_lease_total show_addr conf lease)

  delete_all_total :
      (rules : List Rule) (leases : List Lease)
      → delete_all list_rules apply show_addr conf rules leases ≢ panic
  delete_all_total rules [] = λ x. cc
  delete_all_total rules (lease ∷ leases) =
      bind_total (gen_delete_lease_cmds show_addr rules conf lease) _
        (gen_delete_lease_total show_addr conf rules lease)
        (λ cmds.
          bind_total (delete_all list_rules apply show_addr conf rules leases) _
            (delete_all_total rules leases) (λ more x. cc))

  lenient-SameFw :
      (fw : NftFirewall) (o : Result FwError (Unit {0}) × State K)
      → SameFw fw o
      → SameFw fw (lenient list_rules apply show_addr conf o)
  lenient-SameFw fw (r, s) h = ground arith

  remove_listed-SameFw :
      (rules : Option (List Rule)) (leases : List Lease) (s : State K)
      → SameFw s.fw (remove_listed list_rules apply show_addr conf rules leases s)
  remove_listed-SameFw none leases s = (refl, refl, λ x. cc)
  remove_listed-SameFw (some rules) leases s =
      apply_result-SameFw (delete_all list_rules apply show_addr conf rules leases) s
        (delete_all_total rules leases)

  pub remove_leases-SameFw :
      (leases : List Lease) (s : State K)
      → SameFw s.fw (remove_leases list_rules apply show_addr conf leases s)
  unfolding remove_leases
  remove_leases-SameFw [] s = (refl, refl, λ x. cc)
  remove_leases-SameFw (lease ∷ leases) s =
      lenient-SameFw s.fw _ (remove_listed-SameFw (list_rules s.kernel) (lease ∷ leases) s)

  all_lease_total :
      (leases : LeaseMap) → all_lease_cmds list_rules apply show_addr conf leases ≢ panic
  all_lease_total [] = λ x. cc
  all_lease_total ((id, lease) ∷ leases) =
      bind_total (gen_add_lease_cmds show_addr conf lease) _
        (gen_add_lease_total show_addr conf lease)
        (λ cmds.
          bind_total (all_lease_cmds list_rules apply show_addr conf leases) _
            (all_lease_total leases) (λ more x. cc))

  if_total :
      {A : Type 0} (b : Bool) (x y : Result FwError A)
      → x ≢ panic
      → y ≢ panic
      → (if b then x else y) ≢ panic
  if_total true x y hx hy = hx
  if_total false x y hx hy = hy

  rebuild_total : (fw : NftFirewall) → rebuild_cmds list_rules apply show_addr conf fw ≢ panic
  unfolding rebuild_cmds
  rebuild_total fw = bind_total (get_names conf) _ (names_total show_addr conf) (λ names.
      bind_total _ _
        (if_total fw.is_shut_down _ _ (λ x. cc)
          (gen_each_total show_addr conf none (control_ports list_rules apply show_addr conf)))
        (λ control.
          bind_total _ _ (if_total fw.is_shut_down _ _ (λ x. cc) (all_lease_total fw.leases))
            (λ adds x. cc)))

  pub full_rebuild-SameFw :
      (s : State K) → SameFw s.fw (full_rebuild list_rules apply show_addr conf s)
  unfolding full_rebuild
  full_rebuild-SameFw s = ground (
    arith,
    apply_result-SameFw (rebuild_cmds list_rules apply show_addr conf s.fw)
        (record s { fw = count_ctrl list_rules apply show_addr conf s.fw }) (rebuild_total s.fw),
  )
