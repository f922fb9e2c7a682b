-- ===== src/Firewall/State.antt =====
-- letmeinfwd/src/firewall/nftables.rs: `NftFirewall`, its state and its operations. The kernel's rules
-- and the `nft` program are the parameters `K`, `list_rules` and `apply`: a listing or a batch may
-- fail, and a batch that fails changes nothing. Messages to the console are left out.
use letmein.Base.{
  ℕ, Bool, true, false, Option, none, some, List, [], ◌∷◌, ◌++◌, if◌then◌else◌, length, Result, ok,
  err, panic, ◌>>=◌, is_ok,
}
use letmein.Base.Assoc.{lookup, insert, remove}
use letmein.Base.Texts.{Text}
use letmein.Conf.{Config}
use letmein.Firewall.{
  new, id_has_eq, LeasePort, SingleLeasePort, single_tcp, single_udp, Lease, LeaseId, LeaseMap,
  refresh_timeout, prune_all_lease_timeouts,
}
use letmein.Firewall.Commands.{
  apply_failed, list_failed, nft_not_executed, Rule, NfCmd, flush_chain, FwError, get_names,
  gen_each, gen_add_lease_cmds, gen_delete_lease_cmds,
}
use letmein.FwProto.Fields.{IpAddr}

pub record NftFirewall : Type 0 where
  pub leases : LeaseMap
  pub is_shut_down : Bool
  pub num_ctrl_rules : ℕ

pub record State (K : Type 0) : Type 0 where
  pub fw : NftFirewall
  pub kernel : K

module _ {K : Type 0} (list_rules : K → Option (List Rule)) (apply : K → List NfCmd → Option K)
    (show_addr : IpAddr → Text) (conf : Config) where
  abbrev pub Outcome : Type 0
  Outcome = Result FwError (Unit {0}) × State K

  abbrev pub applied : Option K → State K → Outcome
  applied none s = (err apply_failed, s)
  applied (some k) s = (ok tt, record s { kernel = k })

  -- `nftables_apply_batch`
  unfoldable pub apply_batch : List NfCmd → State K → Outcome
  apply_batch cmds s = applied (apply s.kernel cmds) s

  -- The commands of a batch, or the error in generating them.
  abbrev pub apply_result : Result FwError (List NfCmd) → State K → Outcome
  apply_result (ok cmds) s = apply_batch cmds s
  apply_result (err e) s = (err e, s)
  apply_result panic s = (panic, s)

  abbrev pub control_ports : List SingleLeasePort
  control_ports =
      (if conf.control_port.tcp then single_tcp conf.control_port.port ∷ [] else [])
      ++ (if conf.control_port.udp then single_udp conf.control_port.port ∷ [] else [])

  abbrev pub all_lease_cmds : LeaseMap → Result FwError (List NfCmd)
  all_lease_cmds [] = ok []
  all_lease_cmds ((_, lease) ∷ leases) = do
    cmds ← gen_add_lease_cmds show_addr conf lease
    more ← all_lease_cmds leases
    ok (cmds ++ more)

  -- The batch of `nftables_full_rebuild`
  unfoldable pub rebuild_cmds : NftFirewall → Result FwError (List NfCmd)
  rebuild_cmds fw = do
    names ← get_names conf
    control ← if fw.is_shut_down then ok [] else gen_each show_addr conf none control_ports
    adds ← if fw.is_shut_down then ok [] else all_lease_cmds fw.leases
    ok (flush_chain names.names_family names.names_table names.names_chain ∷ control ++ adds)

  abbrev pub count_ctrl : NftFirewall → NftFirewall
  count_ctrl fw =
      if is_ok (get_names conf)
      then record fw { num_ctrl_rules = if fw.is_shut_down then 0 else length control_ports }
      else fw

  -- `nftables_full_rebuild`
  unfoldable pub full_rebuild : State K → Outcome
  unfolding rebuild_cmds apply_batch
  full_rebuild s = apply_result (rebuild_cmds s.fw) (record s { fw = count_ctrl s.fw })

  -- `NftFirewall::new`, where `nft_runs` tells whether `nft` can be executed
  unfoldable pub new_firewall : (nft_runs : Bool) → K → Outcome
  unfolding full_rebuild
  new_firewall nft_runs k =
      let s : State K = record {
        fw = record { leases = []; is_shut_down = false; num_ctrl_rules = 0 };
        kernel = k;
      } in
      if nft_runs then full_rebuild s else (err nft_not_executed, s)

  -- `nftables_add_lease`
  unfoldable pub add_lease : Lease → State K → Outcome
  unfolding apply_batch
  add_lease lease s = apply_result (gen_add_lease_cmds show_addr conf lease) s

  abbrev pub delete_all : List Rule → List Lease → Result FwError (List NfCmd)
  delete_all rules [] = ok []
  delete_all rules (lease ∷ leases) = do
    cmds ← gen_delete_lease_cmds show_addr rules conf lease
    more ← delete_all rules leases
    ok (cmds ++ more)

  -- In debug mode an error of `nft` counts as success.
  abbrev pub lenient : Outcome → Outcome
  lenient (err list_failed, s) = (if conf.debug then ok tt else err list_failed, s)
  lenient (err apply_failed, s) = (if conf.debug then ok tt else err apply_failed, s)
  lenient other = other

  abbrev pub remove_listed : Option (List Rule) → List Lease → State K → Outcome
  remove_listed none leases s = (err list_failed, s)
  remove_listed (some rules) leases s = apply_result (delete_all rules leases) s

  -- `nftables_remove_leases`
  unfoldable pub remove_leases : List Lease → State K → Outcome
  unfolding apply_batch
  remove_leases [] s = (ok tt, s)
  remove_leases (lease ∷ leases) s =
      lenient (remove_listed (list_rules s.kernel) (lease ∷ leases) s)

  -- `shutdown`
  unfoldable pub shutdown : State K → Outcome
  unfolding full_rebuild
  shutdown s =
      if s.fw.is_shut_down
      then (panic, s)
      else full_rebuild (record s { fw = record s.fw { leases = []; is_shut_down = true } })

  abbrev pub rebuild_on_error : Outcome → Outcome
  rebuild_on_error (ok _, s) = (ok tt, s)
  rebuild_on_error (err _, s) = full_rebuild s
  rebuild_on_error (panic, s) = (panic, s)

  -- `maintain`
  unfoldable pub maintain : ℕ → State K → Outcome
  unfolding full_rebuild remove_leases
  maintain now s =
      let pruned = prune_all_lease_timeouts now s.fw.leases in
      if s.fw.is_shut_down
      then (panic, s)
      else rebuild_on_error
          (remove_leases pruned.0 (record s { fw = record s.fw { leases = pruned.1 } }))

  abbrev pub insert_on_ok : LeaseId → Lease → Outcome → Outcome
  insert_on_ok id lease (ok _, s) =
      (ok tt, record s { fw = record s.fw { leases = insert id lease s.fw.leases } })
  insert_on_ok id lease other = other

  abbrev pub open_new : LeaseId → Result FwError Lease → State K → Outcome
  open_new id (ok lease) s = insert_on_ok id lease (add_lease lease s)
  open_new id (err e) s = (err e, s)
  open_new id panic s = (panic, s)

  abbrev pub open_found : ℕ → LeaseId → Option Lease → State K → Outcome
  open_found now id (some lease) s = (
    ok tt,
    record s {
      fw = record s.fw { leases = insert id (refresh_timeout conf now lease) s.fw.leases };
    },
  )
  open_found now id none s = open_new id (new conf now id.0 id.1) s

  -- `open_port`
  unfoldable pub open_port : ℕ → IpAddr → LeasePort → State K → Outcome
  unfolding add_lease
  open_port now addr port s =
      if s.fw.is_shut_down
      then (panic, s)
      else open_found now (addr, port) (lookup (addr, port) s.fw.leases) s

  abbrev pub remove_one : Result FwError Lease → State K → Outcome
  remove_one (ok lease) s = remove_leases (lease ∷ []) s
  remove_one (err e) s = (err e, s)
  remove_one panic s = (panic, s)

  abbrev pub close_found : ℕ → LeaseId → Option Lease → State K → Outcome
  close_found now id (some lease) s =
      remove_leases (lease ∷ []) (record s { fw = record s.fw { leases = remove id s.fw.leases } })
  close_found now id none s = remove_one (new conf now id.0 id.1) s

  -- `close_port`: with no lease in memory the rules are removed all the same.
  unfoldable pub close_port : ℕ → IpAddr → LeasePort → State K → Outcome
  unfolding remove_leases
  close_port now addr port s =
      if s.fw.is_shut_down
      then (panic, s)
      else close_found now (addr, port) (lookup (addr, port) s.fw.leases) s
