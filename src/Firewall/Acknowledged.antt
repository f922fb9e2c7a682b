-- ===== src/Firewall/Acknowledged.antt =====
-- letmeinfwd/src/server.rs: what an acknowledgement means for the lease map.
use letmein.Base.{
  ℕ, ◌+◌, ◌≡◌, refl, sym, ap, ◌∙◌, subst, Bool, true, false, Option, none, some, List, [], ◌∷◌,
  arith, if◌then◌else◌, Result, ok, err, panic, ◌≢◌,
}
use letmein.Base.Assoc.{lookup, insert, remove, lookup-insert, lookup-remove_self}
use letmein.Base.Sums.{AllEntries-lookup}
use letmein.Base.Texts.{Text}
use letmein.Conf.{Config}
use letmein.Firewall.{
  new, id_has_eq, LeasePort, Lease, LeaseMap, refresh_timeout, id_eq_iff, LeaseId,
}
use letmein.Firewall.Commands.{Rule, NfCmd, FwError}
use letmein.Firewall.Effects.{SameFw, remove_leases-SameFw}
use letmein.Firewall.Invariant.{Running}
use letmein.Firewall.Leases.{LeaseOk, IsSound}
use letmein.Firewall.Server.{
  HandleError, check_request, Handled, acknowledge, serve, handle_operation, handle_message,
}
use letmein.Firewall.State.{
  open_port, close_port, NftFirewall, State, add_lease, remove_leases, insert_on_ok, open_new,
  open_found, remove_one, close_found,
}
use letmein.FwProto.Fields.{FirewallOperation, nack, ack, opens, closes, IpAddr}
use letmein.FwProto.Message.{FirewallMessage, new_ack, new_nack}

module _ {K : Type 0} (list_rules : K → Option (List Rule)) (apply : K → List NfCmd → Option K)
    (show_addr : IpAddr → Text) (conf : Config) (now : ℕ) where
  -- The lease map behind an acknowledged message.
  abbrev pub Effect : FirewallOperation → IpAddr → LeasePort → NftFirewall → Type 0
  Effect opens addr port fw =
      lookup (addr, port) fw.leases
      ≡ some (record { addr = addr; lease_port = port; timeout = now + conf.nft_timeout })
  Effect closes addr port fw = lookup (addr, port) fw.leases ≡ none
  Effect ack addr port fw = ⊥
  Effect nack addr port fw = ⊥

  -- What a call that succeeds leaves.
  abbrev IfOk : (NftFirewall → Type 0) → Result FwError (Unit {0}) × State K → Type 0
  IfOk P (ok _, s) = P s.fw
  IfOk P (err _, s) = Unit {0}
  IfOk P (panic, s) = Unit {0}

  if_ok :
      (P : NftFirewall → Type 0) (b : Bool) (x y : Result FwError (Unit {0}) × State K)
      → b ≡ false
      → IfOk P y
      → IfOk P (if b then x else y)
  if_ok P true x y h v = cc
  if_ok P false x y h v = v

  refreshed :
      (conf' : Config) (addr : IpAddr) (port : LeasePort) (lease : Lease)
      → ◌≡◌ {A = LeaseId} (addr, port) (lease.addr, lease.lease_port)
      → refresh_timeout conf' now lease
        ≡ record { addr = addr; lease_port = port; timeout = now + conf'.nft_timeout }
  refreshed conf' addr port lease h = ground arith

  abbrev fresh : IpAddr → LeasePort → Lease
  fresh addr port = record { addr = addr; lease_port = port; timeout = now + conf.nft_timeout }

  lookup-inserted :
      (addr : IpAddr) (port : LeasePort) (lease : Lease) (leases : LeaseMap)
      → lease ≡ fresh addr port
      → lookup (addr, port) (insert (addr, port) lease leases) ≡ some (fresh addr port)
  lookup-inserted addr port lease leases h = ground (
    arith,
    lookup-insert (addr, port) (addr, port) lease leases,
    id_eq_iff (addr, port) (addr, port),
  )

  inserted-Effect :
      (addr : IpAddr) (port : LeasePort) (o : Result FwError (Unit {0}) × State K)
      → IfOk
          (Effect opens addr port)
          (insert_on_ok list_rules apply show_addr conf (addr, port) (fresh addr port) o)
  inserted-Effect addr port (ok _, s) = lookup-inserted addr port (fresh addr port) s.fw.leases refl
  inserted-Effect addr port (err _, s) = tt
  inserted-Effect addr port (panic, s) = tt

  open_new-Effect :
      (addr : IpAddr) (port : LeasePort) (made : Result FwError Lease) (s : State K)
      → new {E = FwError} conf now addr port ≡ made
      → IfOk (Effect opens addr port) (open_new list_rules apply show_addr conf (addr, port) made s)
  unfolding add_lease new
  open_new-Effect addr port (ok lease) s e =
      let made : lease ≡ fresh addr port = ground arith in
      subst
        (λ l. IfOk (Effect opens addr port) (
          insert_on_ok list_rules apply show_addr conf (addr, port) l
            (add_lease list_rules apply show_addr conf l s)))
        (sym made)
        (inserted-Effect addr port (add_lease list_rules apply show_addr conf (fresh addr port) s))
  open_new-Effect addr port (err x) s e = tt
  open_new-Effect addr port panic s e = tt

  open_found-Effect :
      (addr : IpAddr) (port : LeasePort) (found : Option Lease) (s : State K)
      → lookup (addr, port) s.fw.leases ≡ found
      → IsSound conf s.fw
      → IfOk
          (Effect opens addr port)
          (open_found list_rules apply show_addr conf now (addr, port) found s)
  unfolding add_lease
  open_found-Effect addr port (some lease) s found v =
      lookup-inserted addr port (refresh_timeout conf now lease) s.fw.leases (
        refreshed conf addr port lease
          (AllEntries-lookup (LeaseOk conf) (addr, port) lease s.fw.leases v.leases_ok found).0)
  open_found-Effect addr port none s found v =
      open_new-Effect addr port (new conf now addr port) s refl

  open_port-Effect :
      (addr : IpAddr) (port : LeasePort) (s : State K)
      → Running list_rules apply show_addr conf s.fw
      → IfOk (Effect opens addr port) (open_port list_rules apply show_addr conf now addr port s)
  unfolding open_port
  open_port-Effect addr port s v =
      if_ok (Effect opens addr port) s.fw.is_shut_down _ _ v.1
        (open_found-Effect addr port (lookup (addr, port) s.fw.leases) s refl v.0)

  removed-Effect :
      (addr : IpAddr) (port : LeasePort) (fw : NftFirewall)
      (o : Result FwError (Unit {0}) × State K)
      → lookup (addr, port) fw.leases ≡ none
      → SameFw list_rules apply show_addr conf fw o
      → IfOk (Effect closes addr port) o
  removed-Effect addr port fw (ok _, s) h same = ap (lookup (addr, port)) same.0 ∙ h
  removed-Effect addr port fw (err _, s) h same = tt
  removed-Effect addr port fw (panic, s) h same = tt

  remove_one-Effect :
      (addr : IpAddr) (port : LeasePort) (made : Result FwError Lease) (s : State K)
      → lookup (addr, port) s.fw.leases ≡ none
      → IfOk (Effect closes addr port) (remove_one list_rules apply show_addr conf made s)
  unfolding remove_leases
  remove_one-Effect addr port (ok lease) s h =
      removed-Effect addr port s.fw (remove_leases list_rules apply show_addr conf (lease ∷ []) s) h
        (remove_leases-SameFw list_rules apply show_addr conf (lease ∷ []) s)
  remove_one-Effect addr port (err x) s h = tt
  remove_one-Effect addr port panic s h = tt

  close_found-Effect :
      (addr : IpAddr) (port : LeasePort) (found : Option Lease) (s : State K)
      → lookup (addr, port) s.fw.leases ≡ found
      → IsSound conf s.fw
      → IfOk
          (Effect closes addr port)
          (close_found list_rules apply show_addr conf now (addr, port) found s)
  unfolding remove_leases
  close_found-Effect addr port (some lease) s found v =
      let s' : State K = record s {
        fw = record s.fw { leases = remove (addr, port) s.fw.leases };
      } in
      removed-Effect addr port s'.fw (remove_leases list_rules apply show_addr conf (lease ∷ []) s')
        (lookup-remove_self (addr, port) s.fw.leases v.leases_distinct)
        (remove_leases-SameFw list_rules apply show_addr conf (lease ∷ []) s')
  close_found-Effect addr port none s found v =
      remove_one-Effect addr port (new conf now addr port) s found

  close_port-Effect :
      (addr : IpAddr) (port : LeasePort) (s : State K)
      → Running list_rules apply show_addr conf s.fw
      → IfOk (Effect closes addr port) (close_port list_rules apply show_addr conf now addr port s)
  unfolding close_port
  close_port-Effect addr port s v =
      if_ok (Effect closes addr port) s.fw.is_shut_down _ _ v.1
        (close_found-Effect addr port (lookup (addr, port) s.fw.leases) s refl v.0)

  -- The only reply that was sent is an acknowledgement.
  abbrev pub Acked : Handled list_rules apply show_addr conf now → Type 0
  Acked h = h.1 ≡ new_ack ∷ []

  ack_not_nack : new_ack ≢ new_nack
  unfolding new_ack new_nack
  ack_not_nack = λ e. cc

  nacked : {A : Type 0} → ◌≡◌ {A = List FirewallMessage} (new_nack ∷ []) (new_ack ∷ []) → A
  nacked e = absurd (ack_not_nack (ground (arith, e)))

  acknowledge-Effect :
      (P : NftFirewall → Type 0) (sends : Bool) (o : Result FwError (Unit {0}) × State K)
      → IfOk P o
      → Acked (acknowledge list_rules apply show_addr conf now sends o)
      → P (acknowledge list_rules apply show_addr conf now sends o).2.fw
  acknowledge-Effect P sends (ok _, s) h e = h
  acknowledge-Effect P sends (err _, s) h e = nacked e
  acknowledge-Effect P sends (panic, s) h e = cc

  -- What an acknowledged message has done, for the address and the port that its checks let through.
  abbrev pub Done : FirewallMessage → Result HandleError (IpAddr × LeasePort) → NftFirewall → Type 0
  Done msg checked fw =
      (addr : IpAddr) × (port : LeasePort) × (checked ≡ ok (addr, port))
      × Effect msg.operation addr port fw

  serve-Effect :
      (sends : Bool) (P : IpAddr → LeasePort → NftFirewall → Type 0)
      (operate : IpAddr → LeasePort → State K → Result FwError (Unit {0}) × State K)
      (checked : Result HandleError (IpAddr × LeasePort)) (s : State K)
      → ((addr : IpAddr) (port : LeasePort) → IfOk (P addr port) (operate addr port s))
      → Acked (serve list_rules apply show_addr conf now sends operate checked s)
      → (addr : IpAddr) × (port : LeasePort) × (checked ≡ ok (addr, port))
        × P addr port (serve list_rules apply show_addr conf now sends operate checked s).2.fw
  serve-Effect sends P operate (ok (addr, port)) s k e = (
    addr,
    port,
    refl,
    acknowledge-Effect (P addr port) sends (operate addr port s) (k addr port) e,
  )
  serve-Effect sends P operate (err x) s k e = nacked e
  serve-Effect sends P operate panic s k e = cc

  handle_operation-Done :
      (sends : Bool) (msg : FirewallMessage) (o : FirewallOperation) (s : State K)
      → Running list_rules apply show_addr conf s.fw
      → Acked (handle_operation list_rules apply show_addr conf now sends o msg s)
      → (addr : IpAddr) × (port : LeasePort) × (check_request conf msg ≡ ok (addr, port))
        × Effect o addr port
            (handle_operation list_rules apply show_addr conf now sends o msg s).2.fw
  handle_operation-Done sends msg opens s v e =
      serve-Effect sends (Effect opens) (open_port list_rules apply show_addr conf now)
        (check_request conf msg) s (λ addr port. open_port-Effect addr port s v) e
  handle_operation-Done sends msg closes s v e =
      serve-Effect sends (Effect closes) (close_port list_rules apply show_addr conf now)
        (check_request conf msg) s (λ addr port. close_port-Effect addr port s v) e
  handle_operation-Done sends msg ack s v e = cc
  handle_operation-Done sends msg nack s v e = cc

  -- When a running daemon acknowledges a message, the message passed all the checks, and the lease
  -- for its address and port is in the map with the full timeout (an Open), or is not in it (a
  -- Close).
  pub ack_means-Done :
      (msg : FirewallMessage) (sends : Bool) (s : State K)
      → Running list_rules apply show_addr conf s.fw
      → Acked (handle_message list_rules apply show_addr conf now (ok (some msg)) sends s)
      → Done msg
          (check_request conf msg)
          (handle_message list_rules apply show_addr conf now (ok (some msg)) sends s).2.fw
  unfolding handle_message
  ack_means-Done msg sends s v e = handle_operation-Done sends msg msg.operation s v e
