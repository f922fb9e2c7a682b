-- ===== src/Firewall/Invariant.antt =====
-- letmeinfwd: the leases stay sound and nothing panics, whatever messages come over the socket and
-- whatever `nft` does.
use letmein.Base.{
  ℕ, ◌+◌, ◌≡◌, refl, sym, ◌∙◌, subst, ◌≢◌, false, Option, none, some, List, [], ◌∷◌, arith, Result,
  ok, err, panic, Bool, true, if◌then◌else◌,
}
use letmein.Base.Assoc.{lookup, remove, Distinct}
use letmein.Base.Sums.{AllEntries, AllEntries-lookup}
use letmein.Base.Texts.{Text}
use letmein.Conf.{Config}
use letmein.Firewall.{new, id_has_eq, LeasePort, Lease, LeaseId, refresh_timeout}
use letmein.Firewall.Commands.{Rule, NfCmd, FwError}
use letmein.Firewall.Effects.{SameFw, add_lease-SameFw, remove_leases-SameFw}
use letmein.Firewall.Leases.{LeaseOk, IsSound, MayLease, insert-IsSound, remove-IsSound}
use letmein.Firewall.State.{
  open_port, close_port, NftFirewall, State, add_lease, remove_leases, insert_on_ok, open_found,
  close_found,
}
use letmein.FwProto.Fields.{IpAddr}

module _ {K : Type 0} (list_rules : K → Option (List Rule)) (apply : K → List NfCmd → Option K)
    (show_addr : IpAddr → Text) (conf : Config) where
  IsSound-leases :
      (fw fw' : NftFirewall) → fw'.leases ≡ fw.leases → IsSound conf fw → IsSound conf fw'
  IsSound-leases fw fw' h v = record {
    leases_ok = subst (AllEntries (LeaseOk conf)) (sym h) v.leases_ok;
    leases_distinct = subst Distinct (sym h) v.leases_distinct;
  }

  -- The daemon is running, and its leases are sound.
  abbrev pub Running : NftFirewall → Type 0
  Running fw = IsSound conf fw × (fw.is_shut_down ≡ false)

  -- It still is behind the call, which has not panicked.
  abbrev pub StillRunning : {E : Type 0} → Result E (Unit {0}) × State K → Type 0
  StillRunning o = Running o.1.fw × (o.0 ≢ panic)

  SameFw-StillRunning :
      (fw : NftFirewall) (o : Result FwError (Unit {0}) × State K)
      → Running fw
      → SameFw list_rules apply show_addr conf fw o
      → StillRunning o
  SameFw-StillRunning fw o v h = ((IsSound-leases fw o.1.fw h.0 v.0, h.1 ∙ v.1), h.2)

  pub new_lease :
      (now : ℕ) (addr : IpAddr) (port : LeasePort)
      → MayLease conf port
      → new {E = FwError} conf now addr port
        ≡ ok (record { addr = addr; lease_port = port; timeout = now + conf.nft_timeout })
  unfolding new
  new_lease now addr port h = ground (arith, h.1)

  insert_on_ok-StillRunning :
      (id : LeaseId) (lease : Lease) (o : Result FwError (Unit {0}) × State K)
      → LeaseOk conf id lease
      → StillRunning o
      → StillRunning (insert_on_ok list_rules apply show_addr conf id lease o)
  insert_on_ok-StillRunning id lease (ok u, s) h v =
      ((insert-IsSound conf id lease s.fw h v.0.0, v.0.1), λ x. cc)
  insert_on_ok-StillRunning id lease (err e, s) h v = v
  insert_on_ok-StillRunning id lease (panic, s) h v = v

  if_running :
      {E : Type 0} (b : Bool) (x y : Result E (Unit {0}) × State K)
      → b ≡ false
      → StillRunning y
      → StillRunning (if b then x else y)
  if_running true x y h v = cc
  if_running false x y h v = v

  -- The lease that `Lease::new` makes.
  abbrev fresh : ℕ → IpAddr → LeasePort → Lease
  fresh now addr port = record { addr = addr; lease_port = port; timeout = now + conf.nft_timeout }

  open_found-StillRunning :
      (now : ℕ) (addr : IpAddr) (port : LeasePort) (found : Option Lease) (s : State K)
      → lookup (addr, port) s.fw.leases ≡ found
      → MayLease conf port
      → Running s.fw
      → StillRunning (open_found list_rules apply show_addr conf now (addr, port) found s)
  unfolding add_lease
  open_found-StillRunning now addr port (some lease) s found may v = (
    (
      insert-IsSound conf (addr, port) (refresh_timeout conf now lease) s.fw
          (AllEntries-lookup (LeaseOk conf) (addr, port) lease s.fw.leases v.0.leases_ok found) v.0,
      v.1,
    ),
    λ x. cc,
  )
  open_found-StillRunning now addr port none s found may v = rw (new_lease now addr port may) (
      insert_on_ok-StillRunning (addr, port) (fresh now addr port)
        (add_lease list_rules apply show_addr conf (fresh now addr port) s) (refl, may.0, may.1)
        (SameFw-StillRunning s.fw
          (add_lease list_rules apply show_addr conf (fresh now addr port) s) v
          (add_lease-SameFw list_rules apply show_addr conf (fresh now addr port) s)))

  pub open_port-StillRunning :
      (now : ℕ) (addr : IpAddr) (port : LeasePort) (s : State K)
      → MayLease conf port
      → Running s.fw
      → StillRunning (open_port list_rules apply show_addr conf now addr port s)
  unfolding open_port
  open_port-StillRunning now addr port s may v =
      if_running s.fw.is_shut_down (panic, s)
        (open_found list_rules apply show_addr conf now (addr, port)
          (lookup (addr, port) s.fw.leases) s)
        v.1 (open_found-StillRunning now addr port (lookup (addr, port) s.fw.leases) s refl may v)

  remove-StillRunning :
      (lease : Lease) (s : State K)
      → Running s.fw
      → StillRunning (remove_leases list_rules apply show_addr conf (lease ∷ []) s)
  remove-StillRunning lease s v =
      SameFw-StillRunning s.fw (remove_leases list_rules apply show_addr conf (lease ∷ []) s) v
        (remove_leases-SameFw list_rules apply show_addr conf (lease ∷ []) s)

  close_found-StillRunning :
      (now : ℕ) (addr : IpAddr) (port : LeasePort) (found : Option Lease) (s : State K)
      → MayLease conf port
      → Running s.fw
      → StillRunning (close_found list_rules apply show_addr conf now (addr, port) found s)
  unfolding remove_leases
  close_found-StillRunning now addr port (some lease) s may v =
      remove-StillRunning lease
        (record s { fw = record s.fw { leases = remove (addr, port) s.fw.leases } })
        (remove-IsSound conf (addr, port) s.fw v.0, v.1)
  close_found-StillRunning now addr port none s may v =
      rw (new_lease now addr port may) (remove-StillRunning (fresh now addr port) s v)

  pub close_port-StillRunning :
      (now : ℕ) (addr : IpAddr) (port : LeasePort) (s : State K)
      → MayLease conf port
      → Running s.fw
      → StillRunning (close_port list_rules apply show_addr conf now addr port s)
  unfolding close_port
  close_port-StillRunning now addr port s may v =
      if_running s.fw.is_shut_down (panic, s)
        (close_found list_rules apply show_addr conf now (addr, port)
          (lookup (addr, port) s.fw.leases) s)
        v.1 (close_found-StillRunning now addr port (lookup (addr, port) s.fw.leases) s may v)
