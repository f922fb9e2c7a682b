-- ===== src/Firewall/Kernel/Emptied.antt =====
-- letmeinfwd/src/firewall/nftables.rs: what the shutdown does to the chain, whatever `nft` answers.
use letmein.Base.{
  ◌≡◌, refl, ◌≢◌, ap, ◌∙◌, ◌⊎◌, inl, inr, Bool, true, false, Option, none, some, List, [], ◌∷◌,
  if◌then◌else◌, Result, ok, err, panic, is_ok, ◌>>=◌,
}
use letmein.Base.Texts.{Text}
use letmein.Conf.{Config}
use letmein.Firewall.Commands.{Rule, NfCmd, flush_chain, FwError, NftNames, get_names}
use letmein.Firewall.Effects.{full_rebuild-SameFw}
use letmein.Firewall.Kernel.{Nft}
use letmein.Firewall.State.{
  State, applied, apply_result, rebuild_cmds, apply_batch, full_rebuild, shutdown,
}
use letmein.FwProto.Fields.{IpAddr}

module _ {K : Type 0} (list_rules : K → Option (List Rule)) (apply : K → List NfCmd → Option K)
    (show_addr : IpAddr → Text) (conf : Config) (chain : K → List Rule)
    (nft : (names : NftNames) → get_names conf ≡ ok names → Nft list_rules apply names chain) where
  abbrev flush_of : NftNames → NfCmd
  flush_of names = flush_chain names.names_family names.names_table names.names_chain

  -- Why the flush of a chain in the kernel `k` has failed
  abbrev pub FlushFails : K → Type 0
  FlushFails k =
      (is_ok (get_names conf) ≡ false)
      ⊎ ((names : NftNames) × (get_names conf ≡ ok names) × (apply k (flush_of names ∷ []) ≡ none))

  -- Success and an empty chain, or an error and the chain as it was
  abbrev pub Flushed : K → Result FwError (Unit {0}) × State K → Type 0
  Flushed k o =
      ((o.0 ≡ ok tt) × (chain o.1.kernel ≡ [])) ⊎ ((o.0 ≢ ok tt) × (o.1.kernel ≡ k) × FlushFails k)

  applied-Flushed :
      (names : NftNames) (s : State K) (o : Option K)
      → get_names conf ≡ ok names
      → apply s.kernel (flush_of names ∷ []) ≡ o
      → Flushed s.kernel (applied list_rules apply show_addr conf o s)
  applied-Flushed names s none named e = inr ((λ x. cc), refl, inr (names, named, e))
  applied-Flushed names s (some k) named e =
      let batch =
        (nft names named).applies s.kernel k (flush_of names ∷ []) ((refl, refl, refl), tt) e in
      inl (refl, batch.2 ∙ batch.1)

  apply_result-Flushed :
      (r : Result FwError NftNames) (s : State K)
      → get_names conf ≡ r
      → Flushed s.kernel
          (apply_result list_rules apply show_addr conf (r >>= λ names. ok (flush_of names ∷ [])) s)
  unfolding apply_batch
  apply_result-Flushed (ok names) s e =
      applied-Flushed names s (apply s.kernel (flush_of names ∷ [])) e refl
  apply_result-Flushed (err x) s e = inr ((λ q. cc), refl, inl (ap is_ok e))
  apply_result-Flushed panic s e = inr ((λ q. cc), refl, inl (ap is_ok e))

  abbrev IsEmptied : K → Result FwError (Unit {0}) × State K → Type 0
  IsEmptied k o = (o.1.fw.leases ≡ []) × (o.1.fw.is_shut_down ≡ true) × (o.0 ≢ panic) × Flushed k o

  if_IsEmptied :
      (b : Bool) (k : K) (x y : Result FwError (Unit {0}) × State K)
      → b ≡ false
      → IsEmptied k y
      → IsEmptied k (if b then x else y)
  if_IsEmptied true k x y h v = cc
  if_IsEmptied false k x y h v = v

  -- Shutting down a running daemon always leaves it without leases and marked as shut down, and does
  -- not panic. Where it reports success the chain is empty, when `nft` does what it documents; else
  -- the kernel is as it was, and either the configuration does not name the chain or `nft` has
  -- refused the flush of it.
  pub shutdown-IsEmptied :
      (s : State K)
      → s.fw.is_shut_down ≡ false
      → let o = shutdown list_rules apply show_addr conf s in
        (o.1.fw.leases ≡ []) × (o.1.fw.is_shut_down ≡ true) × (o.0 ≢ panic) × Flushed s.kernel o
  unfolding shutdown full_rebuild rebuild_cmds
  shutdown-IsEmptied s h =
      let down : State K = record s { fw = record s.fw { leases = []; is_shut_down = true } } in
      let same = full_rebuild-SameFw list_rules apply show_addr conf down in
      if_IsEmptied s.fw.is_shut_down s.kernel (panic, s) _ h
        (same.0, same.1, same.2, apply_result-Flushed (get_names conf) _ refl)
