-- ===== src/Firewall/Deletion.antt =====
-- letmeinfwd/src/firewall/nftables.rs: a lease's delete commands remove the lease's own rules.
use mathlib.Core.List.{append_assoc, Mem, mem-cons_self, mem-cons_of_mem}
use letmein.Base.{
  list_has_eq, ℕ, ◌≡◌, ◌≢◌, [], ◌∷◌, ◌++◌, arith, All, ◌^◌, ◌≤◌, ◌<◌, refl, sym, subst, ap, ◌∙◌,
  Option, none, some, List, ◌⊎◌, inl, inr, list_eq_iff,
}
use letmein.Base.Texts.{Text, text, decimal, decimal-injective, digits_plain}
use letmein.Firewall.{Lease, SingleLeasePort, single_tcp, single_udp}
use letmein.Firewall.Commands.{
  Rule, NftNames, single_ports, show_port, show_source, gen_rule_comment, rule_handle, or_else,
  find_handle, family_eq_iff,
}
use letmein.FwProto.Fields.{IpAddr}

-- What the standard library's `Display` of an address gives: different texts for different
-- addresses, without a `/`, and never the word that stands for no address.
pub record ShowsAddr (show_addr : IpAddr → Text) : Type 0 where
  pub shows_injective : (a b : IpAddr) → show_addr a ≡ show_addr b → a ≡ b
  pub shows_no_slash : (a : IpAddr) → All (λ c. c ≢ 47) (show_addr a)
  pub shows_not_any : (a : IpAddr) → show_addr a ≢ text "any"

-- The part before the first `/` determines itself.
split_slash :
    (x y : Text) {r s : Text}
    → All (λ c. c ≢ 47) x
    → All (λ c. c ≢ 47) y
    → x ++ (47 ∷ r) ≡ y ++ (47 ∷ s)
    → (x ≡ y) × (r ≡ s)
split_slash [] [] hx hy e = ground arith
split_slash [] (b ∷ y) hx hy e = ground arith
split_slash (a ∷ x) [] hx hy e = ground arith
split_slash (a ∷ x) (b ∷ y) {r} {s} hx hy e =
    let rest = split_slash x y {r = r} {s = s} hx.1 hy.1 (cc) in (cc, rest.1)

abbrev pub single_number : SingleLeasePort → ℕ
single_number (single_tcp p) = p
single_number (single_udp p) = p

plain_no_slash : (x : Text) → All (λ c. 48 ≤ c) x → All (λ c. c ≢ 47) x
plain_no_slash [] h = tt
plain_no_slash (c ∷ x) h = ((λ e. absurd (omega (arith, h.0, e))), plain_no_slash x h.1)

-- What follows the number in the text of a port.
abbrev after_number : SingleLeasePort → Text
after_number (single_tcp p) = text "TCP/accept/letmein/GENERATED"
after_number (single_udp p) = text "UDP/accept/letmein/GENERATED"

show_port_split :
    (p : SingleLeasePort)
    → show_port p ++ text "/accept/letmein/GENERATED"
      ≡ decimal (single_number p) ++ (47 ∷ after_number p)
unfolding show_port
show_port_split (single_tcp p) =
    append_assoc (decimal p) (text "/TCP") (text "/accept/letmein/GENERATED")
show_port_split (single_udp p) =
    append_assoc (decimal p) (text "/UDP") (text "/accept/letmein/GENERATED")

abbrev first : Text → ℕ
first [] = 0
first (c ∷ x) = c

port_injective :
    (p q : SingleLeasePort)
    → single_number p ≡ single_number q
    → after_number p ≡ after_number q
    → p ≡ q
port_injective (single_tcp p) (single_tcp q) h e = ap single_tcp h
port_injective (single_udp p) (single_udp q) h e = ap single_udp h
port_injective (single_tcp p) (single_udp q) h e = absurd (omega (arith, ap first e))
port_injective (single_udp p) (single_tcp q) h e = absurd (omega (arith, ap first e))

module _ (show_addr : IpAddr → Text) (shows : ShowsAddr show_addr) where
  source_no_slash : (a : Option IpAddr) → All (λ c. c ≢ 47) (show_source show_addr a)
  source_no_slash none = ground arith
  source_no_slash (some a) = shows.shows_no_slash a

  source_injective :
      (a b : Option IpAddr) → show_source show_addr a ≡ show_source show_addr b → a ≡ b
  source_injective none none e = refl
  source_injective none (some b) e = absurd (shows.shows_not_any b (sym e))
  source_injective (some a) none e = absurd (shows.shows_not_any a e)
  source_injective (some a) (some b) e = ap some (shows.shows_injective a b e)

  comment_split :
      (a : Option IpAddr) (p : SingleLeasePort)
      → gen_rule_comment show_addr a p
        ≡ show_source show_addr a ++ (47 ∷ (decimal (single_number p) ++ (47 ∷ after_number p)))
  unfolding gen_rule_comment
  comment_split a p =
      append_assoc (show_source show_addr a) (text "/")
        (show_port p ++ text "/accept/letmein/GENERATED")
      ∙ ap (λ x. show_source show_addr a ++ (47 ∷ x)) (show_port_split p)

  -- The comment of a rule identifies its address, or that it has none, and its port with the
  -- protocol.
  pub gen_rule_comment-injective :
      (a b : Option IpAddr) (p q : SingleLeasePort)
      → single_number p < 2 ^ 16
      → single_number q < 2 ^ 16
      → gen_rule_comment show_addr a p ≡ gen_rule_comment show_addr b q
      → (a ≡ b) × (p ≡ q)
  gen_rule_comment-injective a b p q hp hq e =
      let whole =
        split_slash (show_source show_addr a) (show_source show_addr b) (source_no_slash a)
          (source_no_slash b) (sym (comment_split a p) ∙ e ∙ comment_split b q) in
      let number =
        split_slash (decimal (single_number p)) (decimal (single_number q))
          (plain_no_slash _ (digits_plain 5 (single_number p)))
          (plain_no_slash _ (digits_plain 5 (single_number q))) whole.1 in
      (
        source_injective a b whole.0,
        port_injective p q
            (decimal-injective (single_number p) (single_number q) (omega (arith, hp))
              (omega (arith, hq)) number.0)
            number.1,
      )

  abbrev addr_or : IpAddr → Option IpAddr → IpAddr
  addr_or a none = a
  addr_or a (some b) = b

  -- The rule of the kernel's list that a handle was taken from.
  abbrev pub FoundRule : List Rule → NftNames → IpAddr → SingleLeasePort → ℕ → Type 0
  FoundRule rules names addr p h =
      (rule : Rule) × Mem rule rules
      × (rule.handle ≡ some h)
      × (rule.comment ≡ some (gen_rule_comment show_addr (some addr) p))
      × (rule.family ≡ names.names_family)
      × (rule.table ≡ names.names_table)
      × (rule.chain ≡ names.names_chain)

  rule_handle-Found :
      (rules : List Rule) (rule : Rule) (handle : Option ℕ) (comment : Option Text)
      (names : NftNames) (addr : IpAddr) (p : SingleLeasePort) (h : ℕ)
      → rule.handle ≡ handle
      → rule.comment ≡ comment
      → rule_handle show_addr rule handle comment names addr p ≡ some h
      → FoundRule (rule ∷ rules) names addr p h
  rule_handle-Found rules rule (some j) (some comment) names addr p h eh ec e =
      let facts : (rule.handle ≡ some h)
          × (rule.comment ≡ some (gen_rule_comment show_addr (some addr) p))
          × (rule.family ≡ names.names_family)
          × (rule.table ≡ names.names_table)
          × (rule.chain ≡ names.names_chain) =
        ground (
          arith,
          family_eq_iff rule.family names.names_family,
          list_eq_iff rule.table names.names_table,
          list_eq_iff rule.chain names.names_chain,
          list_eq_iff comment (gen_rule_comment show_addr (some addr) p),
        ) in
      (rule, mem-cons_self, facts.0, facts.1, facts.2, facts.3, facts.4)
  rule_handle-Found rules rule (some j) none names addr p h eh ec e = cc
  rule_handle-Found rules rule none comment names addr p h eh ec e = cc

  or_else-cases : (a b : Option ℕ) (h : ℕ) → or_else a b ≡ some h → (a ≡ some h) ⊎ (b ≡ some h)
  or_else-cases none b h e = inr e
  or_else-cases (some a) b h e = inl e

  find_handle-FoundRule :
      (rules : List Rule) (names : NftNames) (addr : IpAddr) (p : SingleLeasePort) (h : ℕ)
      → find_handle show_addr rules names addr p ≡ some h
      → FoundRule rules names addr p h
  unfolding find_handle
  find_handle-FoundRule [] names addr p h e = cc
  find_handle-FoundRule (rule ∷ rules) names addr p h e = elim (or_else-cases _ _ h e) [
    | inl here ↦ rule_handle-Found rules rule rule.handle rule.comment names addr p h refl refl here
    | inr there ↦
        let found = find_handle-FoundRule rules names addr p h there in
        (found.0, mem-cons_of_mem rule found.1, found.2, found.3, found.4, found.5, found.6)
  ]

  -- The handle that the daemon deletes for an address and a single port is that of a rule of the
  -- configured chain. No rule that the program makes for another address, for another port or
  -- protocol or for a control port has this rule's comment; and every lease that makes a rule with
  -- this comment is one of this address, with this port and protocol among its own. The rule may be
  -- that of another such lease. The ports are numbers of 16 bits.
  pub delete_own_rule :
      (rules : List Rule) (names : NftNames) (addr : IpAddr) (p : SingleLeasePort) (h : ℕ)
      → single_number p < 2 ^ 16
      → find_handle show_addr rules names addr p ≡ some h
      → (found : FoundRule rules names addr p h) × ((b : Option IpAddr) (q : SingleLeasePort)
          → single_number q < 2 ^ 16
          → found.0.comment ≡ some (gen_rule_comment show_addr b q)
          → (b ≡ some addr) × (q ≡ p))
        × ((lease : Lease) (q : SingleLeasePort)
            → single_number q < 2 ^ 16
            → Mem q (single_ports lease.lease_port)
            → found.0.comment ≡ some (gen_rule_comment show_addr (some lease.addr) q)
            → (lease.addr ≡ addr) × Mem p (single_ports lease.lease_port))
  delete_own_rule rules names addr p h hp e =
      let found = find_handle-FoundRule rules names addr p h e in
      let same =
        λ (b : Option IpAddr) (q : SingleLeasePort) (hq : single_number q < 2 ^ 16)
            (c : found.0.comment ≡ some (gen_rule_comment show_addr b q)).
          gen_rule_comment-injective b (some addr) q p hq hp (ground (arith, found.3, c)) in
      (
        found,
        same,
        λ lease q hq own c.
            let is = same (some lease.addr) q hq c in
            (
              ap (addr_or lease.addr) is.0,
              subst (λ x. Mem x (single_ports lease.lease_port)) is.1 own,
            ),
      )
