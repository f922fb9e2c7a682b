-- ===== src/Firewall/Kernel.antt =====
-- The kernel's side of letmeinfwd/src/firewall/nftables.rs: what `nft` documents of a listing and of
-- a batch, for the one chain that the configuration names, and the rules that the leases ask for.
pub mod Adding
pub mod Generated
pub mod Finding
pub mod Deleting
pub mod Applied
pub mod Removing
pub mod Rebuilt
pub mod Stray
pub mod Keeping
pub mod Leased
pub mod Emptied
use letmein.Base.{
  list_has_eq, ℕ, ◌+◌, ◌≤◌, ◌≡◌, ◌≢◌, Bool, true, false, ◌&&◌, Option, none, some, List, [], ◌∷◌,
  ◌++◌, All, if◌then◌else◌, ◌==◌,
}
use letmein.Base.Sums.{total}
use letmein.Base.Texts.{Text}
use letmein.Conf.{Config}
use letmein.Firewall.{SingleLeasePort, Lease, LeaseMap}
use letmein.Firewall.Commands.{
  family_eq, Rule, NfCmd, add_rule, delete_rule, flush_chain, NftNames, single_ports,
  gen_rule_comment,
}
use letmein.Firewall.State.{control_ports, NftFirewall}
use letmein.FwProto.Fields.{IpAddr}

abbrev pub in_chain : NftNames → Rule → Bool
in_chain names rule =
    family_eq rule.family names.names_family
    && rule.table == names.names_table
    && rule.chain == names.names_chain

-- The rules of the chain in a listing of all rules
unfoldable pub chain_of : NftNames → List Rule → List Rule
chain_of names [] = []
chain_of names (rule ∷ rules) =
    if in_chain names rule then rule ∷ chain_of names rules else chain_of names rules

-- The command is about the chain.
abbrev pub Addresses : NftNames → NfCmd → Type 0
Addresses names (add_rule rule) = in_chain names rule ≡ true
Addresses names (delete_rule rule) = in_chain names rule ≡ true
Addresses names (flush_chain family table chain) =
    (family ≡ names.names_family) × (table ≡ names.names_table) × (chain ≡ names.names_chain)

-- What one command does to the chain: a new rule stands last, under a handle that no rule has; a
-- rule is deleted by its handle.
abbrev pub Change : List Rule → NfCmd → List Rule → Type 0
Change rules (add_rule rule) rules' =
    (h : ℕ) × All (λ r. r.handle ≢ some h) rules
    × (rules' ≡ rules ++ ((record rule { handle = some h }) ∷ []))
Change rules (delete_rule rule) rules' =
    (before after : List Rule) × (gone : Rule) × (rules ≡ before ++ (gone ∷ after))
    × (gone.handle ≡ rule.handle)
    × (rules' ≡ before ++ after)
Change rules (flush_chain family table chain) rules' = rules' ≡ []

abbrev pub Batch : List Rule → List NfCmd → List Rule → Type 0
Batch rules [] rules' = rules' ≡ rules
Batch rules (cmd ∷ cmds) rules' = (mid : List Rule) × Change rules cmd mid × Batch mid cmds rules'

-- The documented behaviour of `nft`, where `chain k` are the chain's rules in the kernel `k`.
pub record Nft {K : Type 0} (list_rules : K → Option (List Rule))
    (apply : K → List NfCmd → Option K) (names : NftNames) (chain : K → List Rule) : Type 0 where
  pub lists :
      (k : K) (rules : List Rule) → list_rules k ≡ some rules → chain_of names rules ≡ chain k
  pub applies :
      (k k' : K) (cmds : List NfCmd)
      → All (Addresses names) cmds
      → apply k cmds ≡ some k'
      → Batch (chain k) cmds (chain k')

-- Each rule has a handle, and no two have the same.
abbrev pub HaveHandles : List Rule → Type 0
HaveHandles [] = Unit {0}
HaveHandles (rule ∷ rules) =
    ((h : ℕ) × (rule.handle ≡ some h) × All (λ r. r.handle ≢ some h) rules) × HaveHandles rules

abbrev pub bit : Bool → ℕ
bit true = 1
bit false = 0

abbrev pub has_comment : Text → Option Text → Bool
has_comment c none = false
has_comment c (some d) = d == c

-- How many of the rules have the comment, and how many of the texts are it
unfoldable pub count_rules : Text → List Rule → ℕ
count_rules c [] = 0
count_rules c (rule ∷ rules) = bit (has_comment c rule.comment) + count_rules c rules

unfoldable pub count_texts : Text → List Text → ℕ
count_texts c [] = 0
count_texts c (d ∷ ds) = bit (d == c) + count_texts c ds

module _ (show_addr : IpAddr → Text) where
  abbrev pub comments : Option IpAddr → List SingleLeasePort → List Text
  comments addr [] = []
  comments addr (p ∷ ps) = gen_rule_comment show_addr addr p ∷ comments addr ps

  abbrev pub lease_comments : Lease → List Text
  lease_comments lease = comments (some lease.addr) (single_ports lease.lease_port)

  -- How many rules with the comment the leases of a running daemon ask for
  abbrev pub leased : Text → LeaseMap → ℕ
  leased c leases = total (λ lease. count_texts c (lease_comments lease)) leases
