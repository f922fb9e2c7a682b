-- ===== src/Firewall/Commands.antt =====
-- letmeinfwd/src/firewall/nftables.rs: the rules and the commands that the firewall daemon sends to
-- `nft`. The types of the `nftables` crate are written as far as the program fills them in.
-- `show_addr` is the standard library's `Display` of an `IpAddr`.
use letmein.Base.{
  ℕ, Bool, true, false, not, ◌&&◌, Option, none, some, List, [], ◌∷◌, ◌++◌, if◌then◌else◌, take,
  drop, replicate, ◌==◌, Result, ok, guard, or_fail, list_has_eq, ◌>>=◌, ◌>>◌, ◌≡◌, ◌↔◌, arith,
}
use letmein.Base.Bytes.{Bytes}
use letmein.Base.Texts.{Text, text, decimal}
use letmein.Conf.{Config}
use letmein.Firewall.{
  LeasePort, lease_tcp, lease_udp, lease_tcp_udp, SingleLeasePort, single_tcp, single_udp, Lease,
}
use letmein.FwProto.Fields.{IpAddr, v4, v6}

pub data Family : Type 0 where
  inet ip ip6 : Family

-- `NfFamily`
unfoldable pub family_eq : Family → Family → Bool
family_eq inet inet = true
family_eq ip ip = true
family_eq ip6 ip6 = true
family_eq _ _ = false

pub family_eq_iff : (f g : Family) → (family_eq f g ≡ true) ↔ (f ≡ g)
unfolding family_eq
family_eq_iff f g = ground arith

pub data Value : Type 0 where
  string_value : Text → Value
  number_value : ℕ → Value

-- `Statement`: a match of a payload field with a value, and `accept`
pub data Statement : Type 0 where
  payload_match : (protocol field : Text) (right : Value) → Statement
  accept_statement : Statement

pub record Rule : Type 0 where
  pub family : Family
  pub table : Text
  pub chain : Text
  pub expr : List Statement
  pub handle : Option ℕ
  pub comment : Option Text

pub data NfCmd : Type 0 where
  add_rule delete_rule : Rule → NfCmd
  flush_chain : (family : Family) (table chain : Text) → NfCmd

-- The errors, in place of their texts.
pub data FwError : Type 0 where
  unknown_family no_table no_chain version_not_supported handle_not_found list_failed apply_failed
        nft_not_executed :
      FwError

pub record NftNames : Type 0 where
  pub names_family : Family
  pub names_table : Text
  pub names_chain : Text

abbrev pub family_of : Text → Option Family
family_of name =
    if name == text "inet"
    then some inet
    else if name == text "ip"
    then some ip
    else if name == text "ip6"
    then some ip6
    else none

-- `NftNames::get`
unfoldable pub get_names : Config → Result FwError NftNames
get_names conf = do
  family ← or_fail (family_of conf.nft_family) unknown_family
  guard (not (conf.nft_table == [])) no_table
  guard (not (conf.nft_chain_input == [])) no_chain
  ok (record {
    names_family = family;
    names_table = conf.nft_table;
    names_chain = conf.nft_chain_input;
  })

-- `Ipv6Addr::to_ipv4_mapped`
unfoldable pub to_ipv4_mapped : Bytes → Option Bytes
to_ipv4_mapped o =
    if take 12 o == replicate 10 0 ++ (0xFF ∷ 0xFF ∷ []) then some (drop 12 o) else none

abbrev has_v4 : Family → Bool
has_v4 inet = true
has_v4 ip = true
has_v4 ip6 = false

abbrev has_v6 : Family → Bool
has_v6 inet = true
has_v6 ip = false
has_v6 ip6 = true

-- The protocol and the address of a match on the source.
abbrev pub saddr_of : Family → IpAddr → Result FwError (Text × IpAddr)
saddr_of family (v4 o) = do guard (has_v4 family) version_not_supported; ok (text "ip", v4 o)
saddr_of family (v6 o) = mapped (to_ipv4_mapped o)
  where
    mapped : Option Bytes → Result FwError (Text × IpAddr)
    mapped (some o4) = do guard (has_v4 family) version_not_supported; ok (text "ip", v4 o4)
    mapped none = do guard (has_v6 family) version_not_supported; ok (text "ip6", v6 o)

-- `statement_match_dport`
unfoldable pub statement_match_dport : SingleLeasePort → Statement
statement_match_dport (single_tcp p) = payload_match (text "tcp") (text "dport") (number_value p)
statement_match_dport (single_udp p) = payload_match (text "udp") (text "dport") (number_value p)

-- `Display for SingleLeasePort`
unfoldable pub show_port : SingleLeasePort → Text
show_port (single_tcp p) = decimal p ++ text "/TCP"
show_port (single_udp p) = decimal p ++ text "/UDP"

-- The single ports of a lease, in the order in which the code goes through them.
abbrev pub single_ports : LeasePort → List SingleLeasePort
single_ports (lease_tcp p) = single_tcp p ∷ []
single_ports (lease_udp p) = single_udp p ∷ []
single_ports (lease_tcp_udp p) = single_tcp p ∷ single_udp p ∷ []

abbrev pub or_else : Option ℕ → Option ℕ → Option ℕ
or_else none o = o
or_else (some h) o = some h

-- The rule of a delete command
abbrev pub rule_with_handle : NftNames → ℕ → Rule
rule_with_handle names h = record {
  family = names.names_family;
  table = names.names_table;
  chain = names.names_chain;
  expr = [];
  handle = some h;
  comment = none;
}

abbrev pub with_delete : NftNames → Option ℕ → List NfCmd → List NfCmd
with_delete names none cmds = cmds
with_delete names (some h) cmds = delete_rule (rule_with_handle names h) ∷ cmds

module _ (show_addr : IpAddr → Text) where
  -- `statement_match_saddr`
  unfoldable pub statement_match_saddr : Family → IpAddr → Result FwError Statement
  statement_match_saddr family addr = do
    (protocol, a) ← saddr_of family addr
    ok (payload_match protocol (text "saddr") (string_value (show_addr a)))

  abbrev pub show_source : Option IpAddr → Text
  show_source (some addr) = show_addr addr
  show_source none = text "any"

  -- `gen_rule_comment`
  unfoldable pub gen_rule_comment : Option IpAddr → SingleLeasePort → Text
  gen_rule_comment addr port =
      (show_source addr ++ text "/") ++ (show_port port ++ text "/accept/letmein/GENERATED")

  abbrev pub source_matches : Family → Option IpAddr → Result FwError (List Statement)
  source_matches family none = ok []
  source_matches family (some addr) = do m ← statement_match_saddr family addr; ok (m ∷ [])

  -- `gen_add_lease_cmd`
  unfoldable pub gen_add_lease_cmd : Config → Option IpAddr → SingleLeasePort → Result FwError NfCmd
  gen_add_lease_cmd conf addr port = do
    names ← get_names conf
    source ← source_matches names.names_family addr
    ok (
        add_rule (record {
          family = names.names_family;
          table = names.names_table;
          chain = names.names_chain;
          expr = source ++ (statement_match_dport port ∷ accept_statement ∷ []);
          handle = none;
          comment = some (gen_rule_comment addr port);
        }))

  abbrev pub gen_each : Config → Option IpAddr → List SingleLeasePort → Result FwError (List NfCmd)
  gen_each conf addr [] = ok []
  gen_each conf addr (p ∷ ps) = do
    cmd ← gen_add_lease_cmd conf addr p
    cmds ← gen_each conf addr ps
    ok (cmd ∷ cmds)

  -- `gen_add_lease_cmds`
  unfoldable pub gen_add_lease_cmds : Config → Lease → Result FwError (List NfCmd)
  unfolding gen_add_lease_cmd
  gen_add_lease_cmds conf lease = gen_each conf (some lease.addr) (single_ports lease.lease_port)

  -- The handle of a rule, if it has one, has a comment, and is that of the address and the port.
  abbrev pub rule_handle :
      Rule → Option ℕ → Option Text → NftNames → IpAddr → SingleLeasePort → Option ℕ
  rule_handle rule (some h) (some comment) names addr port =
      if family_eq rule.family names.names_family
        && rule.table == names.names_table
        && rule.chain == names.names_chain
        && comment == gen_rule_comment (some addr) port
      then some h
      else none
  rule_handle rule _ _ names addr port = none

  -- `find_handle`, in the rules that the kernel lists
  unfoldable pub find_handle : List Rule → NftNames → IpAddr → SingleLeasePort → Option ℕ
  unfolding gen_rule_comment
  find_handle [] names addr port = none
  find_handle (rule ∷ rules) names addr port =
      or_else (rule_handle rule rule.handle rule.comment names addr port)
        (find_handle rules names addr port)

  abbrev pub delete_each : List Rule → NftNames → IpAddr → List SingleLeasePort → List NfCmd
  delete_each rules names addr [] = []
  delete_each rules names addr (p ∷ ps) =
      with_delete names (find_handle rules names addr p) (delete_each rules names addr ps)

  -- `gen_delete_lease_cmds`: a rule without a handle is left out.
  unfoldable pub gen_delete_lease_cmds : List Rule → Config → Lease → Result FwError (List NfCmd)
  unfolding find_handle
  gen_delete_lease_cmds rules conf lease = do
    names ← get_names conf
    ok (delete_each rules names lease.addr (single_ports lease.lease_port))
