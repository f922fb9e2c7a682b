-- ===== src/Tests/Daemon.antt =====
-- letmeinfwd: requests, maintenance and the deletion of rules over a small kernel.
use letmein.Base.{
  list_has_eq, nat_has_eq, ℕ, ◌+◌, ◌^◌, ◌<◌, ◌≡◌, refl, ◌≢◌, true, false, Option, none, some, List,
  [], ◌∷◌, ◌++◌, arith, if◌then◌else◌, length, All, list_eq, ok, panic,
}
use letmein.Base.Assoc.{lookup}
use letmein.Base.Bytes.{Bytes}
use letmein.Base.Texts.{Text, text, digits}
use letmein.Conf.{port_resource, always, off, server_variant, Config, resource_id_by_port}
use letmein.Firewall.{
  id_has_eq, new, lease_tcp, SingleLeasePort, single_tcp, single_udp, Lease, LeaseId, is_timed_out,
}
use letmein.Firewall.Acknowledged.{Acked, Done, ack_means-Done}
use mathlib.Core.List.{Mem}
use letmein.Firewall.Commands.{
  single_ports, inet, family_eq, Rule, NfCmd, add_rule, delete_rule, flush_chain, NftNames,
  get_names, show_port, statement_match_saddr, gen_rule_comment, gen_add_lease_cmd,
  gen_add_lease_cmds, find_handle,
}
use letmein.Firewall.Deletion.{ShowsAddr, single_number, FoundRule, delete_own_rule}
use letmein.Firewall.Invariant.{Running, StillRunning}
use letmein.Firewall.Maintenance.{maintain_leases}
use letmein.Firewall.Server.{addr_check, check_request, handle_message}
use letmein.Firewall.Service.{handle_message_safe}
use letmein.Firewall.State.{open_port, State, add_lease, maintain}
use letmein.FwProto.Fields.{tcp, IpAddr, v4, v6}
use letmein.FwProto.Message.{addr_to_octets, octets_to_addr, new_open, get_port, get_addr}

-- A kernel with one chain, which numbers its rules.
abbrev kernel_add : NfCmd → List Rule → List Rule
kernel_add (add_rule r) rules = rules ++ (record r { handle = some (length rules) } ∷ [])
kernel_add (delete_rule r) rules = []
kernel_add (flush_chain f t c) rules = []

abbrev pub kernel_apply : List Rule → List NfCmd → Option (List Rule)
kernel_apply rules [] = some rules
kernel_apply rules (cmd ∷ cmds) = kernel_apply (kernel_add cmd rules) cmds

abbrev pub kernel_list : List Rule → Option (List Rule)
kernel_list rules = some rules

abbrev shifted : Bytes → Text
shifted [] = []
shifted (c ∷ o) = (100 + c) ∷ shifted o

-- A text for an address that keeps all of it.
abbrev pub toy_show : IpAddr → Text
toy_show (v4 o) = 60 ∷ shifted o
toy_show (v6 o) = 61 ∷ shifted o

shifted-injective : (a b : Bytes) → shifted a ≡ shifted b → a ≡ b
shifted-injective [] [] e = refl
shifted-injective [] (y ∷ b) e = cc
shifted-injective (x ∷ a) [] e = cc
shifted-injective (x ∷ a) (y ∷ b) e = ground (arith, shifted-injective a b)

shifted_no_slash : (o : Bytes) → All (λ c. c ≢ 47) (shifted o)
shifted_no_slash [] = tt
shifted_no_slash (c ∷ o) = ((λ e. absurd (omega (arith, e))), shifted_no_slash o)

shows : ShowsAddr toy_show
shows = record {
  shows_injective = λ a b e. shows_it a b e;
  shows_no_slash = λ a. no_slash a;
  shows_not_any = λ a e. not_any a e;
}
  where
    shows_it : (a b : IpAddr) → toy_show a ≡ toy_show b → a ≡ b
    shows_it (v4 a) (v4 b) e = ground (arith, shifted-injective a b)
    shows_it (v6 a) (v6 b) e = ground (arith, shifted-injective a b)
    shows_it (v4 a) (v6 b) e = ground (arith)
    shows_it (v6 a) (v4 b) e = ground (arith)

    no_slash : (a : IpAddr) → All (λ c. c ≢ 47) (toy_show a)
    no_slash (v4 o) = ((λ e. absurd (omega (arith, e))), shifted_no_slash o)
    no_slash (v6 o) = ((λ e. absurd (omega (arith, e))), shifted_no_slash o)

    not_any : (a : IpAddr) → toy_show a ≢ text "any"
    not_any (v4 o) e = absurd (ground (arith, e))
    not_any (v6 o) e = absurd (ground (arith, e))

abbrev pub conf : Config
conf = record {
  variant = server_variant;
  debug = false;
  control_port = record { port = 5800; tcp = true; udp = false };
  control_timeout = 5000;
  control_error_policy = always;
  seccomp = off;
  keys = [];
  resources = (2, port_resource 22 true true []) ∷ [];
  default_user = 0;
  nft_exe = text "nft";
  nft_family = text "inet";
  nft_table = text "filter";
  nft_chain_input = text "LETMEIN-INPUT";
  nft_timeout = 600000;
}

abbrev pub client : IpAddr
client = v4 (192 ∷ 0 ∷ 2 ∷ 1 ∷ [])

abbrev pub empty : State (List Rule)
empty = record {
  fw = record { leases = []; is_shut_down = false; num_ctrl_rules = 0 };
  kernel = [];
}

abbrev lease : Lease
lease = record { addr = client; lease_port = lease_tcp 22; timeout = 600010 }

abbrev pub leased : State (List Rule)
leased = record empty { fw = record empty.fw { leases = ((client, lease_tcp 22), lease) ∷ [] } }

pub empty-Running : Running kernel_list kernel_apply toy_show conf empty.fw
empty-Running = (record { leases_ok = tt; leases_distinct = tt }, refl)

pub leased-Running : Running kernel_list kernel_apply toy_show conf leased.fw
unfolding lookup resource_id_by_port
leased-Running = (
  record {
    leases_ok = ((refl, refl, λ e. absurd (omega (arith, e))), tt);
    leases_distinct = (refl, tt);
  },
  refl,
)

-- The request opens the port and is acknowledged.
open-Acked : Acked kernel_list kernel_apply toy_show conf 10 (
    handle_message kernel_list kernel_apply toy_show conf 10
      (ok (some (new_open client tcp 22)))
      true
      empty)
unfolding handle_message check_request open_port new_open get_addr get_port addr_check
    resource_id_by_port lookup new add_lease gen_add_lease_cmds gen_add_lease_cmd get_names list_eq
    statement_match_saddr octets_to_addr addr_to_octets
open-Acked = refl

handle_message_safe_example :
    let h =
      handle_message kernel_list kernel_apply toy_show conf 10
        (ok (some (new_open client tcp 22)))
        true
        empty in
    Running kernel_list kernel_apply toy_show conf h.2.fw × (h.0 ≢ panic)
handle_message_safe_example =
    handle_message_safe kernel_list kernel_apply toy_show conf 10
      (ok (some (new_open client tcp 22))) true empty (λ e. cc) empty-Running

ack_means-Done_example :
    Done kernel_list kernel_apply toy_show conf 10
      (new_open client tcp 22)
      (check_request conf (new_open client tcp 22))
      (handle_message kernel_list kernel_apply toy_show conf 10
        (ok (some (new_open client tcp 22)))
        true
        empty).2.fw
ack_means-Done_example =
    ack_means-Done kernel_list kernel_apply toy_show conf 10 (new_open client tcp 22) true empty
      empty-Running open-Acked

maintain_leases_example :
    (StillRunning kernel_list kernel_apply toy_show conf
      (maintain kernel_list kernel_apply toy_show conf 600010 leased))
    × ((id : LeaseId)
        → lookup id (maintain kernel_list kernel_apply toy_show conf 600010 leased).1.fw.leases
          ≡ elim (lookup id leased.fw.leases) [
            | none ↦ none
            | some l ↦ if is_timed_out 600010 l then none else some l
          ])
maintain_leases_example =
    maintain_leases kernel_list kernel_apply toy_show conf 600010 leased leased-Running

abbrev pub names : NftNames
names = record {
  names_family = inet;
  names_table = text "filter";
  names_chain = text "LETMEIN-INPUT";
}

pub names_found : get_names conf ≡ ok names
unfolding get_names list_eq
names_found = refl

abbrev rule_with : ℕ → SingleLeasePort → Rule
rule_with h p = record {
  family = inet;
  table = text "filter";
  chain = text "LETMEIN-INPUT";
  expr = [];
  handle = some h;
  comment = some (gen_rule_comment toy_show (some client) p);
}

abbrev listed : List Rule
listed = rule_with 6 (single_udp 22) ∷ rule_with 7 (single_tcp 22) ∷ []

found_handle : find_handle toy_show listed names client (single_tcp 22) ≡ some 7
unfolding find_handle gen_rule_comment show_port digits list_eq family_eq
found_handle = refl

delete_own_rule_example :
    (found : FoundRule toy_show shows listed names client (single_tcp 22) 7) × ((b : Option IpAddr)
        (q : SingleLeasePort)
      → single_number q < 2 ^ 16
      → found.0.comment ≡ some (gen_rule_comment toy_show b q)
      → (b ≡ some client) × (q ≡ single_tcp 22))
    × ((l : Lease) (q : SingleLeasePort)
        → single_number q < 2 ^ 16
        → Mem q (single_ports l.lease_port)
        → found.0.comment ≡ some (gen_rule_comment toy_show (some l.addr) q)
        → (l.addr ≡ client) × Mem (single_tcp 22) (single_ports l.lease_port))
delete_own_rule_example =
    delete_own_rule toy_show shows listed names client (single_tcp 22) 7 (omega arith) found_handle
