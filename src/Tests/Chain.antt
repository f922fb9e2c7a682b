-- ===== src/Tests/Chain.antt =====
-- letmeinfwd: the operations over a kernel with one chain, which adds rules under new handles and
-- deletes them by their handles.
use letmein.Base.{
  list_has_eq, ℕ, suc, ◌+◌, ◌≤◌, ◌≡◌, refl, ◌≢◌, sym, subst, ap, ◌∙◌, Bool, true, false, Option,
  none, some, List, [], ◌∷◌, ◌++◌, All, arith, nat_eq, nat_eq_iff, list_eq_iff, list_eq,
  if◌then◌else◌, ok, ok_inj, panic,
}
use letmein.Base.Assoc.{lookup}
use letmein.Base.Texts.{Text, text}
use letmein.Firewall.{lease_tcp, new, id_has_eq}
use letmein.Firewall.Commands.{
  inet, family_eq, family_eq_iff, Statement, Rule, NfCmd, add_rule, delete_rule, flush_chain,
  NftNames, get_names, gen_add_lease_cmds, gen_add_lease_cmd, statement_match_saddr,
}
use letmein.Firewall.Kernel.{in_chain, chain_of, Addresses, Change, Batch, Nft, count_rules}
use letmein.Firewall.Leases.{MayLease}
use letmein.Conf.{resource_id_by_port}
use letmein.Firewall.Kernel.Leased.{opens_port, call_firewall, call_firewall-NoStray}
use letmein.Firewall.Kernel.Emptied.{Flushed, shutdown-IsEmptied}
use letmein.Firewall.Kernel.Stray.{NoStray}
use letmein.Firewall.State.{State, shutdown, open_port, add_lease, apply_batch}
use letmein.Tests.Daemon.{toy_show, conf, client, names, names_found}

record Entry : Type 0 where
  number : ℕ
  entry_comment : Option Text
  entry_expr : List Statement

abbrev rule_of : Entry → Rule
rule_of e = record {
  family = inet;
  table = text "filter";
  chain = text "LETMEIN-INPUT";
  expr = e.entry_expr;
  handle = some e.number;
  comment = e.entry_comment;
}

abbrev rules_of : List Entry → List Rule
rules_of [] = []
rules_of (e ∷ es) = rule_of e ∷ rules_of es

abbrev next_number : List Entry → ℕ
next_number [] = 0
next_number (e ∷ es) = suc e.number + next_number es

abbrev before : Entry → Option (List Entry) → Option (List Entry)
before e none = none
before e (some es) = some (e ∷ es)

abbrev delete_number : ℕ → List Entry → Option (List Entry)
delete_number h [] = none
delete_number h (e ∷ es) =
    let rest = delete_number h es in if nat_eq e.number h then some es else before e rest

abbrev delete_numbered : Option ℕ → List Entry → Option (List Entry)
delete_numbered none es = none
delete_numbered (some h) es = delete_number h es

abbrev change : List Entry → NfCmd → Option (List Entry)
change es (add_rule r) = some (
    es ++ (record { number = next_number es; entry_comment = r.comment; entry_expr = r.expr } ∷ []))
change es (delete_rule r) = delete_numbered r.handle es
change es (flush_chain f t c) = some []

abbrev apply_all : List Entry → List NfCmd → Option (List Entry)
apply_all es [] = some es
apply_all es (cmd ∷ cmds) = elim (change es cmd) [ none ↦ none | some es' ↦ apply_all es' cmds ]

abbrev list_all : List Entry → Option (List Rule)
list_all es = some (rules_of es)

listed : (es : List Entry) → chain_of names (rules_of es) ≡ rules_of es
unfolding chain_of family_eq list_eq
listed [] = refl
listed (e ∷ es) = ap (◌∷◌ (rule_of e)) (listed es)

abbrev handle_or_zero : Option ℕ → ℕ
handle_or_zero none = 0
handle_or_zero (some h) = h

fresh : (n : ℕ) (es : List Entry) → next_number es ≤ n → All (λ r. r.handle ≢ some n) (rules_of es)
fresh n [] h = tt
fresh n (e ∷ es) h =
    ((λ q. absurd (omega (arith, h, ap handle_or_zero q))), fresh n es (omega (arith, h)))

rules_of-append : (es fs : List Entry) → rules_of (es ++ fs) ≡ rules_of es ++ rules_of fs
rules_of-append [] fs = refl
rules_of-append (e ∷ es) fs = ap (◌∷◌ (rule_of e)) (rules_of-append es fs)

rule_eq :
    (r : Rule) (h : ℕ)
    → in_chain names r ≡ true
    → rule_of (record { number = h; entry_comment = r.comment; entry_expr = r.expr })
      ≡ record r { handle = some h }
rule_eq r h inside = ground (
  arith,
  inside,
  family_eq_iff r.family inet,
  list_eq_iff r.table (text "filter"),
  list_eq_iff r.chain (text "LETMEIN-INPUT"),
)

-- What is left of the chain behind a deletion
abbrev Without : ℕ → List Rule → List Rule → Type 0
Without h rules rules' =
    (xs ys : List Rule) × (gone : Rule) × (rules ≡ xs ++ (gone ∷ ys))
    × (gone.handle ≡ some h)
    × (rules' ≡ xs ++ ys)

Without-cons :
    (h : ℕ) (r : Rule) (rules rules' : List Rule)
    → Without h rules rules'
    → Without h (r ∷ rules) (r ∷ rules')
Without-cons h r rules rules' (xs, ys, gone, split, has, left) =
    (r ∷ xs, ys, gone, ap (◌∷◌ r) split, has, ap (◌∷◌ r) left)

abbrev or_nothing : List Entry → Option (List Entry) → List Entry
or_nothing es none = es
or_nothing es (some fs) = fs

some_inj : {es fs : List Entry} → some es ≡ some fs → es ≡ fs
some_inj {es} q = ap (or_nothing es) q

delete_first :
    (h : ℕ) (x : Entry) (es es' : List Entry) (b : Bool) (o : Option (List Entry))
    → nat_eq x.number h ≡ b
    → ((es2 : List Entry) → o ≡ some es2 → Without h (rules_of es) (rules_of es2))
    → (if b then some es else before x o) ≡ some es'
    → Without h (rules_of (x ∷ es)) (rules_of es')
delete_first h x es es' true o q again k = (
  [],
  rules_of es,
  rule_of x,
  refl,
  ap some ((nat_eq_iff x.number h).0 q),
  ap rules_of (sym (some_inj k)),
)
delete_first h x es es' false none q again k = cc
delete_first h x es es' false (some es2) q again k =
    subst (λ y. Without h (rules_of (x ∷ es)) (rules_of y)) (some_inj k)
      (Without-cons h (rule_of x) (rules_of es) (rules_of es2) (again es2 refl))

delete_number-Without :
    (h : ℕ) (es es' : List Entry)
    → delete_number h es ≡ some es'
    → Without h (rules_of es) (rules_of es')
delete_number-Without h [] es' e = cc
delete_number-Without h (x ∷ es) es' e =
    delete_first h x es es' (nat_eq x.number h) (delete_number h es) refl
      (delete_number-Without h es) e

delete_numbered-Change :
    (r : Rule) (o : Option ℕ) (es es' : List Entry)
    → r.handle ≡ o
    → delete_numbered o es ≡ some es'
    → Change (rules_of es) (delete_rule r) (rules_of es')
delete_numbered-Change r none es es' q e = cc
delete_numbered-Change r (some h) es es' q e =
    let (xs, ys, gone, split, has, left) = delete_number-Without h es es' e in
    (xs, ys, gone, split, has ∙ sym q, left)

change-Change :
    (es es' : List Entry) (cmd : NfCmd)
    → Addresses names cmd
    → change es cmd ≡ some es'
    → Change (rules_of es) cmd (rules_of es')
change-Change es es' (add_rule r) inside e = (
  next_number es,
  fresh (next_number es) es (omega arith),
  ap rules_of (sym (some_inj e))
      ∙ rules_of-append es _
      ∙ ap (λ x. rules_of es ++ (x ∷ [])) (rule_eq r (next_number es) inside),
)
change-Change es es' (delete_rule r) inside e = delete_numbered-Change r r.handle es es' refl e
change-Change es es' (flush_chain f t c) inside e = ap rules_of (sym (some_inj e))

change-Batch :
    (es es' : List Entry) (cmd : NfCmd) (cmds : List NfCmd) (o : Option (List Entry))
    → Addresses names cmd
    → change es cmd ≡ o
    → ((mid : List Entry)
        → apply_all mid cmds ≡ some es'
        → Batch (rules_of mid) cmds (rules_of es'))
    → (elim o [ none ↦ none | some mid ↦ apply_all mid cmds ]) ≡ some es'
    → Batch (rules_of es) (cmd ∷ cmds) (rules_of es')
change-Batch es es' cmd cmds none inside q again e = cc
change-Batch es es' cmd cmds (some mid) inside q again e =
    (rules_of mid, change-Change es mid cmd inside q, again mid e)

apply_all-Batch :
    (es es' : List Entry) (cmds : List NfCmd)
    → All (Addresses names) cmds
    → apply_all es cmds ≡ some es'
    → Batch (rules_of es) cmds (rules_of es')
apply_all-Batch es es' [] inside e = ap rules_of (sym (some_inj e))
apply_all-Batch es es' (cmd ∷ cmds) inside e =
    change-Batch es es' cmd cmds (change es cmd) inside.0 refl
      (λ mid. apply_all-Batch mid es' cmds inside.1) e

abbrev rules_or_none : Option (List Rule) → List Rule
rules_or_none none = []
rules_or_none (some rules) = rules

listed_eq :
    (k : List Entry) (rules : List Rule)
    → list_all k ≡ some rules
    → chain_of names rules ≡ rules_of k
listed_eq k rules e = ap (λ x. chain_of names (rules_or_none x)) (sym e) ∙ listed k

chain_nft : Nft list_all apply_all names rules_of
chain_nft = record {
  lists = λ k rules e. listed_eq k rules e;
  applies = λ k k' cmds inside e. apply_all-Batch k k' cmds inside e;
}

abbrev empty_chain : State (List Entry)
empty_chain = record {
  fw = record { leases = []; is_shut_down = false; num_ctrl_rules = 0 };
  kernel = [];
}

empty-NoStray :
    NoStray list_all apply_all toy_show conf names rules_of names_found chain_nft refl empty_chain
unfolding count_rules
empty-NoStray = (tt, λ c. omega arith)

tcp_22-MayLease : MayLease conf (lease_tcp 22)
unfolding resource_id_by_port
tcp_22-MayLease = (refl, λ e. absurd (omega (arith, e)))

call_firewall-NoStray_example :
    NoStray list_all apply_all toy_show conf names rules_of names_found chain_nft refl
      (call_firewall list_all apply_all toy_show conf 10
        (opens_port client (lease_tcp 22))
        empty_chain).1
call_firewall-NoStray_example =
    call_firewall-NoStray list_all apply_all toy_show conf names rules_of names_found chain_nft refl
      10 (opens_port client (lease_tcp 22)) empty_chain refl tcp_22-MayLease empty-NoStray tt

nft_of : (names' : NftNames) → get_names conf ≡ ok names' → Nft list_all apply_all names' rules_of
nft_of names' e =
    subst (λ n. Nft list_all apply_all n rules_of) (ok_inj (sym names_found ∙ e)) chain_nft

-- A daemon with an open port and its rule
abbrev open_chain : State (List Entry)
open_chain =
    (call_firewall list_all apply_all toy_show conf 10 (opens_port client (lease_tcp 22))
      empty_chain).1

open_chain-running : open_chain.fw.is_shut_down ≡ false
unfolding open_port add_lease apply_batch gen_add_lease_cmds gen_add_lease_cmd get_names lookup new
    list_eq statement_match_saddr
open_chain-running = refl

shutdown-IsEmptied_example :
    let o = shutdown list_all apply_all toy_show conf open_chain in
    (o.1.fw.leases ≡ [])
    × (o.1.fw.is_shut_down ≡ true)
    × (o.0 ≢ panic)
    × Flushed list_all apply_all toy_show conf rules_of nft_of open_chain.kernel o
shutdown-IsEmptied_example =
    shutdown-IsEmptied list_all apply_all toy_show conf rules_of nft_of open_chain
      open_chain-running
