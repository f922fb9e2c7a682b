-- ===== src/Firewall/Kernel/Finding.antt =====
-- letmeinfwd/src/firewall/nftables.rs: the delete commands of a lease, for the rules that
-- `find_handle` finds by their comments.
use letmein.Base.{
  list_has_eq, nat_has_eq, ℕ, ◌≡◌, refl, ◌≢◌, sym, subst, ap, ◌∙◌, Option, none, some, List, [],
  ◌∷◌, ◌++◌, All, arith, true, if◌then◌else◌, list_eq_iff,
}
use letmein.Base.Texts.{Text}
use letmein.Firewall.{SingleLeasePort}
use letmein.Firewall.Commands.{
  Rule, NfCmd, NftNames, or_else, rule_with_handle, with_delete, delete_each, find_handle,
  gen_rule_comment,
}
use letmein.Firewall.Kernel.{chain_of, Addresses, HaveHandles, has_comment, count_rules, comments}
use letmein.Firewall.Kernel.Generated.{made_in_chain}
use letmein.FwProto.Fields.{IpAddr}

-- The handle of the first rule of the chain with the comment
unfoldable pub find_comment : Text → List Rule → Option ℕ
find_comment c [] = none
find_comment c (rule ∷ rules) =
    or_else (if has_comment c rule.comment then rule.handle else none) (find_comment c rules)

pub find_handle-chain_of :
    (show_addr : IpAddr → Text) (names : NftNames) (addr : IpAddr) (p : SingleLeasePort)
    (rules : List Rule)
    → find_handle show_addr rules names addr p
      ≡ find_comment (gen_rule_comment show_addr (some addr) p) (chain_of names rules)
unfolding find_handle find_comment chain_of
find_handle-chain_of show_addr names addr p [] = refl
find_handle-chain_of show_addr names addr p (rule ∷ rules) =
    ground (arith, find_handle-chain_of show_addr names addr p rules)

-- The commands that delete the rules found by these comments
unfoldable pub deletions : NftNames → List Rule → List Text → List NfCmd
unfolding find_comment
deletions names rules [] = []
deletions names rules (c ∷ cs) = with_delete names (find_comment c rules) (deletions names rules cs)

pub delete_each-deletions :
    (show_addr : IpAddr → Text) (names : NftNames) (addr : IpAddr) (ps : List SingleLeasePort)
    (rules : List Rule)
    → delete_each show_addr rules names addr ps
      ≡ deletions names (chain_of names rules) (comments show_addr (some addr) ps)
unfolding deletions
delete_each-deletions show_addr names addr [] rules = refl
delete_each-deletions show_addr names addr (p ∷ ps) rules =
    rw
      (
        find_handle-chain_of show_addr names addr p rules,
        delete_each-deletions show_addr names addr ps rules,
      )
      refl

with_delete-append :
    (names : NftNames) (o : Option ℕ) (cmds more : List NfCmd)
    → with_delete names o cmds ++ more ≡ with_delete names o (cmds ++ more)
with_delete-append names none cmds more = refl
with_delete-append names (some h) cmds more = refl

pub deletions-append :
    (names : NftNames) (rules : List Rule) (cs ds : List Text)
    → deletions names rules (cs ++ ds) ≡ deletions names rules cs ++ deletions names rules ds
unfolding deletions
deletions-append names rules [] ds = refl
deletions-append names rules (c ∷ cs) ds =
    ap (with_delete names (find_comment c rules)) (deletions-append names rules cs ds)
    ∙ sym (
        with_delete-append names (find_comment c rules) (deletions names rules cs)
          (deletions names rules ds))

with_delete-Addresses :
    (names : NftNames) (o : Option ℕ) (cmds : List NfCmd)
    → All (Addresses names) cmds
    → All (Addresses names) (with_delete names o cmds)
with_delete-Addresses names none cmds h = h
with_delete-Addresses names (some n) cmds h =
    (made_in_chain names (rule_with_handle names n) refl refl refl, h)

pub deletions-Addresses :
    (names : NftNames) (rules : List Rule) (cs : List Text)
    → All (Addresses names) (deletions names rules cs)
unfolding deletions
deletions-Addresses names rules [] = tt
deletions-Addresses names rules (c ∷ cs) =
    with_delete-Addresses names (find_comment c rules) (deletions names rules cs)
      (deletions-Addresses names rules cs)

-- A rule with the handle that was found has the comment that was looked for.
abbrev pub Consistent : List Rule → Rule → Type 0
Consistent rules rule =
    (c : Text) (h : ℕ)
    → find_comment c rules ≡ some h
    → rule.handle ≡ some h
    → rule.comment ≡ some c

find_comment_has :
    (c : Text) (h : ℕ) (rules : List Rule)
    → find_comment c rules ≡ some h
    → All (λ r. r.handle ≢ some h) rules
    → ⊥
unfolding find_comment
find_comment_has c h [] e others = cc
find_comment_has c h (rule ∷ rules) e others =
    ground (arith, find_comment_has c h rules, others.0, others.1)

pub find_comment-none :
    (c : Text) (rules : List Rule)
    → HaveHandles rules
    → find_comment c rules ≡ none
    → count_rules c rules ≡ 0
unfolding find_comment count_rules
find_comment-none c [] v e = refl
find_comment-none c (rule ∷ rules) v e = ground (arith, v.0.1, find_comment-none c rules v.1)

has_comment_ok : (c : Text) (o : Option Text) → has_comment c o ≡ true → o ≡ some c
has_comment_ok c none h = cc
has_comment_ok c (some d) h = ap some ((list_eq_iff d c).0 h)

Consistent-self :
    (rule : Rule) (rules : List Rule) → HaveHandles (rule ∷ rules) → Consistent (rule ∷ rules) rule
unfolding find_comment
Consistent-self rule rules v c h e has =
    let others : All (λ r. r.handle ≢ some h) rules =
      subst (λ x. All (λ r. r.handle ≢ x) rules) (sym v.0.1 ∙ has) v.0.2 in
    ground (arith, find_comment_has c h rules, others, has_comment_ok c rule.comment)

Consistent-rest :
    (rule other : Rule) (rules : List Rule) (g : ℕ)
    → rule.handle ≡ some g
    → other.handle ≢ some g
    → Consistent rules other
    → Consistent (rule ∷ rules) other
unfolding find_comment
Consistent-rest rule other rules g has differs k c h e other_has =
    ground (arith, k c h, has, differs, e, other_has)

All-Consistent :
    (rule : Rule) (others rules : List Rule) (g : ℕ)
    → rule.handle ≡ some g
    → All (λ r. r.handle ≢ some g) others
    → All (Consistent rules) others
    → All (Consistent (rule ∷ rules)) others
All-Consistent rule [] rules g has differ k = tt
All-Consistent rule (other ∷ others) rules g has differ k = (
  Consistent-rest rule other rules g has differ.0 k.0,
  All-Consistent rule others rules g has differ.1 k.1,
)

pub HaveHandles-Consistent : (rules : List Rule) → HaveHandles rules → All (Consistent rules) rules
HaveHandles-Consistent [] v = tt
HaveHandles-Consistent (rule ∷ rules) v = (
  Consistent-self rule rules v,
  All-Consistent rule rules rules v.0.0 v.0.1 v.0.2 (HaveHandles-Consistent rules v.1),
)
