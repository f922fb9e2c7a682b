-- ===== src/Firewall/Kernel/Deleting.antt =====
-- letmeinfwd/src/firewall/nftables.rs: batches that delete the rules which were found by their
-- comments.
use letmein.Base.{
  list_has_eq, ℕ, ◌+◌, ◌≡◌, refl, ◌≢◌, sym, subst, ap, ◌∙◌, Option, none, some, List, [], ◌∷◌, ◌++◌,
  All, arith, list_eq_iff, ◌==◌, ◌≤◌,
}
use letmein.Base.Texts.{Text}
use letmein.Firewall.Commands.{Rule, NfCmd, NftNames, with_delete}
use letmein.Firewall.Kernel.{Batch, HaveHandles, bit, has_comment, count_rules, count_texts}
use letmein.Firewall.Kernel.Adding.{count_rules-append}
use letmein.Firewall.Kernel.Finding.{
  find_comment, deletions, Consistent, find_comment-none, HaveHandles-Consistent,
}

module _ (P : Rule → Type 0) where
  All-without :
      (before after : List Rule) (gone : Rule)
      → All P (before ++ (gone ∷ after))
      → P gone × All P (before ++ after)
  All-without [] after gone h = h
  All-without (r ∷ before) after gone h =
      let rest = All-without before after gone h.1 in (rest.0, (h.0, rest.1))

HaveHandles-without :
    (before after : List Rule) (gone : Rule)
    → HaveHandles (before ++ (gone ∷ after))
    → HaveHandles (before ++ after)
HaveHandles-without [] after gone v = v.1
HaveHandles-without (r ∷ before) after gone v = (
  (v.0.0, v.0.1, (All-without (λ x. x.handle ≢ some v.0.0) before after gone v.0.2).1),
  HaveHandles-without before after gone v.1,
)

count_rules-without :
    (c d : Text) (before after : List Rule) (gone : Rule)
    → gone.comment ≡ some d
    → count_rules c (before ++ (gone ∷ after)) ≡ count_rules c (before ++ after) + bit (d == c)
unfolding count_rules
count_rules-without c d before after gone e = omega (
  arith,
  count_rules-append c before (gone ∷ after),
  count_rules-append c before after,
  ap (λ x. bit (has_comment c x)) e,
)

-- How many rules with the comment such a batch deletes
abbrev pub found : Option ℕ → ℕ → ℕ
found none n = 0
found (some h) n = n

found_next :
    (c d : Text) (rules : List Rule) (n : ℕ)
    → find_comment d rules ≡ none
    → found (find_comment c rules) (bit (d == c) + n) ≡ found (find_comment c rules) n
found_next c d rules n e = last (find_comment c rules) refl
  where
    last : (o : Option ℕ) → find_comment c rules ≡ o → found o (bit (d == c) + n) ≡ found o n
    last none q = refl
    last (some h) q = ground (arith, list_eq_iff d c, e, q)

found_step :
    (c d : Text) (rules : List Rule) (h n m mid all : ℕ)
    → find_comment d rules ≡ some h
    → n + found (find_comment c rules) m ≡ mid
    → all ≡ mid + bit (d == c)
    → n + found (find_comment c rules) (bit (d == c) + m) ≡ all
found_step c d rules h n m mid all q e k = last (find_comment c rules) refl e
  where
    last :
        (o : Option ℕ)
        → find_comment c rules ≡ o
        → n + found o m ≡ mid
        → n + found o (bit (d == c) + m) ≡ all
    last none p e' = ground (arith, list_eq_iff d c, q, p, e', k)
    last (some g) p e' = omega (arith, e', k)

-- The handles are still distinct, and for each time that a comment is looked for one rule with it is
-- gone, if there is a rule with it.
abbrev pub Deleted : List Rule → List Text → List Rule → List Rule → Type 0
Deleted listing cs rules rules' =
    HaveHandles rules'
    × ((c : Text)
        → count_rules c rules' + found (find_comment c listing) (count_texts c cs)
          ≡ count_rules c rules)

delete_next :
    (names : NftNames) (listing : List Rule) (d : Text) (cs : List Text) (cmds : List NfCmd)
    (rules rules' : List Rule) (o : Option ℕ)
    → ((mid : List Rule)
        → All (Consistent listing) mid
        → HaveHandles mid
        → Batch mid cmds rules'
        → Deleted listing cs mid rules')
    → find_comment d listing ≡ o
    → All (Consistent listing) rules
    → HaveHandles rules
    → Batch rules (with_delete names o cmds) rules'
    → Deleted listing (d ∷ cs) rules rules'
unfolding count_texts
delete_next names listing d cs cmds rules rules' none again q k v b =
    let rest = again rules k v b in
    (
      rest.0,
      λ c.
          ap (λ n. count_rules c rules' + n) (found_next c d listing (count_texts c cs) q)
          ∙ rest.1 c,
    )
delete_next names listing d cs cmds rules rules' (some h) again q k v
      (mid, (before, after, gone, parts, has, made), b) =
    let outside =
      All-without (Consistent listing) before after gone
        (subst (All (Consistent listing)) parts k) in
    let rest =
      again mid (subst (All (Consistent listing)) (sym made) outside.1)
        (subst HaveHandles (sym made)
          (HaveHandles-without before after gone (subst HaveHandles parts v)))
        b in
    (
      rest.0,
      λ c.
          found_step c d listing h (count_rules c rules') (count_texts c cs) (count_rules c mid)
            (count_rules c rules) q (rest.1 c)
            (ap (count_rules c) parts
              ∙ count_rules-without c d before after gone (outside.0 d h q has)
              ∙ ap (λ x. count_rules c x + bit (d == c)) (sym made)),
    )

deletions-Deleted :
    (names : NftNames) (listing : List Rule) (cs : List Text) (rules rules' : List Rule)
    → All (Consistent listing) rules
    → HaveHandles rules
    → Batch rules (deletions names listing cs) rules'
    → Deleted listing cs rules rules'
unfolding deletions count_texts
deletions-Deleted names listing [] rules rules' k v b =
    (subst HaveHandles (sym b) v, λ c. none_found (find_comment c listing) ∙ ap (count_rules c) b)
  where
    none_found : {n : ℕ} (o : Option ℕ) → n + found o 0 ≡ n
    none_found none = omega arith
    none_found (some h) = omega arith
deletions-Deleted names listing (d ∷ cs) rules rules' k v b =
    delete_next names listing d cs (deletions names listing cs) rules rules'
      (find_comment d listing) (λ mid. deletions-Deleted names listing cs mid rules') refl k v b

-- A batch that deletes what the listing of the same rules shows takes away one rule for each time
-- that a comment is looked for, or there was none.
pub deletions-count :
    (names : NftNames) (cs : List Text) (rules rules' : List Rule)
    → HaveHandles rules
    → Batch rules (deletions names rules cs) rules'
    → HaveHandles rules'
      × ((c : Text) (n : ℕ) → count_rules c rules ≤ n + count_texts c cs → count_rules c rules' ≤ n)
deletions-count names cs rules rules' v b =
    let gone = deletions-Deleted names rules cs rules rules' (HaveHandles-Consistent rules v) v b in
    (gone.0, λ c n le. left c n (find_comment c rules) refl (gone.1 c) le)
  where
    left :
        (c : Text) (n : ℕ) (o : Option ℕ)
        → find_comment c rules ≡ o
        → count_rules c rules' + found o (count_texts c cs) ≡ count_rules c rules
        → count_rules c rules ≤ n + count_texts c cs
        → count_rules c rules' ≤ n
    left c n none q e le = omega (arith, e, find_comment-none c rules v q)
    left c n (some h) q e le = omega (arith, e, le)
