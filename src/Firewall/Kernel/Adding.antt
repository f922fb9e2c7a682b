-- ===== src/Firewall/Kernel/Adding.antt =====
-- Batches that add rules: the chain gets the comments of the batch.
use letmein.Base.{
  ℕ, ◌+◌, ◌≡◌, refl, ◌≢◌, sym, subst, ap, ◌∙◌, some, List, [], ◌∷◌, ◌++◌, All, All-append, arith,
  true,
}
use letmein.Base.Texts.{Text}
use letmein.Firewall.Commands.{Rule, NfCmd, add_rule, delete_rule, flush_chain, NftNames}
use letmein.Firewall.Kernel.{
  in_chain, Addresses, Batch, HaveHandles, bit, has_comment, count_rules, count_texts,
}

pub count_rules-append :
    (c : Text) (xs ys : List Rule) → count_rules c (xs ++ ys) ≡ count_rules c xs + count_rules c ys
unfolding count_rules
count_rules-append c [] ys = omega arith
count_rules-append c (x ∷ xs) ys = omega (arith, count_rules-append c xs ys)

pub count_texts-append :
    (c : Text) (xs ys : List Text) → count_texts c (xs ++ ys) ≡ count_texts c xs + count_texts c ys
unfolding count_texts
count_texts-append c [] ys = omega arith
count_texts-append c (x ∷ xs) ys = omega (arith, count_texts-append c xs ys)

-- The commands add rules with these comments to the chain.
abbrev pub Adds : NftNames → List NfCmd → List Text → Type 0
Adds names [] [] = Unit {0}
Adds names (add_rule rule ∷ cmds) (c ∷ cs) =
    (in_chain names rule ≡ true) × (rule.comment ≡ some c) × Adds names cmds cs
Adds names _ _ = ⊥

pub Adds-append :
    (names : NftNames) (cmds more : List NfCmd) (cs ds : List Text)
    → Adds names cmds cs
    → Adds names more ds
    → Adds names (cmds ++ more) (cs ++ ds)
Adds-append names [] more [] ds h k = k
Adds-append names [] more (c ∷ cs) ds h k = absurd h
Adds-append names (add_rule rule ∷ cmds) more [] ds h k = absurd h
Adds-append names (delete_rule rule ∷ cmds) more [] ds h k = absurd h
Adds-append names (flush_chain f t c ∷ cmds) more [] ds h k = absurd h
Adds-append names (add_rule rule ∷ cmds) more (c ∷ cs) ds h k =
    (h.0, h.1, Adds-append names cmds more cs ds h.2 k)
Adds-append names (delete_rule rule ∷ cmds) more (c ∷ cs) ds h k = absurd h
Adds-append names (flush_chain f t d ∷ cmds) more (c ∷ cs) ds h k = absurd h

pub Adds-Addresses :
    (names : NftNames) (cmds : List NfCmd) (cs : List Text)
    → Adds names cmds cs
    → All (Addresses names) cmds
Adds-Addresses names [] cs h = tt
Adds-Addresses names (add_rule rule ∷ cmds) [] h = absurd h
Adds-Addresses names (delete_rule rule ∷ cmds) [] h = absurd h
Adds-Addresses names (flush_chain f t c ∷ cmds) [] h = absurd h
Adds-Addresses names (add_rule rule ∷ cmds) (c ∷ cs) h = (h.0, Adds-Addresses names cmds cs h.2)
Adds-Addresses names (delete_rule rule ∷ cmds) (c ∷ cs) h = absurd h
Adds-Addresses names (flush_chain f t d ∷ cmds) (c ∷ cs) h = absurd h

HaveHandles-append :
    (rules : List Rule) (rule : Rule) (h : ℕ)
    → rule.handle ≡ some h
    → All (λ r. r.handle ≢ some h) rules
    → HaveHandles rules
    → HaveHandles (rules ++ (rule ∷ []))
HaveHandles-append [] rule h e fresh v = ((h, e, tt), tt)
HaveHandles-append (r ∷ rules) rule h e fresh v =
    let (g, has, others) = v.0 in
    (
      (
        g,
        has,
        All-append (λ x. x.handle ≢ some g) rules (rule ∷ []) others
            ((λ same. absurd (fresh.0 (has ∙ sym same ∙ e))), tt),
      ),
      HaveHandles-append rules rule h e fresh.1 v.1,
    )

-- A batch that adds rules keeps the handles distinct and adds its comments to those of the chain.
pub Adds-Batch :
    (names : NftNames) (cmds : List NfCmd) (cs : List Text) (rules rules' : List Rule)
    → Adds names cmds cs
    → Batch rules cmds rules'
    → HaveHandles rules
    → HaveHandles rules'
      × ((c : Text) → count_rules c rules' ≡ count_rules c rules + count_texts c cs)
unfolding count_rules count_texts
Adds-Batch names [] [] rules rules' a b v =
    (subst HaveHandles (sym b) v, λ c. ap (count_rules c) b ∙ omega arith)
Adds-Batch names [] (c ∷ cs) rules rules' a b v = absurd a
Adds-Batch names (add_rule rule ∷ cmds) [] rules rules' a b v = absurd a
Adds-Batch names (delete_rule rule ∷ cmds) [] rules rules' a b v = absurd a
Adds-Batch names (flush_chain f t c ∷ cmds) [] rules rules' a b v = absurd a
Adds-Batch names (delete_rule rule ∷ cmds) (c ∷ cs) rules rules' a b v = absurd a
Adds-Batch names (flush_chain f t d ∷ cmds) (c ∷ cs) rules rules' a b v = absurd a
Adds-Batch names (add_rule rule ∷ cmds) (d ∷ cs) rules rules' a (mid, (h, fresh, made), b) v =
    let new_rule : Rule = record rule { handle = some h } in
    let kept : HaveHandles mid =
      subst HaveHandles (sym made) (HaveHandles-append rules new_rule h refl fresh v) in
    let rest = Adds-Batch names cmds cs mid rules' a.2 b kept in
    (
      rest.0,
      λ c. omega (
        arith,
        rest.1 c,
        ap (count_rules c) made,
        count_rules-append c rules (new_rule ∷ []),
        ap (λ x. bit (has_comment c x)) a.1,
      ),
    )
