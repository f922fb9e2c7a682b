-- ===== src/Seccomp/Permits.antt =====
-- letmein-seccomp/src/lib.rs: which system calls a compiled filter lets run. What the crate
-- seccompiler documents of a map of rules is the parameter `Engine`.
use mathlib.Core.List.{append-nil, append_assoc, filter}
use letmein.Base.{
  list_has_eq, nat_has_eq, ◌>>=◌, ◌>>◌, ℕ, zero, suc, ◌%◌, ◌^◌, ◌≡◌, sym, ap, Bool, true, false,
  ◌&&◌, ◌||◌, Option, none, some, List, [], ◌∷◌, ◌++◌, arith, nat_eq, if◌then◌else◌, ◌==◌, ok,
  ok_inj, bind-eq-ok, refl, ◌∙◌, subst, not, list_eq, list_eq_iff, guard, check,
}
use letmein.Base.Assoc.{lookup, insert, lookup-insert}
use letmein.Base.Texts.{Text}
use letmein.Seccomp.{
  Condition, Rule, ptr, seccomp_cond, Wanted, cond, make_rule, RulesMap, or_no_rules, Call, plain,
  matching, perform, unsupported_arch, entry, add_sys, add_sys_args_match, Action, kill_process,
  log_event, Filter,
}
use letmein.Seccomp.Features.{Allow, base_calls, all_calls, is_empty, compile}

abbrev pub arg_at : List ℕ → ℕ → ℕ
arg_at [] i = 0
arg_at (a ∷ as') zero = a
arg_at (a ∷ as') (suc i) = arg_at as' i

-- A condition compares the low bits of one argument.
abbrev condition_holds : List ℕ → Condition → Bool
condition_holds args c = nat_eq (arg_at args c.arg % 2 ^ c.bits) c.value

abbrev rule_matches : List ℕ → Rule → Bool
rule_matches args [] = true
rule_matches args (c ∷ cs) = condition_holds args c && rule_matches args cs

abbrev pub any_matches : List ℕ → List Rule → Bool
any_matches args [] = false
any_matches args (r ∷ rs) = rule_matches args r || any_matches args rs

-- Whether a call matches the map: one that is not in the map does not, one without rules does, and
-- one with rules does where one of them matches. What becomes of a call that does not match is up to
-- the deny action of the filter (`fate`).
pub record Engine : Type 0 where
  pub permits : RulesMap → Text → List ℕ → Bool
  pub absent :
      (m : RulesMap) (sys : Text) (args : List ℕ) → lookup sys m ≡ none → permits m sys args ≡ false
  pub unconditional :
      (m : RulesMap) (sys : Text) (args : List ℕ)
      → lookup sys m ≡ some []
      → permits m sys args ≡ true
  pub conditional :
      (m : RulesMap) (sys : Text) (args : List ℕ) (r : Rule) (rs : List Rule)
      → lookup sys m ≡ some (r ∷ rs)
      → permits m sys args ≡ any_matches args (r ∷ rs)

-- What becomes of a call; one that is logged keeps running.
pub data Fate : Type 0 where
  runs killed logged : Fate

abbrev pub denied : Action → Fate
denied kill_process = killed
denied log_event = logged

abbrev pub fate : Engine → Filter → Text → List ℕ → Fate
fate engine filter sys args =
    if engine.permits filter.rules sys args then runs else denied filter.deny_action

-- The reference: what a list of calls says of one system call.
abbrev pub mentioned : Text → List Call → Bool
mentioned sys [] = false
mentioned sys (plain s ∷ cs) = s == sys || mentioned sys cs
mentioned sys (matching s wanted ∷ cs) = s == sys || mentioned sys cs

abbrev pub stated : List Wanted → Rule
stated [] = []
stated (cond arg bits value ∷ ws) =
    record { arg = arg; bits = if nat_eq bits ptr then 64 else bits; value = value } ∷ stated ws

abbrev pub rules_for : Text → List Call → List Rule
rules_for sys [] = []
rules_for sys (plain s ∷ cs) = rules_for sys cs
rules_for sys (matching s wanted ∷ cs) =
    let rest = rules_for sys cs in if s == sys then stated wanted ∷ rest else rest

abbrev pub allowed : Bool → List Rule → List ℕ → Bool
allowed false rules args = false
allowed true [] args = true
allowed true (r ∷ rs) args = any_matches args (r ∷ rs)

make_rule-stated : (ws : List Wanted) (r : Rule) → make_rule ws ≡ ok r → stated ws ≡ r
unfolding make_rule
make_rule-stated [] r e = ok_inj e
make_rule-stated (cond arg bits value ∷ ws) r e =
    let (c, one, e1) =
      bind-eq-ok (seccomp_cond arg bits value) (λ c. do cs ← make_rule ws; ok (c ∷ cs)) e in
    let (cs, more, e2) = bind-eq-ok (make_rule ws) (λ cs. ok (c ∷ cs)) e1 in
    ground (arith, one, make_rule-stated ws cs more, e2)

-- The rules that a map has for one system call, and what is added
abbrev added : Bool → Option (List Rule) → List Rule → Option (List Rule)
added true found rules = some (or_no_rules found ++ rules)
added false found rules = found

rules_for-mentioned :
    (sys : Text) (cs : List Call) → mentioned sys cs ≡ false → rules_for sys cs ≡ []
rules_for-mentioned sys [] e = refl
rules_for-mentioned sys (plain s ∷ cs) e = ground (arith, rules_for-mentioned sys cs)
rules_for-mentioned sys (matching s wanted ∷ cs) e = ground (arith, rules_for-mentioned sys cs)

-- One call more: what it adds for its own system call stands before what follows.
added-step :
    (hit later : Bool) (found now : Option (List Rule)) (new_rules rules : List Rule)
    → (hit ≡ true → now ≡ some (or_no_rules found ++ new_rules))
    → (hit ≡ false → now ≡ found)
    → (later ≡ false → rules ≡ [])
    → added later now rules ≡ added (hit || later) found (if hit then new_rules ++ rules else rules)
added-step true true found now new_rules rules h k l = rw (h refl, append_assoc) refl
added-step true false found now new_rules rules h k l = rw (h refl, l refl, append-nil) refl
added-step false later found now new_rules rules h k l = ap (λ x. added later x rules) (k refl)

module _ (m : RulesMap) (s sys : Text) (new_rules : List Rule) where
  extended_hit :
      list_eq s sys ≡ true
      → lookup sys (insert s (entry s m ++ new_rules) m)
        ≡ some (or_no_rules (lookup sys m) ++ new_rules)
  extended_hit e =
      let same_name : s ≡ sys = (list_eq_iff s sys).0 e in
      rw (lookup-insert s sys (entry s m ++ new_rules) m, e, same_name) refl

  extended_miss :
      list_eq s sys ≡ false → lookup sys (insert s (entry s m ++ new_rules) m) ≡ lookup sys m
  extended_miss e = rw (lookup-insert s sys (entry s m ++ new_rules) m, e) refl

perform-lookup :
    (m : RulesMap) (cs : List Call) (m' : RulesMap) (sys : Text)
    → perform m cs ≡ ok m'
    → lookup sys m' ≡ added (mentioned sys cs) (lookup sys m) (rules_for sys cs)
unfolding perform
perform-lookup m [] m' sys e = ap (lookup sys) (sym (ok_inj e))
perform-lookup m (plain s ∷ cs) m' sys e =
    perform-lookup (add_sys m s) cs m' sys e
    ∙ added-step (list_eq s sys) (mentioned sys cs) (lookup sys m) (lookup sys (add_sys m s)) []
        (rules_for sys cs)
        (λ h.
          ap (λ rules. lookup sys (insert s rules m)) (sym (append-nil (entry s m)))
          ∙ extended_hit m s sys [] h)
        (λ h.
          ap (λ rules. lookup sys (insert s rules m)) (sym (append-nil (entry s m)))
          ∙ extended_miss m s sys [] h)
        (rules_for-mentioned sys cs)
    ∙ ap (added (list_eq s sys || mentioned sys cs) (lookup sys m))
        (if_same (list_eq s sys) (rules_for sys cs))
  where
    if_same : (b : Bool) (rules : List Rule) → (if b then rules else rules) ≡ rules
    if_same true rules = refl
    if_same false rules = refl
perform-lookup m (matching s wanted ∷ cs) m' sys e =
    let (rule, built, rest) =
      bind-eq-ok (make_rule wanted) (λ rule. perform (add_sys_args_match m s rule) cs) e in
    perform-lookup (add_sys_args_match m s rule) cs m' sys rest
    ∙ added-step (list_eq s sys) (mentioned sys cs) (lookup sys m)
        (lookup sys (add_sys_args_match m s rule)) (rule ∷ []) (rules_for sys cs)
        (extended_hit m s sys (rule ∷ [])) (extended_miss m s sys (rule ∷ []))
        (rules_for-mentioned sys cs)
    ∙ ap
        (λ (r : Rule).
          added (list_eq s sys || mentioned sys cs) (lookup sys m)
            (if list_eq s sys then r ∷ rules_for sys cs else rules_for sys cs))
        (sym (make_rule-stated wanted rule built))

-- The engine at what the map has for a system call
module _ (engine : Engine) (m : RulesMap) (sys : Text) (args : List ℕ) where
  engine-allowed :
      (there : Bool) (rules : List Rule)
      → lookup sys m ≡ added there none rules
      → engine.permits m sys args ≡ allowed there rules args
  engine-allowed false rules e = engine.absent m sys args e
  engine-allowed true [] e = engine.unconditional m sys args e
  engine-allowed true (r ∷ rs) e = engine.conditional m sys args r rs e

-- The map of a compiled filter matches a system call exactly when the features of the list name it
-- and either none of them states a rule for it or one of the stated rules matches the arguments.
pub compile-allowed :
    (engine : Engine) (allow : List Allow) (deny_action : Action) (arch_ok : Bool) (filter : Filter)
    (sys : Text) (args : List ℕ)
    → compile allow deny_action arch_ok ≡ ok filter
    → let calls = base_calls ++ all_calls allow in
      engine.permits filter.rules sys args
      ≡ allowed (mentioned sys calls) (rules_for sys calls) args
unfolding compile
compile-allowed engine allow deny_action arch_ok filter sys args e =
    let calls = base_calls ++ all_calls allow in
    let (_, _, e1) =
      bind-eq-ok (check (not (is_empty allow)))
        (λ x. do
          rules ← perform [] calls
          guard arch_ok unsupported_arch
          ok (record { rules = rules; deny_action = deny_action }))
        e in
    let (rules, performed, e2) =
      bind-eq-ok (perform [] calls)
        (λ rules. do
          guard arch_ok unsupported_arch
          ok (record { rules = rules; deny_action = deny_action }))
        e1 in
    let (_, _, e3) =
      bind-eq-ok (guard arch_ok unsupported_arch)
        (λ x. ok (record { rules = rules; deny_action = deny_action })) e2 in
    subst
      (λ (f : Filter).
        engine.permits f.rules sys args ≡ allowed (mentioned sys calls) (rules_for sys calls) args)
      (ok_inj e3)
      (engine-allowed engine rules sys args (mentioned sys calls) (rules_for sys calls)
        (perform-lookup [] calls rules sys performed))
