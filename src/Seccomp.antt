-- ===== src/Seccomp.antt =====
-- letmein-seccomp/src/lib.rs: the rules of a filter, for x86_64 on Linux. System calls are named by
-- the names that `libc` has for their numbers.
pub mod Confined
pub mod Features
pub mod Lists
pub mod Permits
use letmein.Base.{
  list_has_eq, nat_has_eq, ◌>>=◌, ◌>>◌, ℕ, ◌^◌, Option, none, some, List, [], ◌∷◌, ◌++◌, ltb,
  nat_eq, if◌then◌else◌, Result, ok, panic, check,
}
use letmein.Base.Assoc.{lookup, insert}
use letmein.Base.Texts.{Text}

-- `SeccompCondition`, always a comparison for equality
pub record Condition : Type 0 where
  pub arg : ℕ
  pub bits : ℕ
  pub value : ℕ

abbrev pub Rule : Type 0
Rule = List Condition

pub data SeccompError : Type 0 where
  unsupported_arch not_supported : SeccompError

-- `PTR`, and the widths it stands for
abbrev pub ptr : ℕ
ptr = 0xFF

abbrev width : ℕ → ℕ
width bits = if nat_eq bits ptr then 64 else bits

-- `seccomp_cond`: the value, cast to a `u64`, must fit the width.
unfoldable pub seccomp_cond : ℕ → ℕ → ℕ → Result SeccompError Condition
seccomp_cond arg bits value =
    if nat_eq (width bits) 32
    then (do check (ltb value (2 ^ 32)); ok (record { arg = arg; bits = 32; value = value }))
    else if nat_eq (width bits) 64
    then ok (record { arg = arg; bits = 64; value = value })
    else panic

-- A condition as `args!` is given it
pub data Wanted : Type 0 where
  cond : (arg bits value : ℕ) → Wanted

-- `args!`
unfoldable pub make_rule : List Wanted → Result SeccompError Rule
unfolding seccomp_cond
make_rule [] = ok []
make_rule (cond arg bits value ∷ ws) = do
  c ← seccomp_cond arg bits value
  cs ← make_rule ws
  ok (c ∷ cs)

abbrev pub RulesMap : Type 0
RulesMap = List (Text × List Rule)

-- `map.entry(sys).or_default()`
abbrev pub or_no_rules : Option (List Rule) → List Rule
or_no_rules none = []
or_no_rules (some rules) = rules

abbrev pub entry : Text → RulesMap → List Rule
entry sys m = or_no_rules (lookup sys m)

-- `add_sys`: the rules that are there stay.
unfoldable pub add_sys : RulesMap → Text → RulesMap
unfolding lookup insert
add_sys m sys = insert sys (entry sys m) m

-- `add_sys_args_match`
unfoldable pub add_sys_args_match : RulesMap → Text → Rule → RulesMap
unfolding lookup insert
add_sys_args_match m sys rule = insert sys (entry sys m ++ (rule ∷ [])) m

-- A call of one of them
pub data Call : Type 0 where
  plain : (sys : Text) → Call
  matching : (sys : Text) (wanted : List Wanted) → Call

unfoldable pub perform : RulesMap → List Call → Result SeccompError RulesMap
unfolding add_sys add_sys_args_match make_rule
perform m [] = ok m
perform m (plain sys ∷ cs) = perform (add_sys m sys) cs
perform m (matching sys wanted ∷ cs) = do
  rule ← make_rule wanted
  perform (add_sys_args_match m sys rule) cs

pub data Action : Type 0 where
  kill_process log_event : Action

pub record Filter : Type 0 where
  pub rules : RulesMap
  pub deny_action : Action
