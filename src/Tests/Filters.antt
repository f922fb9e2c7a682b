-- ===== src/Tests/Filters.antt =====
-- letmein-seccomp: the filters of the programs, with an engine that reads the map.
use letmein.Base.{
  list_has_eq, nat_has_eq, ℕ, ◌≡◌, refl, ap, Bool, true, false, Option, none, some, List, All, [],
  ◌∷◌, ◌++◌, list_eq, Result, ok,
}
use letmein.Base.Assoc.{lookup, insert}
use letmein.Base.Texts.{Text, text}
use letmein.Conf.{log_only, kill}
use letmein.Seccomp.{Rule, SeccompError, RulesMap, perform, kill_process, log_event, Filter}
use letmein.Seccomp.Confined.{Confined, open_calls, network_programs-Confined}
use letmein.Seccomp.Features.{Allow, fcntl, base_calls, all_calls, compile}
use letmein.Seccomp.Lists.{letmeind_list, letmein_list, install_seccomp_rules}
use letmein.Seccomp.Permits.{
  any_matches, Engine, killed, logged, fate, mentioned, rules_for, allowed, compile-allowed,
}

abbrev verdict : List ℕ → Option (List Rule) → Bool
verdict args none = false
verdict args (some []) = true
verdict args (some (r ∷ rs)) = any_matches args (r ∷ rs)

abbrev reader : RulesMap → Text → List ℕ → Bool
reader m sys args = verdict args (lookup sys m)

abbrev engine : Engine
engine = record {
  permits = reader;
  absent = λ m sys args e. ap (verdict args) e;
  unconditional = λ m sys args e. ap (verdict args) e;
  conditional = λ m sys args r rs e. ap (verdict args) e;
}

abbrev filter_of : Result SeccompError (Option Filter) → Filter
filter_of (ok (some f)) = f
filter_of _ = record { rules = []; deny_action = log_event }

abbrev server_filter : Filter
server_filter = filter_of (install_seccomp_rules letmeind_list true true kill)

abbrev client_filter : Filter
client_filter = filter_of (install_seccomp_rules letmein_list true true kill)

-- A later condition takes away what an earlier feature allows.
abbrev narrowed : List Allow
narrowed = fcntl none ∷ fcntl (some 1) ∷ []

abbrev narrowed_filter : Filter
narrowed_filter = record {
  rules =
      insert (text "fcntl") (((record { arg = 1; bits = 32; value = 1 }) ∷ []) ∷ [])
        (rules_of (perform [] base_calls));
  deny_action = kill_process;
}
  where
    rules_of : Result SeccompError RulesMap → RulesMap
    rules_of (ok m) = m
    rules_of _ = []

compile-allowed_example :
    reader narrowed_filter.rules (text "fcntl") (0 ∷ 2 ∷ [])
    ≡ allowed
        (mentioned (text "fcntl") (base_calls ++ all_calls narrowed))
        (rules_for (text "fcntl") (base_calls ++ all_calls narrowed))
        (0 ∷ 2 ∷ [])
unfolding compile lookup insert list_eq
compile-allowed_example =
    compile-allowed engine narrowed kill_process true narrowed_filter (text "fcntl") (0 ∷ 2 ∷ [])
      refl

narrowed_call : reader narrowed_filter.rules (text "fcntl") (0 ∷ 2 ∷ []) ≡ false
unfolding compile lookup insert list_eq
narrowed_call = refl

network_programs-Confined_example :
    Confined killed (fate engine server_filter)
    × Confined killed (fate engine client_filter)
    × All (λ sys. (args : List ℕ) → fate engine server_filter sys args ≡ killed) open_calls
unfolding install_seccomp_rules list_eq
network_programs-Confined_example =
    network_programs-Confined engine true true kill server_filter client_filter refl refl

-- With `log` the same call is logged and runs.
logged_call :
    fate engine
      (filter_of (install_seccomp_rules letmeind_list true true log_only))
      (text "execve")
      []
    ≡ logged
unfolding install_seccomp_rules lookup list_eq
logged_call = refl
