-- ===== src/Seccomp/Confined.antt =====
-- letmeind/src/seccomp.rs and letmein/src/seccomp.rs: what the installed filters leave to the
-- programs.
use letmein.Base.{
  list_has_eq, nat_has_eq, ℕ, ◌%◌, ◌^◌, ◌≡◌, refl, ◌≢◌, sym, ap, ◌∙◌, ◌⊎◌, Bool, true, false, not,
  ◌&&◌, some, List, [], ◌∷◌, ◌++◌, All, arith, list_eq, if◌then◌else◌, ok, ok_inj, bind-eq-ok,
  check, guard,
}
use letmein.Base.Texts.{Text, text}
use letmein.Conf.{Seccomp, off, log_only, kill}
use letmein.Seccomp.{Call, perform, unsupported_arch, Action, kill_process, log_event, Filter}
use letmein.Seccomp.Features.{
  Allow, af_unix, af_inet, af_inet6, base_calls, calls_of, all_calls, is_empty, compile,
}
use letmein.Seccomp.Lists.{
  ipproto_tcp, tcp_nodelay, f_getfd, letmeind_list, install_seccomp_rules, letmein_list,
}
use letmein.Seccomp.Permits.{
  arg_at, Engine, Fate, runs, killed, logged, denied, fate, mentioned, rules_for, allowed,
  compile-allowed,
}

-- What the setting `seccomp` of the configuration means for a call that the filter does not allow
abbrev pub denied_under : Seccomp → Fate
denied_under off = runs
denied_under log_only = logged
denied_under kill = killed

compile-denied :
    (allow : List Allow) (deny_action : Action) (arch_ok : Bool) (filter : Filter)
    → compile allow deny_action arch_ok ≡ ok filter
    → filter.deny_action ≡ deny_action
unfolding compile
compile-denied allow deny_action arch_ok filter e =
    let (_, _, e1) = bind-eq-ok (check (not (is_empty allow))) _ e in
    let (rules, _, e2) = bind-eq-ok (perform [] (base_calls ++ all_calls allow)) _ e1 in
    let (_, _, e3) = bind-eq-ok (guard arch_ok unsupported_arch) _ e2 in
    ap (λ (f : Filter). f.deny_action) (sym (ok_inj e3))

install-compile :
    (allow : List Allow) (supported arch_ok : Bool) (seccomp : Seccomp) (filter : Filter)
    → install_seccomp_rules allow supported arch_ok seccomp ≡ ok (some filter)
    → (action : Action) × (compile allow action arch_ok ≡ ok filter)
      × (denied action ≡ denied_under seccomp)
unfolding install_seccomp_rules
install-compile allow supported arch_ok off filter e = cc
install-compile allow false arch_ok log_only filter e = cc
install-compile allow false arch_ok kill filter e = cc
install-compile allow true arch_ok log_only filter e =
    let (f, compiled, same_filter) =
      bind-eq-ok (compile allow log_event arch_ok) (λ f. ok (some f)) e in
    (log_event, ground (arith, compiled, same_filter), refl)
install-compile allow true arch_ok kill filter e =
    let (f, compiled, same_filter) =
      bind-eq-ok (compile allow kill_process arch_ok) (λ f. ok (some f)) e in
    (kill_process, ground (arith, compiled, same_filter), refl)

-- None of the names is that of one of the calls.
abbrev none_mentioned : List Text → List Call → Bool
none_mentioned [] calls = true
none_mentioned (sys ∷ names) calls = not (mentioned sys calls) && none_mentioned names calls

module _ (engine : Engine) (allow : List Allow) (supported arch_ok : Bool) (seccomp : Seccomp)
    (filter : Filter)
    (installed : install_seccomp_rules allow supported arch_ok seccomp ≡ ok (some filter)) where
  abbrev calls : List Call
  calls = base_calls ++ all_calls allow

  fate-allowed :
      (sys : Text) (args : List ℕ)
      → fate engine filter sys args ≡ (
          if allowed (mentioned sys calls) (rules_for sys calls) args
          then runs
          else denied_under seccomp)
  fate-allowed sys args =
      let (action, compiled, same) =
        install-compile allow supported arch_ok seccomp filter installed in
      let action_kept = compile-denied allow action arch_ok filter compiled in
      ap (λ b. if b then runs else denied filter.deny_action)
        (compile-allowed engine allow action arch_ok filter sys args compiled)
      ∙ ap (λ x. if allowed (mentioned sys calls) (rules_for sys calls) args then runs else x)
          (ap denied action_kept ∙ same)

  -- A call that the features do not name is denied.
  fate-unmentioned :
      (sys : Text)
      → mentioned sys calls ≡ false
      → (args : List ℕ) → fate engine filter sys args ≡ denied_under seccomp
  fate-unmentioned sys absent args = by_case (mentioned sys calls) absent (fate-allowed sys args)
    where
      by_case :
          (b : Bool)
          → b ≡ false
          → fate engine filter sys args
            ≡ (if allowed b (rules_for sys calls) args then runs else denied_under seccomp)
          → fate engine filter sys args ≡ denied_under seccomp
      by_case true h e = cc
      by_case false h e = e

  -- A call that is not denied is allowed by the features.
  fate-allows :
      (sys : Text) (args : List ℕ)
      → fate engine filter sys args ≢ denied_under seccomp
      → allowed (mentioned sys calls) (rules_for sys calls) args ≡ true
  fate-allows sys args h =
      by_case (allowed (mentioned sys calls) (rules_for sys calls) args) (fate-allowed sys args)
    where
      by_case :
          (b : Bool)
          → fate engine filter sys args ≡ (if b then runs else denied_under seccomp)
          → b ≡ true
      by_case true e = refl
      by_case false e = absurd (h e)

  none_mentioned-All :
      (names : List Text)
      → none_mentioned names calls ≡ true
      → All (λ sys. (args : List ℕ) → fate engine filter sys args ≡ denied_under seccomp) names
  none_mentioned-All [] h = tt
  none_mentioned-All (sys ∷ names) h =
      (fate-unmentioned sys (ground (arith, h)), none_mentioned-All names (ground (arith, h)))

-- Calls that run programs, load code into the kernel, make processes, or reach into other processes
abbrev pub program_calls : List Text
program_calls =
    text "execve"
    ∷ text "execveat"
    ∷ text "fork"
    ∷ text "vfork"
    ∷ text "clone"
    ∷ text "clone3"
    ∷ text "ptrace"
    ∷ text "process_vm_readv"
    ∷ text "process_vm_writev"
    ∷ text "kill"
    ∷ text "init_module"
    ∷ text "finit_module"
    ∷ text "kexec_load"
    ∷ text "bpf"
    ∷ text "io_uring_setup"
    ∷ []

-- Calls that change what the process may do
abbrev pub privilege_calls : List Text
privilege_calls =
    text "setuid"
    ∷ text "setgid"
    ∷ text "setreuid"
    ∷ text "setregid"
    ∷ text "setresuid"
    ∷ text "setresgid"
    ∷ text "setgroups"
    ∷ text "capset"
    ∷ text "chroot"
    ∷ text "pivot_root"
    ∷ text "mount"
    ∷ text "umount2"
    ∷ text "unshare"
    ∷ text "setns"
    ∷ text "prctl"
    ∷ text "seccomp"
    ∷ []

-- Calls that change files by their names
abbrev pub change_calls : List Text
change_calls =
    text "rename"
    ∷ text "renameat"
    ∷ text "renameat2"
    ∷ text "unlink"
    ∷ text "unlinkat"
    ∷ text "link"
    ∷ text "linkat"
    ∷ text "symlink"
    ∷ text "symlinkat"
    ∷ text "mkdir"
    ∷ text "mkdirat"
    ∷ text "rmdir"
    ∷ text "mknod"
    ∷ text "mknodat"
    ∷ text "chmod"
    ∷ text "fchmodat"
    ∷ text "chown"
    ∷ text "lchown"
    ∷ text "fchownat"
    ∷ text "truncate"
    ∷ []

-- Calls that open files
abbrev pub open_calls : List Text
open_calls =
    text "open" ∷ text "openat" ∷ text "openat2" ∷ text "creat" ∷ text "open_by_handle_at" ∷ []

abbrev family : List ℕ → ℕ
family args = arg_at args 0 % 2 ^ 32

-- A filter that denies these calls, and the others with other arguments
pub record Confined (deny : Fate) (fate_of : Text → List ℕ → Fate) : Type 0 where
  pub denies :
      All
        (λ sys. (args : List ℕ) → fate_of sys args ≡ deny)
        (program_calls ++ privilege_calls ++ change_calls)
  pub sockets :
      (args : List ℕ)
      → fate_of (text "socket") args ≢ deny
      → (family args ≡ af_unix) ⊎ ((family args ≡ af_inet) ⊎ (family args ≡ af_inet6))
  pub options :
      (args : List ℕ)
      → fate_of (text "setsockopt") args ≢ deny
      → (arg_at args 1 % 2 ^ 32 ≡ ipproto_tcp) × (arg_at args 2 % 2 ^ 32 ≡ tcp_nodelay)
  pub descriptors :
      (args : List ℕ) → fate_of (text "fcntl") args ≢ deny → arg_at args 1 % 2 ^ 32 ≡ f_getfd

module _ (engine : Engine) (supported arch_ok : Bool) (seccomp : Seccomp) (filter : Filter) where
  letmeind_list-Confined :
      install_seccomp_rules letmeind_list supported arch_ok seccomp ≡ ok (some filter)
      → Confined (denied_under seccomp) (fate engine filter)
        × All
            (λ sys. (args : List ℕ) → fate engine filter sys args ≡ denied_under seccomp)
            open_calls
  unfolding base_calls calls_of list_eq
  letmeind_list-Confined e =
      let allows = fate-allows engine letmeind_list supported arch_ok seccomp filter e in
      let none_of = none_mentioned-All engine letmeind_list supported arch_ok seccomp filter e in
      (
        record {
          denies = none_of (program_calls ++ privilege_calls ++ change_calls) refl;
          sockets = λ args p. let q = allows (text "socket") args p in ground (arith, q);
          options = λ args p. let q = allows (text "setsockopt") args p in ground (arith, q);
          descriptors = λ args p. let q = allows (text "fcntl") args p in ground (arith, q);
        },
        none_of open_calls refl,
      )

  letmein_list-Confined :
      install_seccomp_rules letmein_list supported arch_ok seccomp ≡ ok (some filter)
      → Confined (denied_under seccomp) (fate engine filter)
  unfolding base_calls calls_of list_eq
  letmein_list-Confined e =
      let allows = fate-allows engine letmein_list supported arch_ok seccomp filter e in
      record {
        denies =
            none_mentioned-All engine letmein_list supported arch_ok seccomp filter e
              (program_calls ++ privilege_calls ++ change_calls) refl;
        sockets = λ args p. let q = allows (text "socket") args p in ground (arith, q);
        options = λ args p. let q = allows (text "setsockopt") args p in ground (arith, q);
        descriptors = λ args p. let q = allows (text "fcntl") args p in ground (arith, q);
      }

-- The filters that letmeind and letmein install deny every call of the lists `program_calls` (to run
-- programs, to make processes), `privilege_calls` and `change_calls` (to change files by name),
-- sockets of other families than UNIX, INET and INET6, socket options other than TCP_NODELAY and
-- descriptor operations other than F_GETFD; that of letmeind denies the calls of `open_calls` too.
-- With seccomp=kill a denied call kills the program; with seccomp=log it is only logged and runs.
pub network_programs-Confined :
    (engine : Engine) (supported arch_ok : Bool) (seccomp : Seccomp) (server client : Filter)
    → install_seccomp_rules letmeind_list supported arch_ok seccomp ≡ ok (some server)
    → install_seccomp_rules letmein_list supported arch_ok seccomp ≡ ok (some client)
    → Confined (denied_under seccomp) (fate engine server)
      × Confined (denied_under seccomp) (fate engine client)
      × All (λ sys. (args : List ℕ) → fate engine server sys args ≡ denied_under seccomp) open_calls
network_programs-Confined engine supported arch_ok seccomp server client e f =
    let (confined, no_files) = letmeind_list-Confined engine supported arch_ok seccomp server e in
    (confined, letmein_list-Confined engine supported arch_ok seccomp client f, no_files)
