-- ===== src/Seccomp/Lists.antt =====
-- The `seccomp.rs` of letmeind, letmeinfwd and letmein: what each of the programs is allowed.
use mathlib.Core.List.{filter}
use letmein.Base.{◌>>=◌, ℕ, Bool, true, false, Option, none, some, List, [], ◌∷◌, Result, ok}
use letmein.Conf.{Seccomp, off, log_only, kill}
use letmein.Seccomp.{SeccompError, kill_process, log_event, Filter}
use letmein.Seccomp.Features.{
  Allow, mmap, mprotect, get_uid_gid, dup, pipe, listen, unix_accept, unix_connect, tcp_accept,
  tcp_connect, netlink, access, open_file, read, write, stat, recv, send, signal, sig_action, futex,
  set_tid_address, rseq, clone, exec, wait, get_rlimit, uname, pidfd, arch_prctl, set_sock_opt,
  ioctl, fcntl, compile,
}

-- `IPPROTO_TCP`, `TCP_NODELAY` and `F_GETFD` of `libc`
abbrev pub ipproto_tcp : ℕ
ipproto_tcp = 6

abbrev pub tcp_nodelay : ℕ
tcp_nodelay = 1

abbrev pub f_getfd : ℕ
f_getfd = 1

-- `ALLOW_LIST` of letmeind
abbrev pub letmeind_list : List Allow
letmeind_list =
    mmap
    ∷ mprotect
    ∷ read
    ∷ write
    ∷ fcntl (some f_getfd)
    ∷ recv
    ∷ send
    ∷ listen
    ∷ tcp_accept
    ∷ unix_connect
    ∷ set_sock_opt (some (ipproto_tcp, tcp_nodelay))
    ∷ signal
    ∷ futex
    ∷ []

-- `ALLOW_LIST` of letmeinfwd
abbrev pub letmeinfwd_list : List Allow
letmeinfwd_list =
    mmap
    ∷ mprotect
    ∷ get_uid_gid
    ∷ arch_prctl none
    ∷ dup
    ∷ pipe
    ∷ access
    ∷ open_file
    ∷ read
    ∷ write
    ∷ ioctl none
    ∷ fcntl none
    ∷ stat
    ∷ recv
    ∷ send
    ∷ listen
    ∷ unix_accept
    ∷ netlink
    ∷ set_sock_opt none
    ∷ signal
    ∷ sig_action
    ∷ futex
    ∷ set_tid_address
    ∷ rseq
    ∷ clone
    ∷ exec
    ∷ wait
    ∷ get_rlimit
    ∷ pidfd
    ∷ []

-- `ALLOW_LIST` of letmein
abbrev pub letmein_list : List Allow
letmein_list =
    mmap
    ∷ mprotect
    ∷ open_file
    ∷ read
    ∷ write
    ∷ fcntl (some f_getfd)
    ∷ stat
    ∷ recv
    ∷ send
    ∷ listen
    ∷ tcp_connect
    ∷ set_sock_opt (some (ipproto_tcp, tcp_nodelay))
    ∷ futex
    ∷ uname
    ∷ []

-- `install_seccomp_rules` with the list of a program: the filter that is installed, if any
unfoldable pub install_seccomp_rules :
    List Allow → (supported arch_ok : Bool) → Seccomp → Result SeccompError (Option Filter)
unfolding compile
install_seccomp_rules allow supported arch_ok off = ok none
install_seccomp_rules allow false arch_ok log_only = ok none
install_seccomp_rules allow false arch_ok kill = ok none
install_seccomp_rules allow true arch_ok log_only = do
  filter ← compile allow log_event arch_ok
  ok (some filter)
install_seccomp_rules allow true arch_ok kill = do
  filter ← compile allow kill_process arch_ok
  ok (some filter)
