-- ===== src/Seccomp/Features.antt =====
-- letmein-seccomp/src/lib.rs: the features and the system calls of each.
use letmein.Base.{
  ◌>>=◌, ◌>>◌, ℕ, Bool, true, false, not, Option, none, some, List, [], ◌∷◌, ◌++◌, Result, ok,
  guard, check,
}
use letmein.Base.Texts.{text}
use letmein.Seccomp.{
  SeccompError, unsupported_arch, ptr, cond, Call, plain, matching, perform, Action, Filter,
}

pub data Allow : Type 0 where
  mmap mprotect get_uid_gid dup pipe listen unix_accept : Allow
  unix_connect tcp_accept tcp_connect netlink access open_file read : Allow
  write stat recv send signal sig_action futex : Allow
  set_tid_address rseq clone exec wait get_rlimit uname : Allow
  pidfd : Allow
  arch_prctl : Option ℕ → Allow
  set_sock_opt : Option (ℕ × ℕ) → Allow
  ioctl : Option ℕ → Allow
  fcntl : Option ℕ → Allow

-- `AF_UNIX` and the like of `libc`
abbrev pub af_unix : ℕ
af_unix = 1

abbrev pub af_inet : ℕ
af_inet = 2

abbrev pub af_inet6 : ℕ
af_inet6 = 10

abbrev pub af_netlink : ℕ
af_netlink = 16

-- What every filter allows
unfoldable pub base_calls : List Call
base_calls =
    plain (text "brk")
    ∷ plain (text "close")
    ∷ plain (text "close_range")
    ∷ plain (text "exit")
    ∷ plain (text "exit_group")
    ∷ plain (text "getpid")
    ∷ plain (text "getrandom")
    ∷ plain (text "gettid")
    ∷ plain (text "madvise")
    ∷ plain (text "munmap")
    ∷ plain (text "sched_getaffinity")
    ∷ plain (text "sigaltstack")
    ∷ plain (text "nanosleep")
    ∷ plain (text "clock_gettime")
    ∷ plain (text "clock_getres")
    ∷ plain (text "clock_nanosleep")
    ∷ plain (text "gettimeofday")
    ∷ []

-- `add_read_write_rules`
unfoldable pub read_write_calls : List Call
read_write_calls =
    plain (text "epoll_create1")
    ∷ plain (text "epoll_ctl")
    ∷ plain (text "epoll_pwait")
    ∷ plain (text "epoll_pwait2")
    ∷ plain (text "epoll_wait")
    ∷ plain (text "lseek")
    ∷ plain (text "poll")
    ∷ plain (text "ppoll")
    ∷ plain (text "pselect6")
    ∷ []

-- The arms of `match *allow`
unfoldable pub calls_of : Allow → List Call
unfolding read_write_calls
calls_of mmap = plain (text "mmap") ∷ plain (text "mremap") ∷ plain (text "munmap") ∷ []
calls_of mprotect = plain (text "mprotect") ∷ []
calls_of get_uid_gid =
    plain (text "getuid")
    ∷ plain (text "geteuid")
    ∷ plain (text "getgid")
    ∷ plain (text "getegid")
    ∷ []
calls_of (arch_prctl op) = plain (text "arch_prctl") ∷ []
calls_of dup = plain (text "dup") ∷ plain (text "dup2") ∷ plain (text "dup3") ∷ []
calls_of pipe = plain (text "pipe") ∷ plain (text "pipe2") ∷ []
calls_of listen = plain (text "bind") ∷ plain (text "listen") ∷ []
calls_of unix_accept =
    plain (text "accept4")
    ∷ matching (text "socket") (cond 0 32 af_unix ∷ [])
    ∷ plain (text "getsockopt")
    ∷ plain (text "getpeername")
    ∷ []
calls_of unix_connect =
    plain (text "connect")
    ∷ matching (text "socket") (cond 0 32 af_unix ∷ [])
    ∷ plain (text "getsockopt")
    ∷ plain (text "getpeername")
    ∷ []
calls_of tcp_accept =
    plain (text "accept4")
    ∷ matching (text "socket") (cond 0 32 af_inet ∷ [])
    ∷ matching (text "socket") (cond 0 32 af_inet6 ∷ [])
    ∷ plain (text "getsockopt")
    ∷ plain (text "getpeername")
    ∷ []
calls_of tcp_connect =
    plain (text "connect")
    ∷ matching (text "socket") (cond 0 32 af_inet ∷ [])
    ∷ matching (text "socket") (cond 0 32 af_inet6 ∷ [])
    ∷ plain (text "getsockopt")
    ∷ plain (text "getpeername")
    ∷ []
calls_of netlink =
    plain (text "connect")
    ∷ matching (text "socket") (cond 0 32 af_netlink ∷ [])
    ∷ plain (text "getsockopt")
    ∷ []
calls_of (set_sock_opt (some (level, optname))) =
    matching (text "setsockopt") (cond 1 32 level ∷ cond 2 32 optname ∷ []) ∷ []
calls_of (set_sock_opt none) = plain (text "setsockopt") ∷ []
calls_of access = plain (text "access") ∷ plain (text "faccessat") ∷ plain (text "faccessat2") ∷ []
calls_of open_file = plain (text "open") ∷ plain (text "openat") ∷ []
calls_of read =
    plain (text "pread64")
    ∷ plain (text "preadv2")
    ∷ plain (text "read")
    ∷ plain (text "readv")
    ∷ read_write_calls
calls_of write =
    plain (text "fdatasync")
    ∷ plain (text "fsync")
    ∷ plain (text "pwrite64")
    ∷ plain (text "pwritev2")
    ∷ plain (text "write")
    ∷ plain (text "writev")
    ∷ read_write_calls
calls_of (ioctl op) = plain (text "ioctl") ∷ []
calls_of (fcntl (some op)) = matching (text "fcntl") (cond 1 32 op ∷ []) ∷ []
calls_of (fcntl none) = plain (text "fcntl") ∷ []
calls_of stat = plain (text "fstat") ∷ plain (text "statx") ∷ plain (text "newfstatat") ∷ []
calls_of recv = plain (text "recvfrom") ∷ plain (text "recvmsg") ∷ plain (text "recvmmsg") ∷ []
calls_of send = plain (text "sendto") ∷ plain (text "sendmsg") ∷ plain (text "sendmmsg") ∷ []
calls_of signal = plain (text "rt_sigreturn") ∷ plain (text "rt_sigprocmask") ∷ []
calls_of sig_action = plain (text "rt_sigaction") ∷ []
calls_of futex =
    plain (text "futex")
    ∷ plain (text "get_robust_list")
    ∷ plain (text "set_robust_list")
    ∷ plain (text "futex_waitv")
    ∷ []
calls_of set_tid_address = plain (text "set_tid_address") ∷ []
calls_of rseq = plain (text "rseq") ∷ []
calls_of clone = plain (text "clone3") ∷ []
calls_of exec = plain (text "execve") ∷ []
calls_of wait = plain (text "wait4") ∷ []
calls_of get_rlimit = matching (text "prlimit64") (cond 0 32 0 ∷ cond 2 ptr 0 ∷ []) ∷ []
calls_of uname = plain (text "uname") ∷ []
calls_of pidfd = plain (text "pidfd_open") ∷ []

abbrev pub all_calls : List Allow → List Call
all_calls [] = []
all_calls (a ∷ rest) = calls_of a ++ all_calls rest

abbrev pub is_empty : List Allow → Bool
is_empty [] = true
is_empty (a ∷ rest) = false

-- `Filter::compile_for_arch`, with the support for the architecture
unfoldable pub compile : List Allow → Action → Bool → Result SeccompError Filter
unfolding base_calls calls_of perform
compile allow deny_action arch_ok = do
  check (not (is_empty allow))
  rules ← perform [] (base_calls ++ all_calls allow)
  guard arch_ok unsupported_arch
  ok (record { rules = rules; deny_action = deny_action })
