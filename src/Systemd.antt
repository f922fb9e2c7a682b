-- ===== src/Systemd.antt =====
-- letmein-systemd/src/lib.rs: the sockets that systemd hands over. What `fstat`, `getsockopt` and
-- `getsockname` answer for a file descriptor are fields of it.
use letmein.Base.{
  ◌>>=◌, ◌≡◌, Bool, true, false, ◌&&◌, Option, none, some, List, [], ◌∷◌, arith, if◌then◌else◌,
  Result, ok, err, All, bind-eq-ok, ok_inj, subst,
}

pub data SocketType : Type 0 where
  stream dgram other_type : SocketType

pub data SocketFamily : Type 0 where
  inet inet6 unix other_family : SocketFamily

pub record Fd : Type 0 where
  pub is_socket : Bool
  pub socket_type : Option SocketType
  pub socket_family : Option SocketFamily

-- `SystemdSocket`
pub data SystemdSocket : Type 0 where
  udp_socket tcp_socket unix_socket : Fd → SystemdSocket

-- The cargo features of the crate
pub record Features : Type 0 where
  pub udp : Bool
  pub tcp : Bool
  pub unix : Bool

pub data SystemdError : Type 0 where
  listen_fds_failed unknown_socket : SystemdError

abbrev is_inet46 : Option SocketFamily → Bool
is_inet46 (some inet) = true
is_inet46 (some inet6) = true
is_inet46 _ = false

abbrev is_unix : Option SocketFamily → Bool
is_unix (some unix) = true
is_unix _ = false

abbrev is_dgram : Option SocketType → Bool
is_dgram (some dgram) = true
is_dgram _ = false

abbrev is_stream : Option SocketType → Bool
is_stream (some stream) = true
is_stream _ = false

unfoldable pub is_udp_socket : Fd → Bool
is_udp_socket fd = fd.is_socket && is_dgram fd.socket_type && is_inet46 fd.socket_family

unfoldable pub is_tcp_socket : Fd → Bool
is_tcp_socket fd = fd.is_socket && is_stream fd.socket_type && is_inet46 fd.socket_family

unfoldable pub is_unix_socket : Fd → Bool
is_unix_socket fd = fd.is_socket && is_stream fd.socket_type && is_unix fd.socket_family

abbrev pub classify : Features → Fd → Result SystemdError SystemdSocket
classify features fd =
    if features.udp && is_udp_socket fd
    then ok (udp_socket fd)
    else if features.tcp && is_tcp_socket fd
    then ok (tcp_socket fd)
    else if features.unix && is_unix_socket fd
    then ok (unix_socket fd)
    else err unknown_socket

-- The loop of `SystemdSocket::get_all`
unfoldable pub classify_all : Features → List Fd → Result SystemdError (List SystemdSocket)
unfolding is_udp_socket is_tcp_socket is_unix_socket
classify_all features [] = ok []
classify_all features (fd ∷ fds) = do
  socket ← classify features fd
  sockets ← classify_all features fds
  ok (socket ∷ sockets)

-- `SystemdSocket::get_all`, where `booted` and `listen_fds` are what `sd_notify` answers
unfoldable pub get_all :
    Features
    → (booted : Bool) → (listen_fds : Option (List Fd)) → Result SystemdError (List SystemdSocket)
unfolding classify_all
get_all features false listen_fds = ok []
get_all features true none = err listen_fds_failed
get_all features true (some fds) = classify_all features fds

-- The socket is of the kind that it is passed on as.
abbrev pub IsKind : SystemdSocket → Type 0
IsKind (udp_socket fd) = is_udp_socket fd ≡ true
IsKind (tcp_socket fd) = is_tcp_socket fd ≡ true
IsKind (unix_socket fd) = is_unix_socket fd ≡ true

classify-IsKind :
    (features : Features) (fd : Fd) (socket : SystemdSocket)
    → classify features fd ≡ ok socket
    → IsKind socket
classify-IsKind features fd socket e = ground (arith, e)

classify_all-IsKind :
    (features : Features) (fds : List Fd) (sockets : List SystemdSocket)
    → classify_all features fds ≡ ok sockets
    → All IsKind sockets
unfolding classify_all
classify_all-IsKind features [] sockets e = subst (All IsKind) (ok_inj e) tt
classify_all-IsKind features (fd ∷ fds) sockets e =
    let (socket, first, e1) = bind-eq-ok (classify features fd) _ e in
    let (rest, more, e2) = bind-eq-ok (classify_all features fds) _ e1 in
    subst (All IsKind) (ok_inj e2)
      (classify-IsKind features fd socket first, classify_all-IsKind features fds rest more)

-- Every socket from systemd is of the kind that it is passed on as.
pub get_all-IsKind :
    (features : Features) (booted : Bool) (listen_fds : Option (List Fd))
    (sockets : List SystemdSocket)
    → get_all features booted listen_fds ≡ ok sockets
    → All IsKind sockets
unfolding get_all
get_all-IsKind features false listen_fds sockets e = subst (All IsKind) (ok_inj e) tt
get_all-IsKind features true none sockets e = cc
get_all-IsKind features true (some fds) sockets e = classify_all-IsKind features fds sockets e
