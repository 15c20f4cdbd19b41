-- ===== src/ServerSocket.antt =====
-- mutiplex/ServerSocket.h and src/ServerSocket.cpp: a listening socket. The system calls are outside:
-- an operation takes their answers and returns the calls it makes, in order.
use mutiplex.Base.{
  ℕ, Bool, if◌then◌else◌, Result, ok, err, exception, List, [], ◌∷◌, Option, none, some,
}
use mutiplex.Base.Int.{ℤ, pos, negsuc}
use mutiplex.InetAddress
use mutiplex.InetAddress.{InetAddress}

pub data SocketOption : Type 0 where
  so_reuseaddr so_reuseport : SocketOption

pub data SocketCall : Type 0 where
  set_option : ℤ → SocketOption → ℕ → SocketCall
  bind_to : ℤ → InetAddress → SocketCall
  listen_on : ℤ → SocketCall
  close_fd : ℤ → SocketCall

pub record ServerSocket : Type 0 where
  pub fd : ℤ

-- `answer` is what ::socket returns; a failure is only logged.
unfoldable pub new : ℤ → ServerSocket
new answer = record { fd = answer }

-- A failure of ::listen is only logged.
unfoldable pub listen : ServerSocket → List SocketCall
listen socket = listen_on socket.fd ∷ []

-- `binds` says whether ::bind succeeds.
unfoldable pub bind : Bool → ServerSocket → InetAddress → Result (List SocketCall)
unfolding listen
bind binds socket addr =
    if binds then ok (bind_to socket.fd addr ∷ listen socket) else err exception

-- `answer` is what ::accept4 returns, with the peer that it stores; `none` is -1, for which the
-- cleared sockaddr_in stays as it is.
unfoldable pub accept : Option (ℕ × InetAddress) → ℤ × InetAddress
accept none = (negsuc 0, InetAddress.new 0 0)
accept (some (fd, peer)) = (pos fd, peer)

abbrev flag : Bool → ℕ
flag on = if on then 1 else 0

pub reuse_address : Bool → ServerSocket → List SocketCall
reuse_address on socket = set_option socket.fd so_reuseaddr (flag on) ∷ []

unfoldable pub reuse_port : Bool → ServerSocket → List SocketCall
reuse_port on socket = set_option socket.fd so_reuseport (flag on) ∷ []

-- ~ServerSocket
pub destroy : ServerSocket → List SocketCall
destroy socket = close_fd socket.fd ∷ []
