-- ===== src/Acceptor.antt =====
-- mutiplex/Acceptor.h and src/Acceptor.cpp: a listening socket whose reading event accepts a
-- connection and passes its descriptor on.
use mutiplex.Base.{ℕ, Bool, true, false, Result, ok, ◌>>=◌, List, [], ◌∷◌, ◌++◌, Option, none, some}
use mutiplex.Base.Int.{ℤ}
use mutiplex.Base.Memory.{Bytes}
use mutiplex.EventSource
use mutiplex.EventSource.{EventSource, EpollCall}
use mutiplex.InetAddress
use mutiplex.InetAddress.{InetAddress, Libc}
use mutiplex.ServerSocket
use mutiplex.ServerSocket.{ServerSocket, SocketCall}

pub data Call : Type 0 where
  socket : SocketCall → Call
  epoll : EpollCall → Call

abbrev pub socket_calls : List SocketCall → List Call
socket_calls [] = []
socket_calls (call ∷ calls) = socket call ∷ socket_calls calls

abbrev pub epoll_calls : List EpollCall → List Call
epoll_calls [] = []
epoll_calls (call ∷ calls) = epoll call ∷ epoll_calls calls

pub record Acceptor : Type 0 where
  pub server_socket : ServerSocket
  pub accept_event : EventSource
  pub peer_addr : InetAddress
  pub local_addr : InetAddress
  -- whether `on_new_connection_` is set
  pub on_new_connection : Bool

-- `answer` is that of ::socket, and `binds` says whether ::bind succeeds.
unfoldable pub new : ℤ → Bool → InetAddress → Result (Acceptor × List Call)
new answer binds addr = do
  let server_socket = ServerSocket.new answer
  listens ← ServerSocket.bind binds server_socket addr
  let (source, watches) = EventSource.enable_reading (EventSource.new server_socket.fd)
  let acceptor : Acceptor = record {
    server_socket = server_socket;
    accept_event = source;
    peer_addr = InetAddress.new_empty;
    local_addr = addr;
    on_new_connection = false;
  }
  ok (
    acceptor,
    socket_calls (ServerSocket.reuse_port true server_socket ++ listens) ++ epoll_calls watches,
  )

pub new_at_text : Libc → ℤ → Bool → Bytes → Result (Acceptor × List Call)
unfolding new
new_at_text libc answer binds text = InetAddress.parse libc text >>= λ addr. new answer binds addr

unfoldable pub new_connection_callback : Acceptor → Bool → Acceptor
new_connection_callback acceptor callback = record acceptor { on_new_connection = callback }

abbrev pub call_if : Bool → ℤ × InetAddress × InetAddress → Option (ℤ × InetAddress × InetAddress)
call_if true call = some call
call_if false call = none

-- The reading callback: the acceptor after it, and the descriptor, local and peer address that
-- `on_new_connection_` is called with, if it is set.
unfoldable pub handle_accept :
    Option (ℕ × InetAddress) → Acceptor → Acceptor × Option (ℤ × InetAddress × InetAddress)
handle_accept answer acceptor =
    let (fd, peer) = ServerSocket.accept answer in
    (
      record acceptor { peer_addr = peer },
      call_if acceptor.on_new_connection (fd, acceptor.local_addr, peer),
    )

-- ~Acceptor, and after it the destructor of its socket.
pub destroy : Acceptor → List Call
destroy acceptor =
    epoll_calls (EventSource.disable_all acceptor.accept_event).1
    ++ socket_calls (ServerSocket.destroy acceptor.server_socket)
