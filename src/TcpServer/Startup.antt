-- ===== src/TcpServer/Startup.antt =====
-- What a thread of TcpServer::run sets up, before its loop runs: the loop with its receive buffer,
-- and the acceptor on the server's address.
use mutiplex.Base.{
  ℕ, ◌*◌, ◌≡◌, refl, Bool, true, false, Result, ok, err, exception, ◌>>=◌, List, [], ◌∷◌, ◌++◌,
  some, arith,
}
use mutiplex.Base.Int.{ℤ}
use mutiplex.Base.Memory.{Allocator}
use mutiplex.ByteBuffer.{ByteBuffer}
use mutiplex.ByteBuffer.Invariant.{IsValid, new-IsValid}
use mutiplex.EventSource.{add, epollin}
use mutiplex.EventSource.Fresh.{watching, enable_reading-new}
use mutiplex.InetAddress
use mutiplex.ServerSocket
use mutiplex.ServerSocket.{so_reuseport, set_option, bind_to, listen_on}
use mutiplex.Acceptor
use mutiplex.Acceptor.{Acceptor, Call, socket, epoll, epoll_calls}
use mutiplex.EventLoop
use mutiplex.EventLoop.{EventLoop, allocate_receive_buffer}
use mutiplex.Connection.Requests.{int32-small}
use mutiplex.TcpServer.{TcpServer}

-- On the thread `self`; `answer` is what ::socket returns, and `binds` says whether ::bind
-- succeeds.
pub start_thread :
    {C : Type 0}
    → Allocator
    → ℕ
    → ℤ
    → ℤ
    → Bool
    → TcpServer
    → Result (EventLoop C × Acceptor × List Call)
start_thread heap self notify_fd answer binds server = do
  let (loop, watches) = EventLoop.new self notify_fd
  loop' ← EventLoop.allocate_receive_buffer heap loop (64 * 1024)
  (acceptor, calls) ← Acceptor.new answer binds server.addr
  ok (loop', Acceptor.new_connection_callback acceptor true, epoll_calls watches ++ calls)

-- A loop that runs on the thread `self`, with an empty receive buffer of 64 KiB; an acceptor on the
-- server's address whose callback is set; and the calls that this takes, in their order.
pub record IsStarted {C : Type 0} (self : ℕ) (notify_fd fd : ℤ) (server : TcpServer)
    (started : EventLoop C × Acceptor × List Call) : Type 0 where
  pub running : started.0.running ≡ true
  pub thread : started.0.pthread_id ≡ self
  pub idle : (started.0.pending_callbacks ≡ []) × (started.0.task_queue ≡ [])
  pub buffer : ByteBuffer
  pub allocated : started.0.recv_buffer ≡ some buffer
  pub valid : IsValid 65536 buffer
  pub set : started.1.on_new_connection ≡ true
  pub local : started.1.local_addr ≡ server.addr
  pub watched : started.1.accept_event ≡ watching fd epollin
  pub calls :
      started.2
      ≡ epoll (add notify_fd epollin)
        ∷ socket (set_option fd so_reuseport 1)
        ∷ socket (bind_to fd server.addr)
        ∷ socket (listen_on fd)
        ∷ epoll (add fd epollin)
        ∷ []

abbrev pub Starts :
    {C : Type 0}
    → Bool
    → ℕ
    → ℤ
    → ℤ
    → TcpServer
    → Result (EventLoop C × Acceptor × List Call)
    → Type 0
Starts false self notify_fd fd server r = r ≡ err exception
Starts {C = C} true self notify_fd fd server r =
    (started : EventLoop C × Acceptor × List Call) × (r ≡ ok started)
    × IsStarted self notify_fd fd server started

module _ (C : Type 0) (heap : Allocator) where
  pub start_thread-Starts :
      (self : ℕ) (notify_fd fd : ℤ) (binds : Bool) (server : TcpServer)
      → Starts {C = C} binds self notify_fd fd server
          (start_thread {C = C} heap self notify_fd fd binds server)
  unfolding start_thread EventLoop.new allocate_receive_buffer Acceptor.new ServerSocket.new
      ServerSocket.bind ServerSocket.listen ServerSocket.reuse_port Acceptor.new_connection_callback
  start_thread-Starts self notify_fd fd false server =
      let (b, made, v, at, end) = new-IsValid heap 65536 (omega arith) (omega arith) in
      rw (enable_reading-new notify_fd, int32-small 65536 (omega arith), made) refl
  start_thread-Starts self notify_fd fd true server =
      let (b, made, v, at, end) = new-IsValid heap 65536 (omega arith) (omega arith) in
      rw
        (enable_reading-new notify_fd, enable_reading-new fd, int32-small 65536 (omega arith), made)
        (
          (
            record {
              pthread_id = self;
              running = true;
              notify_source = watching notify_fd epollin;
              signals = 0;
              slots = 64;
              pending_callbacks = [];
              task_queue = [];
              recv_buffer = some b;
            },
            record {
              server_socket = record { fd = fd };
              accept_event = watching fd epollin;
              peer_addr = InetAddress.new_empty;
              local_addr = server.addr;
              on_new_connection = true;
            },
            _,
          ),
          refl,
          record {
            running = refl;
            thread = refl;
            idle = (refl, refl);
            buffer = b;
            allocated = refl;
            valid = v;
            set = refl;
            local = refl;
            watched = refl;
            calls = refl;
          },
        )
