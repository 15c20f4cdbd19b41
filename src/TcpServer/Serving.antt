-- ===== src/TcpServer/Serving.antt =====
-- A thread of TcpServer::run with all connections that its acceptor and connectors on its loop have
-- made: the callback of the acceptor, the connectors' attempts, and the loop's turns.
mod Tests
use mathlib.Core.Option.{some_inj}
use mutiplex.Base.{
  ℕ, ◌≡◌, refl, sym, ap, ◌∙◌, true, ok, ok-injective, List, [], ◌++◌, Option, none, some,
}
use mutiplex.Base.Int.{ℤ}
use mutiplex.Base.Memory.{Allocator}
use mutiplex.ByteBuffer.{ByteBuffer}
use mutiplex.InetAddress.{InetAddress}
use mutiplex.Acceptor
use mutiplex.Acceptor.{Acceptor, Call}
use mutiplex.EventLoop
use mutiplex.EventLoop.{EventLoop}
use mutiplex.Connection
use mutiplex.Connection.Context.{Callback, Request, World}
use mutiplex.Connection.Execution.Soundness.{Sound}
use mutiplex.Connection.Sharing.{Posted, Loop, tagged, view, arrive, Turn, Served, idle, turn}
use mutiplex.Connection.Sharing.Isolation.{served-Sound}
use mutiplex.Connection.Sharing.Arrival.{Made, Made-Served}
use mutiplex.Connector.{Connector, Life, ConnectAnswer}
use mutiplex.Connector.Attempt.{attempt}
use mutiplex.Connector.Handing.{attempt-Made}
use mutiplex.TcpServer.{TcpServer, new_connection, on_accepted, call_back, serve}
use mutiplex.TcpServer.Startup.{start_thread, start_thread-Starts}

-- The loop of a thread that has just started.
abbrev pub first_loop : EventLoop Posted → Loop
first_loop loop = record {
  connections = λ i. none;
  entries = λ fd. none;
  handed = λ i. [];
  task_queue = loop.task_queue;
  pending = loop.pending_callbacks;
  recv_buffer = loop.recv_buffer;
}

-- From the start of the thread on; every connection gets a new number.
pub data Serving (heap : Allocator) (server : TcpServer) : Acceptor → Loop → Type 0 where
  opened :
      (self : ℕ) (notify_fd listen_fd : ℤ) (thread : EventLoop Posted × Acceptor × List Call)
      → start_thread heap self notify_fd listen_fd true server ≡ ok thread
      → Serving heap server thread.1 (first_loop thread.0)
  accepts :
      {acceptor : Acceptor} {s : Loop} (i : ℕ) (app : Callback → List Request)
      (answer : Option (ℕ × InetAddress)) (w : World)
      → Serving heap server acceptor s
      → s.connections i ≡ none
      → (serve heap app server s.recv_buffer answer acceptor).1 ≡ some (ok w)
      → Serving heap server
          (serve heap app server s.recv_buffer answer acceptor).0
          (arrive s i w (s.task_queue ++ tagged i w.task_queue))
  -- The application of the server may connect to others, on the loop of the thread.
  connects :
      {acceptor : Acceptor} {s : Loop} (i : ℕ) (app : Callback → List Request)
      (answer : ConnectAnswer) (ready code : ℕ) (name : Option InetAddress) (c : Connector)
      (life : Life) (w : World)
      → Serving heap server acceptor s
      → s.connections i ≡ none
      → attempt heap app answer ready code name s.recv_buffer c ≡ ok life
      → life.connection ≡ some w
      → Serving heap server acceptor (arrive s i w (s.task_queue ++ tagged i w.task_queue))
  turns :
      {acceptor : Acceptor} {s s' : Loop}
      → Serving heap server acceptor s
      → Turn heap s s'
      → Serving heap server acceptor s'

module _ (heap : Allocator) (server : TcpServer) where
  -- A connection that the server makes is one that the loop takes on.
  on_accepted-Made :
      (app : Callback → List Request) (buffer : Option ByteBuffer)
      (call : ℤ × InetAddress × InetAddress) (w : World)
      → on_accepted heap app server buffer call ≡ ok w
      → Made heap app buffer w
  unfolding on_accepted new_connection Connection.new Connection.set_established_callback
      Connection.set_read_callback Connection.set_closed_callback
  on_accepted-Made app buffer (fd, local, peer) w e =
      (new_connection server buffer fd local peer, e, refl, refl, refl, refl)

  called_back :
      (app : Callback → List Request) (buffer : Option ByteBuffer)
      (call : Option (ℤ × InetAddress × InetAddress)) (w : World)
      → call_back heap app server buffer call ≡ some (ok w)
      → (c : ℤ × InetAddress × InetAddress) × (on_accepted heap app server buffer c ≡ ok w)
  called_back app buffer none w e = cc
  called_back app buffer (some c) w e = (c, some_inj.0 e)

  Serving-Served : {acceptor : Acceptor} {s : Loop} → Serving heap server acceptor s → Served heap s
  unfolding serve
  Serving-Served (opened self notify_fd listen_fd thread e) =
      let (thread', e', is) =
        start_thread-Starts Posted heap self notify_fd listen_fd true server in
      idle (λ i. refl) (λ fd. refl)
        (ap (λ t. t.0.task_queue) (ok-injective (sym e ∙ e')) ∙ is.idle.1)
  Serving-Served (accepts {acceptor} {s} i app answer w before new e) =
      let (call, e') =
        called_back app s.recv_buffer (Acceptor.handle_accept answer acceptor).1 w e in
      Made-Served heap app s i w (on_accepted-Made app s.recv_buffer call w e')
        (Serving-Served before) new
  Serving-Served (connects {acceptor} {s} i app answer ready code name c life w before new e has) =
      Made-Served heap app s i w
        (attempt-Made heap app s.recv_buffer answer ready code name c life w e has)
        (Serving-Served before) new
  Serving-Served (turns before step) = turn (Serving-Served before) step

  -- A thread of TcpServer::run on an address that ::bind accepts: it starts, and then, in any
  -- order, its acceptor takes on connections, any number of failed accept4 included, whose
  -- connections share the descriptor -1 and its entry in `connections_`, connectors on its loop
  -- make others, and the loop takes its turns, as long as every step returned, and every write that
  -- ran fitted: into a new buffer, or into the one there was, as it was, or grown to at most 2^31
  -- bytes unless it was full with `in_` at index 0: of every connection the event source is there,
  -- the buffer is valid if there is one, and the bytes that it sent, followed by those that it
  -- holds, are the bytes that it was handed itself, in their order. Only when it is closed may
  -- bytes at the end have been thrown away, and then it holds none.
  pub serving-Sound :
      {acceptor : Acceptor} {s : Loop} {w : World} (i : ℕ)
      → Serving heap server acceptor s
      → s.connections i ≡ some w
      → Sound (view s i w) (s.handed i)
  serving-Sound i serving has = served-Sound heap i (Serving-Served serving) has
