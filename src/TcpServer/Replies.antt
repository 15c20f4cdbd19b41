-- ===== src/TcpServer/Replies.antt =====
-- A thread of the echo server, from its start to the reply to a client.
use mathlib.Core.Path.{subst}
use mutiplex.Base.{
  ℕ, suc, ◌≤◌, ◌≡◌, ◌≢◌, refl, sym, ap, ◌∙◌, Bool, true, false, ok, List, [], ◌++◌, length, Option,
  some, none, arith,
}
use mutiplex.Base.Int.{ℤ, pos}
use mutiplex.Base.Memory.{Bytes, Allocator}
use mutiplex.ByteBuffer.{ByteBuffer}
use mutiplex.ByteBuffer.Invariant.{IsValid}
use mutiplex.EventSource.{epollin}
use mutiplex.EventSource.Fresh.{watching}
use mutiplex.InetAddress.{InetAddress}
use mutiplex.ServerSocket
use mutiplex.Acceptor
use mutiplex.Acceptor.{Acceptor, Call}
use mutiplex.EventLoop.{EventLoop}
use mutiplex.Connection
use mutiplex.Connection.Context.{receiving, World}
use mutiplex.Connection.Stream.{sent_bytes}
use mutiplex.Connection.Opening.{started, told, told_lem, told_rest, on_new_connection-quiet}
use mutiplex.Connection.Echo.{echo}
use mutiplex.Connection.Conversation.{Hollow, IsOpen, Messages, joined, Talk, talks_through}
use mutiplex.TcpServer.{TcpServer, new_connection, on_accepted, serve}
use mutiplex.TcpServer.Accepted.{served_if}
use mutiplex.TcpServer.Startup.{start_thread, start_thread-Starts}

module _ (heap : Allocator) (server : TcpServer) (buffer : ByteBuffer) (fd : ℕ)
    (local peer : InetAddress) where
  first : World
  first = new_connection server (some buffer) (pos fd) local peer

  -- The connection after its acceptor has passed it on.
  taken : World
  unfolding first
  taken = told server.established_callback (started first) []

  on_accepted-taken : on_accepted heap echo server (some buffer) (pos fd, local, peer) ≡ ok taken
  unfolding on_accepted new_connection taken Connection.new Connection.set_established_callback
      Connection.set_read_callback Connection.set_closed_callback
  on_accepted-taken = on_new_connection-quiet heap echo first refl

  taken-fresh : sent_bytes taken.events ≡ []
  unfolding taken new_connection sent_bytes Connection.new Connection.set_established_callback
      Connection.set_read_callback Connection.set_closed_callback
  taken-fresh = at server.established_callback
    where
      at : (set : Bool) → sent_bytes (told set (started first) []).events ≡ []
      at true = refl
      at false = refl

  -- What it is read with, and what becomes of it.
  taken_facts :
      server.read_callback ≡ true
      → (taken.recv_buffer ≡ some buffer)
        × (taken.conn.read_callback ≡ true)
        × (taken.conn.state ≡ receiving)
        × (taken.conn.event_source ≡ some (watching (pos fd) epollin))
        × (taken.conn.buffer_out ≡ none)
        × (taken.listed ≡ true)
        × (taken.destroyed ≡ false)
        × (taken.task_queue ≡ [])
  unfolding taken new_connection Connection.new Connection.set_established_callback
      Connection.set_read_callback Connection.set_closed_callback
  taken_facts reads =
      let (same, listed, events) = told_lem server.established_callback (started first) [] in
      let (received, alive, queue) = told_rest server.established_callback (started first) [] in
      (
        received,
        ap (λ c. c.read_callback) same ∙ reads,
        ap (λ c. c.state) same,
        ap (λ c. c.event_source) same,
        ap (λ c. c.buffer_out) same,
        listed,
        alive,
        queue,
      )

  taken-IsOpen : server.read_callback ≡ true → IsValid 65536 buffer → IsOpen 65536 taken
  taken-IsOpen reads v =
      let (has, set, state, source, bare, listed, alive, queue) = taken_facts reads in
      record {
        buffer = buffer;
        received = has;
        valid = v;
        reads = set;
        state = state;
        event_source = watching (pos fd) epollin;
        source = source;
        listed = listed;
        alive = alive;
        quiet = queue;
        hollow = subst Hollow (sym bare) tt;
      }

module _ (C : Type 0) (heap : Allocator) (kernel : Bytes → Option ℕ)
    (honest : (xs : Bytes) (n : ℕ) → kernel xs ≡ some n → n ≤ length xs)
    (greedy : (xs : Bytes) → xs ≢ [] → (n : ℕ) × (kernel xs ≡ some (suc n))) where
  -- A server whose read callback is set, to the echo server's, on an address that ::bind accepts, and
  -- a kernel that takes at least one byte of every write, and no more than it is offered. The thread
  -- starts; it accepts a client; the client sends any number of messages of 1 to 65536 bytes, and each
  -- one is read whole, before the next; the tasks run, and there are write events, no more than the
  -- message has bytes. Then the bytes sent are exactly the messages, in their order, and the connection
  -- is receiving, listed and alive, with nothing to send and no task left.
  pub serve-replies :
      (self : ℕ) (notify_fd listen_fd : ℤ) (server : TcpServer) (fd : ℕ) (peer : InetAddress)
      (ms : List Bytes)
      → server.read_callback ≡ true
      → Messages 65536 ms
      → (thread : EventLoop C × Acceptor × List Call) × (start_thread heap self notify_fd listen_fd
            true server
          ≡ ok thread)
        × (w : World) × ((serve heap echo server thread.0.recv_buffer (some (fd, peer)) thread.1).1
            ≡ some (ok w))
        × (w' : World) × Talk heap echo kernel w ms w'
        × IsOpen 65536 w'
        × (sent_bytes w'.events ≡ joined ms)
  unfolding serve Acceptor.handle_accept ServerSocket.accept
  serve-replies self notify_fd listen_fd server fd peer ms reads sized =
      let (thread, begun, is) = start_thread-Starts C heap self notify_fd listen_fd true server in
      let local = thread.1.local_addr in
      let w = taken heap server is.buffer fd local peer in
      let (w', talk, open_, sent) =
        talks_through heap echo kernel honest greedy (λ xs. refl) 65536 (omega arith) ms w
          (taken-IsOpen heap server is.buffer fd local peer reads is.valid) sized in
      (
        thread,
        begun,
        w,
        served_if heap echo server thread.0.recv_buffer thread.1 is.set (pos fd) peer
            ∙ ap (λ o. some (on_accepted heap echo server o (pos fd, local, peer))) is.allocated
            ∙ ap some (on_accepted-taken heap server is.buffer fd local peer),
        w',
        talk,
        open_,
        sent ∙ ap (λ ys. ys ++ joined ms) (taken-fresh heap server is.buffer fd local peer),
      )
