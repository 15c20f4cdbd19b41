-- ===== src/TcpServer/Datetime.antt =====
-- The datetime server (benchmark/mutiplex/datetime/server.cpp): a thread from its start to the text
-- that a client is sent.
use mathlib.Core.Path.{subst}
use mutiplex.Base.{
  ℕ, ◌<◌, ◌≤◌, ◌≡◌, refl, ap, ◌∙◌, true, ok, ◌>>=◌, List, [], ◌∷◌, ◌++◌, length, length-append,
  append_assoc, Option, some, none, arith,
}
use mutiplex.Base.Int.{ℤ, pos}
use mutiplex.Base.Memory.{Bytes, Allocator}
use mutiplex.ByteBuffer.{ByteBuffer}
use mutiplex.EventSource.{epollin}
use mutiplex.EventSource.Fresh.{watching}
use mutiplex.InetAddress.{InetAddress}
use mutiplex.ServerSocket
use mutiplex.Acceptor
use mutiplex.Acceptor.{Acceptor, Call}
use mutiplex.EventLoop.{EventLoop}
use mutiplex.Timestamp
use mutiplex.Timestamp.{Clock, microseconds_per_second, date_text}
use mutiplex.Timestamp.Text.{Laws, last_second, to_string-current}
use mutiplex.Connection
use mutiplex.Connection.Context.{
  Callback, established, closed_cb, error, read, Request, write_bytes, close_it, World, emit,
  called, receiving,
}
use mutiplex.Connection.{handle_write, perform, on_new_connection}
use mutiplex.Connection.Tasks.{run_tasks}
use mutiplex.Connection.Stream.{sent_bytes, stream}
use mutiplex.Connection.Opening.{started, on_new_connection-performs}
use mutiplex.Connection.Farewell.{IsIdle, Leaves}
use mutiplex.Connection.Farewell.Sending.{Parts, farewell-Parts}
use mutiplex.TcpServer.{TcpServer, new_connection, on_accepted, serve}
use mutiplex.TcpServer.Accepted.{served_if}
use mutiplex.TcpServer.Startup.{start_thread, start_thread-Starts}

-- on_new_connection of the server, at the time `timestamp` of the event; it sets no other callback.
-- The character 10 is '\n'.
abbrev pub datetime : Clock → ℕ → Callback → List Request
datetime clock timestamp established =
    write_bytes (Timestamp.to_string clock timestamp ++ 10 ∷ []) ∷ close_it ∷ []
datetime clock timestamp (read xs) = []
datetime clock timestamp closed_cb = []
datetime clock timestamp error = []

module _ (heap : Allocator) (server : TcpServer) (buffer : Option ByteBuffer) (fd : ℕ)
    (local peer : InetAddress) where
  -- The connection that is announced to the application.
  unfoldable announced : World
  announced =
      emit (started (new_connection server buffer (pos fd) local peer)) (called established ∷ [])

  on_accepted-announced :
      (app : Callback → List Request)
      → server.established_callback ≡ true
      → on_accepted heap app server buffer (pos fd, local, peer)
        ≡ perform heap app announced (app established)
  unfolding on_accepted new_connection announced Connection.new Connection.set_established_callback
      Connection.set_read_callback Connection.set_closed_callback
  on_accepted-announced app set =
      on_new_connection-performs heap app (new_connection server buffer (pos fd) local peer) set

  announced-IsIdle : IsIdle announced
  unfolding announced new_connection
  announced-IsIdle = record { listed = refl; unheld = refl; alive = refl; quiet = refl }

  announced_facts :
      (announced.conn.state ≡ receiving)
      × (announced.conn.event_source ≡ some (watching (pos fd) epollin))
      × (announced.conn.buffer_out ≡ none)
      × (stream announced ≡ [])
  unfolding announced new_connection sent_bytes Connection.new Connection.set_established_callback
      Connection.set_read_callback Connection.set_closed_callback
  announced_facts = (refl, refl, refl, refl)

-- The line that a client is sent.
abbrev pub line : Clock → ℕ → ℕ → Bytes
line clock tv_sec tv_usec =
    date_text clock (clock.localtime tv_sec) ++ 46 ∷ (clock.padded 6 (pos tv_usec) ++ 10 ∷ [])

module _ (C : Type 0) (heap : Allocator) (clock : Clock) (laws : Laws clock)
    (kernel : Bytes → Option ℕ)
    (honest : (xs : Bytes) (n : ℕ) → kernel xs ≡ some n → n ≤ length xs) where
  line_lem :
      (tv_sec tv_usec : ℕ)
      → tv_sec < last_second
      → tv_usec < microseconds_per_second
      → (Timestamp.to_string clock (Timestamp.current tv_sec tv_usec) ++ 10 ∷ []
          ≡ line clock tv_sec tv_usec)
        × (length (line clock tv_sec tv_usec) ≡ 27)
  line_lem tv_sec tv_usec h k =
      let (same, size) = to_string-current clock laws tv_sec tv_usec h k in
      let text = Timestamp.to_string clock (Timestamp.current tv_sec tv_usec) in
      let whole : text ++ 10 ∷ [] ≡ line clock tv_sec tv_usec =
        ap (λ xs. xs ++ 10 ∷ []) same
        ∙ append_assoc (date_text clock (clock.localtime tv_sec))
            (46 ∷ clock.padded 6 (pos tv_usec)) (10 ∷ []) in
      (whole, omega (arith, ap length whole, length-append text (10 ∷ []), size))

  -- A server whose established callback is set, to the datetime server's, on an address that ::bind
  -- accepts; localtime_r and snprintf keep what their manuals promise, and the kernel takes no more of
  -- a write than it is offered. The thread starts; it accepts a client, at a time that gettimeofday
  -- has answered, before the last day of the year 9999; its tasks run, and the line of that time is in
  -- the buffer of the connection. Then one write event of which the kernel takes `n` bytes, at least
  -- one, with the task behind it: if these are all, then the client was sent exactly that line, and
  -- the connection is closed, off its loop and destroyed; if not, the rest stays in the buffer of a
  -- Disconnecting connection that does not ask for writing.
  pub serve-tells_time :
      (self : ℕ) (notify_fd listen_fd : ℤ) (server : TcpServer) (fd : ℕ) (peer : InetAddress)
      (tv_sec tv_usec n : ℕ)
      → server.established_callback ≡ true
      → tv_sec < last_second
      → tv_usec < microseconds_per_second
      → kernel (line clock tv_sec tv_usec) ≡ some n
      → 0 < n
      → let app = datetime clock (Timestamp.current tv_sec tv_usec) in
        (thread : EventLoop C × Acceptor × List Call) × (start_thread heap self notify_fd listen_fd
            true server
          ≡ ok thread)
        × (w0 : World) × ((serve heap app server thread.0.recv_buffer (some (fd, peer)) thread.1).1
            ≡ some (ok w0))
        × (w1 : World) × (run_tasks heap app 3 w0 ≡ ok (w1, true))
        × Leaves [] (line clock tv_sec tv_usec) w1
        × (w2 : World) × ((handle_write heap app kernel w1 >>= run_tasks heap app 2)
            ≡ ok (w2, true))
        × Parts n (line clock tv_sec tv_usec) [] w1 w2
  unfolding serve Acceptor.handle_accept ServerSocket.accept
  serve-tells_time self notify_fd listen_fd server fd peer tv_sec tv_usec n set h k took p =
      let app = datetime clock (Timestamp.current tv_sec tv_usec) in
      let (thread, begun, is) = start_thread-Starts C heap self notify_fd listen_fd true server in
      let local = thread.1.local_addr in
      let w = announced heap server thread.0.recv_buffer fd local peer in
      let (state, source, bare, fresh) =
        announced_facts heap server thread.0.recv_buffer fd local peer in
      let (same, size) = line_lem tv_sec tv_usec h k in
      let (w0, asked, w1, ran, leaves, w2, sent, parts) =
        farewell-Parts heap app kernel honest 0 w (watching (pos fd) epollin)
          (line clock tv_sec tv_usec) n
          (announced-IsIdle heap server thread.0.recv_buffer fd local peer) state source bare refl
          (omega (arith, size)) took p in
      (
        thread,
        begun,
        w0,
        served_if heap app server thread.0.recv_buffer thread.1 is.set (pos fd) peer
            ∙ ap some (
                on_accepted-announced heap server thread.0.recv_buffer fd local peer app set
                ∙ ap (λ xs. perform heap app w (write_bytes xs ∷ close_it ∷ [])) same
                ∙ asked),
        w1,
        ran,
        subst (λ before. Leaves before (line clock tv_sec tv_usec) w1) fresh leaves,
        w2,
        sent,
        subst (λ before. Parts n (line clock tv_sec tv_usec) before w1 w2) fresh parts,
      )
