-- ===== src/TcpServer/Accepted.antt =====
-- What becomes of the answer of ::accept4.
use mutiplex.Base.{ℕ, ◌≡◌, ap, ◌∙◌, true, ok, List, ◌∷◌, Option, none, some}
use mutiplex.Base.Int.{ℤ, pos, negsuc}
use mutiplex.Base.Memory.{Allocator}
use mutiplex.ByteBuffer.{ByteBuffer}
use mutiplex.EventSource
use mutiplex.InetAddress.{InetAddress, new}
use mutiplex.Acceptor
use mutiplex.Acceptor.{Acceptor}
use mutiplex.Connection
use mutiplex.Connection.Context.{receiving, Callback, established, Request, epoll, World}
use mutiplex.Connection.Requests.{Sized}
use mutiplex.Connection.Opening.{started, notice, told, told_lem, on_new_connection-Notifies}
use mutiplex.ServerSocket
use mutiplex.TcpServer.{TcpServer, serve, call_back, new_connection, on_accepted}

-- The descriptor and the peer that an answer of ::accept4 stands for.
abbrev pub answered : Option (ℕ × InetAddress) → ℤ × InetAddress
answered none = (negsuc 0, new 0 0)
answered (some (fd, peer)) = (pos fd, peer)

module _ (heap : Allocator) (app : Callback → List Request) where
  -- The connection `w` of the descriptor `fd`: receiving, listed by its loop, watched for reading, and
  -- announced to the application.
  abbrev pub IsServed : TcpServer → Acceptor → ℤ × InetAddress → World → Type 0
  IsServed server acceptor (fd, peer) w =
      (w.conn.fd ≡ fd)
      × (w.conn.local ≡ acceptor.local_addr)
      × (w.conn.peer ≡ peer)
      × (w.conn.state ≡ receiving)
      × (w.listed ≡ true)
      × (w.events
          ≡ epoll (EventSource.add fd EventSource.epollin) ∷ notice server.established_callback)

  on_accepted-IsServed :
      (server : TcpServer) (buffer : Option ByteBuffer) (acceptor : Acceptor) (fd : ℤ)
      (peer : InetAddress)
      → Sized (app established)
      → (w : World) × (on_accepted heap app server buffer (fd, acceptor.local_addr, peer) ≡ ok w)
        × IsServed server acceptor (fd, peer) w
  unfolding on_accepted new_connection Connection.new Connection.set_established_callback
      Connection.set_read_callback Connection.set_closed_callback
  on_accepted-IsServed server buffer acceptor fd peer sized =
      let first = new_connection server buffer fd acceptor.local_addr peer in
      let (ts, e) = on_new_connection-Notifies heap app first sized in
      let (same, listed, events) = told_lem server.established_callback (started first) ts in
      (
        told server.established_callback (started first) ts,
        e,
        (
          ap (λ c. c.fd) same,
          ap (λ c. c.local) same,
          ap (λ c. c.peer) same,
          ap (λ c. c.state) same,
          listed,
          events,
        ),
      )

  pub served_if :
      (server : TcpServer) (buffer : Option ByteBuffer) (acceptor : Acceptor)
      → acceptor.on_new_connection ≡ true
      → (fd : ℤ) (peer : InetAddress)
      → call_back heap app server buffer
          (Acceptor.call_if acceptor.on_new_connection (fd, acceptor.local_addr, peer))
        ≡ some (on_accepted heap app server buffer (fd, acceptor.local_addr, peer))
  served_if server buffer acceptor set fd peer =
      ap
        (λ t. call_back heap app server buffer (Acceptor.call_if t (fd, acceptor.local_addr, peer)))
        set

  -- For an acceptor whose callback is set, and an application whose answer to the established
  -- callback writes only blocks of 1 to 2^31 - 1 bytes: every answer of ::accept4, -1 included, gives
  -- a connection that is receiving, listed by its loop under the answered descriptor, requested of
  -- epoll for reading, and announced to the application once if the established callback is set. For
  -- -1 the descriptor is -1 and the peer 0.0.0.0:0.
  pub serve-IsServed :
      (server : TcpServer) (buffer : Option ByteBuffer) (answer : Option (ℕ × InetAddress))
      (acceptor : Acceptor)
      → acceptor.on_new_connection ≡ true
      → Sized (app established)
      → (w : World) × ((serve heap app server buffer answer acceptor).1 ≡ some (ok w))
        × IsServed server acceptor (answered answer) w
  unfolding serve Acceptor.handle_accept ServerSocket.accept
  serve-IsServed server buffer none acceptor set sized =
      let (w, e, served) = on_accepted-IsServed server buffer acceptor (negsuc 0) (new 0 0) sized in
      (w, served_if server buffer acceptor set (negsuc 0) (new 0 0) ∙ ap some e, served)
  serve-IsServed server buffer (some (fd, peer)) acceptor set sized =
      let (w, e, served) = on_accepted-IsServed server buffer acceptor (pos fd) peer sized in
      (w, served_if server buffer acceptor set (pos fd) peer ∙ ap some e, served)
