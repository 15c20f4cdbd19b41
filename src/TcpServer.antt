-- ===== src/TcpServer.antt =====
-- mutiplex/TcpServer.h and src/TcpServer.cpp: a server with an event loop and an acceptor in each
-- of its threads. What a thread does with an accepted connection is here; the threads are in
-- Threads.
pub mod Accepted
pub mod Threads
pub mod Startup
pub mod Serving
pub mod Replies
pub mod Datetime
mod Tests
use mutiplex.Base.{ℕ, Bool, false, Result, ok, ◌>>=◌, List, [], Option, none, some}
use mutiplex.Base.Int.{ℤ}
use mutiplex.Base.Memory.{Bytes, Allocator}
use mutiplex.ByteBuffer.{ByteBuffer}
use mutiplex.InetAddress
use mutiplex.InetAddress.{InetAddress, Libc}
use mutiplex.Acceptor
use mutiplex.Acceptor.{Acceptor}
use mutiplex.Connection
use mutiplex.Connection.Context.{Callback, Request, Connection, World}

pub record TcpServer : Type 0 where
  pub addr : InetAddress
  pub num_io_threads : ℤ
  -- which of the std::function members are set
  pub established_callback : Bool
  pub read_callback : Bool
  pub closed_callback : Bool

pub new : Libc → Bytes → ℤ → Result TcpServer
new libc text num_io_threads = do
  addr ← InetAddress.parse libc text
  ok (record {
    addr = addr;
    num_io_threads = num_io_threads;
    established_callback = false;
    read_callback = false;
    closed_callback = false;
  })

pub set_established_callback : TcpServer → Bool → TcpServer
set_established_callback server cb = record server { established_callback = cb }

pub set_read_callback : TcpServer → Bool → TcpServer
set_read_callback server cb = record server { read_callback = cb }

pub connection_closed_callback : TcpServer → Bool → TcpServer
connection_closed_callback server cb = record server { closed_callback = cb }

-- The connection that the callback of the acceptor makes, with the parts of its loop that it uses.
pub new_connection : TcpServer → Option ByteBuffer → ℤ → InetAddress → InetAddress → World
new_connection server recv_buffer fd local peer =
    let conn = Connection.new fd local peer in
    let conn' = Connection.set_established_callback conn server.established_callback in
    let conn'' = Connection.set_read_callback conn' server.read_callback in
    record {
      conn = Connection.set_closed_callback conn'' server.closed_callback;
      listed = false;
      held = false;
      destroyed = false;
      recv_buffer = recv_buffer;
      task_queue = [];
      events = [];
    }

module _ (heap : Allocator) (app : Callback → List Request) where
  -- The callback `cb` of `run`.
  pub on_accepted : TcpServer → Option ByteBuffer → ℤ × InetAddress × InetAddress → Result World
  unfolding new_connection
  on_accepted server recv_buffer (fd, local, peer) =
      Connection.on_new_connection heap app (new_connection server recv_buffer fd local peer)

  abbrev pub call_back :
      TcpServer → Option ByteBuffer → Option (ℤ × InetAddress × InetAddress) → Option (Result World)
  call_back server recv_buffer none = none
  call_back server recv_buffer (some call) = some (on_accepted server recv_buffer call)

  -- A reading event of the acceptor, with what its callback does.
  pub serve :
      TcpServer
      → Option ByteBuffer
      → Option (ℕ × InetAddress)
      → Acceptor
      → Acceptor × Option (Result World)
  serve server recv_buffer answer acceptor =
      let (acceptor', call) = Acceptor.handle_accept answer acceptor in
      (acceptor', call_back server recv_buffer call)
