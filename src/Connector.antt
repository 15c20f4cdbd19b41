-- ===== src/Connector.antt =====
-- mutiplex/Connector.h and src/Connector.cpp: a socket that connects, and then becomes a connection or
-- is closed. The answers of the system calls are arguments.
pub mod Attempt
pub mod Outcome
pub mod Handing
pub mod Ping
mod Tests
use mutiplex.Base.{
  ℕ, zero, suc, Bool, true, false, if◌then◌else◌, Result, ok, err, exception, ◌>>=◌, List, [], ◌∷◌,
  ◌++◌, Option, none, some,
}
use mutiplex.Base.Int.{ℤ, pos, negsuc}
use mutiplex.Base.Memory.{Allocator}
use mutiplex.ByteBuffer.{ByteBuffer}
use mutiplex.EventSource
use mutiplex.EventSource.{EventSource, EpollCall, Callbacks}
use mutiplex.InetAddress
use mutiplex.InetAddress.{InetAddress}
use mutiplex.Connection
use mutiplex.Connection.Context.{Callback, Request, World, deref}

pub record Connector : Type 0 where
  pub fd : ℤ
  pub local : InetAddress
  pub peer : InetAddress
  pub event_source : Option EventSource
  -- which of the std::function members are set
  pub connect_error_callback : Bool
  pub established_callback : Bool
  pub read_callback : Bool
  pub closed_callback : Bool

-- What happens outside, in order.
pub data Event : Type 0 where
  epoll : EpollCall → Event
  connect_failed : Event
  fd_closed : ℤ → Event

-- A connector, what it did so far, and the connection that it has made, if any, with the receive
-- buffer of its loop.
pub record Life : Type 0 where
  pub connector : Connector
  pub events : List Event
  pub connection : Option World
  pub recv_buffer : Option ByteBuffer

-- What ::connect answers: 0, -1 with EINPROGRESS, or -1 with another error.
pub data ConnectAnswer : Type 0 where
  connected in_progress refused : ConnectAnswer

-- `answer` is what ::socket returns; a negative one is an exception.
pub new : ℤ → InetAddress → Result Connector
new (negsuc n) peer = err exception
new (pos fd) peer = ok (record {
  fd = pos fd;
  local = InetAddress.new_empty;
  peer = peer;
  event_source = none;
  connect_error_callback = false;
  established_callback = false;
  read_callback = false;
  closed_callback = false;
})

pub set_connect_error_callback : Connector → Bool → Connector
set_connect_error_callback c cb = record c { connect_error_callback = cb }

pub set_established_callback : Connector → Bool → Connector
set_established_callback c cb = record c { established_callback = cb }

pub set_read_callback : Connector → Bool → Connector
set_read_callback c cb = record c { read_callback = cb }

pub set_closed_callback : Connector → Bool → Connector
set_closed_callback c cb = record c { closed_callback = cb }

abbrev pub emit : Life → List Event → Life
emit life es = record life { events = life.events ++ es }

abbrev pub epoll_events : List EpollCall → List Event
epoll_events [] = []
epoll_events (call ∷ calls) = epoll call ∷ epoll_events calls

abbrev pub with_source : Life → EventSource × List EpollCall → Life
with_source life (ev, calls) = record life {
  connector = record life.connector { event_source = some ev };
  events = life.events ++ epoll_events calls;
}

unfoldable pub do_connect : ConnectAnswer → Bool
do_connect connected = true
do_connect in_progress = true
do_connect refused = false

abbrev pub failure : Bool → ℤ → List Event
failure true fd = connect_failed ∷ fd_closed fd ∷ []
failure false fd = fd_closed fd ∷ []

-- The error callback, if it is set, and then ::close.
pub handle_error : Life → Life
handle_error life = emit life (failure life.connector.connect_error_callback life.connector.fd)

pub start_connect : ConnectAnswer → Life → Life
unfolding do_connect handle_error
start_connect answer life =
    let source = EventSource.new life.connector.fd in
    let life' = with_source life (source, []) in
    if do_connect answer
    then with_source life' (EventSource.enable_writing source)
    else handle_error life'

-- The connection that takes the descriptor over.
pub new_connection : Life → InetAddress → World
new_connection life local =
    let c = life.connector in
    let conn = Connection.new c.fd local c.peer in
    let conn' = Connection.set_established_callback conn c.established_callback in
    let conn'' = Connection.set_read_callback conn' c.read_callback in
    record {
      conn = Connection.set_closed_callback conn'' c.closed_callback;
      listed = false;
      held = false;
      destroyed = false;
      recv_buffer = life.recv_buffer;
      task_queue = [];
      events = [];
    }

-- getsockname; where it fails, the cleared sockaddr_in stays as it is.
abbrev pub local_name : Option InetAddress → InetAddress
local_name none = InetAddress.new 0 0
local_name (some local) = local

abbrev pub with_connection : Life → InetAddress → World → Life
with_connection life local w = record life {
  connector = record life.connector { local = local };
  connection = some w;
}

module _ (heap : Allocator) (app : Callback → List Request) where
  pub hand_over : Life → InetAddress → Result Life
  unfolding new_connection
  hand_over life local = do
    w ← Connection.on_new_connection heap app (new_connection life local)
    ok (with_connection life local w)

  -- handle_connected after disable_writing; `error` is what SO_ERROR holds.
  pub connected_with : ℕ → Option InetAddress → Life → Result Life
  unfolding hand_over handle_error
  connected_with zero name life = hand_over life (local_name name)
  connected_with (suc error) name life = ok (handle_error life)

  pub handle_connected : ℕ → Option InetAddress → Life → Result Life
  unfolding connected_with
  handle_connected error name life = do
    ev ← deref life.connector.event_source
    connected_with error name (with_source life (EventSource.disable_writing ev))

  -- disable_all of the source, after an error callback.
  disable : Result Life → Result Life
  disable r = do
    life ← r
    ev ← deref life.connector.event_source
    ok (with_source life (EventSource.disable_all ev))

  -- The two callbacks that start_connect sets.
  callbacks : ℕ → Option InetAddress → Callbacks (Result Life)
  unfolding handle_connected
  callbacks error name = record {
    read_callback = none;
    write_callback = some (λ r. r >>= handle_connected error name);
    close_callback = none;
    error_callback = some (λ r. r >>= λ life. ok (handle_error life));
  }

  -- An event of the source, with its ready operations.
  pub on_event : ℕ → ℕ → Option InetAddress → Life → Result Life
  unfolding disable callbacks
  on_event ready error name life =
      EventSource.handle_events disable (callbacks error name) ready (ok life)

-- ~Connector
abbrev pub delete_source : Option EventSource → List Event
delete_source none = []
delete_source (some ev) = epoll_events (EventSource.disable_all ev).1

pub destroy : Life → Life
destroy life = emit life (delete_source life.connector.event_source)
