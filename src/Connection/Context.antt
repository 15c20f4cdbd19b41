-- ===== src/Connection/Context.antt =====
-- The state of a connection and of what it shares with its loop, and how the application is called.
use mutiplex.Base.{ℕ, Bool, Result, ok, err, null_pointer, List, [], ◌∷◌, ◌++◌, Option, none, some}
use mutiplex.Base.Memory.{Bytes}
use mutiplex.ByteBuffer.{ByteBuffer}
use mutiplex.CircularBuffer.{CircularBuffer}
use mutiplex.InetAddress.{InetAddress}
use mutiplex.Base.Int.{ℤ}
use mutiplex.EventSource.{EventSource, EpollCall}

pub data State : Type 0 where
  new_state receiving disconnecting closed : State

-- The callbacks that the library invokes on the application.
pub data Callback : Type 0 where
  established closed_cb error : Callback
  read : Bytes → Callback

-- What a callback may do to the connection in answer.
pub data Request : Type 0 where
  write_bytes : Bytes → Request
  write_buffer : ByteBuffer → Request
  close_it force_close_it : Request

-- The lambdas that are posted to the loop. `write_raw` holds a plain `this`; the other ones hold the
-- connection's shared_ptr.
pub data Task : Type 0 where
  close_task force_close_task : Task
  write_raw write_shared : ByteBuffer → Task

-- What happens outside, in order.
pub data Event : Type 0 where
  epoll : EpollCall → Event
  sent : Bytes → Event
  called : Callback → Event
  fd_closed : ℤ → Event

pub record Connection : Type 0 where
  pub fd : ℤ
  pub state : State
  pub buffer_size : ℕ
  pub local : InetAddress
  pub peer : InetAddress
  pub event_source : Option EventSource
  pub buffer_out : Option CircularBuffer
  -- which of the std::function members are set
  pub established_callback : Bool
  pub read_callback : Bool
  pub closed_callback : Bool
  pub error_callback : Bool

pub record World : Type 0 where
  pub conn : Connection
  -- whether `connections_` of the loop holds the connection
  pub listed : Bool
  -- whether the application holds a ConnectionPtr of its own
  pub held : Bool
  pub destroyed : Bool
  -- `recv_buffer_` of the loop
  pub recv_buffer : Option ByteBuffer
  pub task_queue : List Task
  pub events : List Event

-- Following a pointer that may be null.
abbrev pub deref {ℓ} : {A : Type ℓ} → Option A → Result A
deref none = err null_pointer
deref (some a) = ok a

abbrev pub emit : World → List Event → World
emit w es = record w { events = w.events ++ es }

abbrev pub post : World → Task → World
post w t = record w { task_queue = w.task_queue ++ t ∷ [] }

abbrev pub epoll_events : List EpollCall → List Event
epoll_events [] = []
epoll_events (call ∷ calls) = epoll call ∷ epoll_events calls

abbrev pub with_state : World → State → World
with_state w s = record w { conn = record w.conn { state = s } }

abbrev pub with_source : World → EventSource × List EpollCall → World
with_source w (ev, calls) = record w {
  conn = record w.conn { event_source = some ev };
  events = w.events ++ epoll_events calls;
}

abbrev pub with_buffer : World → CircularBuffer → World
with_buffer w b = record w { conn = record w.conn { buffer_out = some b } }
