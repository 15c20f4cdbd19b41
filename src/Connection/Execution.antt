-- ===== src/Connection/Execution.antt =====
-- What may happen to a connection, in any order, from EventLoop::on_new_connection on: events that
-- epoll reports, calls of the application and callbacks that it sets, the tasks of the loop, those
-- of calls on other threads, and the application's pointers.
pub mod Soundness
pub mod TaskSteps
pub mod Delivery
pub mod Samples
mod Tests
use mutiplex.Base.{
  ℕ, ◌^◌, ◌≤◌, ◌≡◌, Bool, true, false, ok, List, [], ◌∷◌, ◌++◌, length, Option, none, some,
}
use mutiplex.Base.Memory.{Bytes, Allocator}
use mutiplex.ByteBuffer.{ByteBuffer}
use mutiplex.ByteBuffer.Transfer.{readable}
use mutiplex.CircularBuffer.{CircularBuffer}
use mutiplex.CircularBuffer.Fifo.{Roomy}
use mutiplex.Connection.Context.{
  State, closed, Callback, Request, Task, close_task, force_close_task, write_raw, write_shared,
  World,
}
use mutiplex.Connection
use mutiplex.Connection.{on_new_connection, perform}
use mutiplex.Connection.Tasks.{run_task, release, pop_front}
use mutiplex.Connection.Events.{on_event}

abbrev pub written_by : Task → Bytes
written_by (write_raw b) = readable b
written_by (write_shared b) = readable b
written_by close_task = []
written_by force_close_task = []

-- The bytes that a task hands to the connection: a closed one takes none.
abbrev pub accepted : State → Task → Bytes
accepted closed t = []
accepted _ t = written_by t

-- Room for `n` more bytes: in a new buffer, or in the one there is, as it is, or grown unless it is
-- full with `in_` at index 0.
abbrev pub RoomIn : Option CircularBuffer → ℕ → Type 0
RoomIn none n = n ≤ 2 ^ 31
RoomIn (some b) n = Roomy b n

abbrev pub Fits : Task → World → Type 0
Fits (write_raw b) w = RoomIn w.conn.buffer_out (length (readable b))
Fits (write_shared b) w = RoomIn w.conn.buffer_out (length (readable b))
Fits close_task w = Unit {0}
Fits force_close_task w = Unit {0}

-- The four setters.
unfoldable pub configured : World → Bool → Bool → Bool → Bool → World
configured w at_open at_read at_close at_error =
    let conn = Connection.set_established_callback w.conn at_open in
    let conn' = Connection.set_read_callback conn at_read in
    let conn'' = Connection.set_closed_callback conn' at_close in
    record w { conn = Connection.set_error_callback conn'' at_error }

-- A step that returns. The bytes are those that the connection has been handed so far. In every step
-- the application, what ::read gives and what the kernel takes of a write may be others.
pub data Step (heap : Allocator) : World → Bytes → World → Bytes → Type 0 where
  event :
      {w w' : World} {xs : Bytes} (app : Callback → List Request) (answer : Option Bytes)
      (kernel : Bytes → Option ℕ) (ready : ℕ)
      → ((ys : Bytes) (n : ℕ) → kernel ys ≡ some n → n ≤ length ys)
      → w.destroyed ≡ false
      → on_event heap app answer kernel ready w ≡ ok w'
      → Step heap w xs w' xs
  call :
      {w w' : World} {xs : Bytes} (app : Callback → List Request) (asked : List Request)
      → w.destroyed ≡ false
      → perform heap app w asked ≡ ok w'
      → Step heap w xs w' xs
  task :
      {w w' : World} {xs : Bytes} (app : Callback → List Request) (t : Task) (rest : List Task)
      → w.task_queue ≡ t ∷ rest
      → Fits t w
      → run_task heap app t w ≡ ok w'
      → Step heap w xs
          (release (record w' { task_queue = pop_front w'.task_queue }))
          (xs ++ accepted w.conn.state t)
  -- A task that a call on another thread has left in `pending_callbacks_`; the pointer that the thread
  -- calls on, or the lambda's own, keeps the connection alive until then.
  foreign :
      {w w' : World} {xs : Bytes} (app : Callback → List Request) (t : Task)
      → w.destroyed ≡ false
      → Fits t w
      → run_task heap app t w ≡ ok w'
      → Step heap w xs (release w') (xs ++ accepted w.conn.state t)
  hold :
      {w : World} {xs : Bytes} → w.destroyed ≡ false → Step heap w xs (record w { held = true }) xs
  let_go : {w : World} {xs : Bytes} → Step heap w xs (release (record w { held = false })) xs
  -- Whether `connections_` has an entry under the descriptor of the connection may change by another
  -- connection of the same descriptor; and so the connection may lose its own entry.
  entry :
      {w : World} {xs : Bytes} (listed : Bool) → Step heap w xs (record w { listed = listed }) xs
  displaced : {w : World} {xs : Bytes} → Step heap w xs (release (record w { listed = false })) xs
  -- The application sets or resets its callbacks.
  configure :
      {w : World} {xs : Bytes} (at_open at_read at_close at_error : Bool)
      → w.destroyed ≡ false
      → Step heap w xs (configured w at_open at_read at_close at_error) xs
  -- Another connection of the loop has been read from, into the buffer that they share.
  refill :
      {w : World} {xs : Bytes} (buffer : Option ByteBuffer)
      → Step heap w xs (record w { recv_buffer = buffer }) xs

pub data Steps (heap : Allocator) (w : World) (xs : Bytes) : World → Bytes → Type 0 where
  here : Steps heap w xs w xs
  next :
      {u v : World} {ys zs : Bytes}
      → Steps heap w xs u ys
      → Step heap u ys v zs
      → Steps heap w xs v zs

-- From a connection that has no buffer and has sent nothing.
pub data Reachable (heap : Allocator) (w : World) (xs : Bytes) : Type 0 where
  reached :
      (w0 w1 : World) (app : Callback → List Request)
      → w0.conn.buffer_out ≡ none
      → w0.events ≡ []
      → on_new_connection heap app w0 ≡ ok w1
      → Steps heap w1 [] w xs
      → Reachable heap w xs
