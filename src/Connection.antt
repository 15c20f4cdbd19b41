-- ===== src/Connection.antt =====
-- mutiplex/Connection.h and src/Connection.cpp: one connection, with the parts of its EventLoop that
-- it touches: its entry in `connections_`, and `task_queue_` (the tasks of this connection). All
-- calls are made on the loop's thread.
pub mod Context
pub mod Requests
pub mod Stream
pub mod Frame
pub mod Enqueue
pub mod Closing
pub mod HalfClose
pub mod Opening
pub mod Reading
pub mod Farewell
pub mod Echo
pub mod Draining
pub mod Reentrant
pub mod Tasks
pub mod Events
pub mod Kept
pub mod Steady
pub mod Emptying
pub mod Conversation
pub mod Posting
pub mod Execution
pub mod Sharing
mod Tests
use mutiplex.Base.{
  ℕ, zero, suc, Bool, true, false, not, if◌then◌else◌, Result, ok, ◌>>=◌, ◌>>◌, assert, List, [],
  ◌∷◌, Option, none, some, length,
}
use mutiplex.Base.Int.{ℤ, pos, negsuc}
use mutiplex.Base.Word.{int32}
use mutiplex.Base.Memory.{Bytes, Allocator, memcpy_int}
use mutiplex.ByteBuffer
use mutiplex.ByteBuffer.{ByteBuffer}
use mutiplex.ByteBuffer.Transfer.{filled, readable}
use mutiplex.CircularBuffer
use mutiplex.CircularBuffer.{CircularBuffer}
use mutiplex.InetAddress
use mutiplex.InetAddress.{InetAddress, Libc}
use mutiplex.EventSource
use mutiplex.EventSource.{EventSource}
use Context.{
  State, new_state, receiving, disconnecting, closed, Callback, established, closed_cb, error, read,
  Request, write_bytes, write_buffer, close_it, force_close_it, close_task, force_close_task,
  write_raw, write_shared, sent, called, Connection, World, deref, emit, post, with_state,
  with_source, with_buffer,
}

unfoldable pub new : ℤ → InetAddress → InetAddress → Connection
new fd local peer = record {
  fd = fd;
  buffer_size = 1024;
  local = local;
  peer = peer;
  state = new_state;
  event_source = none;
  buffer_out = none;
  established_callback = false;
  read_callback = false;
  closed_callback = false;
  error_callback = false;
}

pub set_buffer_size : Connection → ℕ → Connection
set_buffer_size conn size = record conn { buffer_size = size }

pub local_port : Libc → Connection → ℕ
local_port libc conn = InetAddress.host_port libc conn.local

pub peer_port : Libc → Connection → ℕ
peer_port libc conn = InetAddress.host_port libc conn.peer

-- The setters: whether the std::function that is passed holds a callback.
unfoldable pub set_established_callback : Connection → Bool → Connection
set_established_callback conn cb = record conn { established_callback = cb }

unfoldable pub set_read_callback : Connection → Bool → Connection
set_read_callback conn cb = record conn { read_callback = cb }

unfoldable pub set_closed_callback : Connection → Bool → Connection
set_closed_callback conn cb = record conn { closed_callback = cb }

unfoldable pub set_error_callback : Connection → Bool → Connection
set_error_callback conn cb = record conn { error_callback = cb }

abbrev pub has_bytes : Option CircularBuffer → Bool
has_bytes none = false
has_bytes (some b) = not (CircularBuffer.empty b)

pub has_bytes_to_write : World → Bool
has_bytes_to_write w = has_bytes w.conn.buffer_out

is_closed_state : State → Bool
is_closed_state closed = true
is_closed_state disconnecting = true
is_closed_state _ = false

pub is_closed : World → Bool
unfolding is_closed_state
is_closed w = is_closed_state w.conn.state

-- The buffer that do_write puts into: the one there is, or a new one of the size of the write.
abbrev pub out_buffer : Allocator → Option CircularBuffer → ℕ → CircularBuffer
out_buffer heap none len = CircularBuffer.new heap len
out_buffer heap (some b) len = b

pub close : World → World
close w = post w close_task

pub force_close : World → World
force_close w = post w force_close_task

pub register_event : World → World
register_event w =
    let w' = with_source w (EventSource.enable_reading (EventSource.new w.conn.fd)) in
    with_state w' receiving

module _ (heap : Allocator) (app : Callback → List Request) where
  -- write(const void*, uint32_t) and write(const ByteBufferPtr&); a closed connection takes
  -- nothing.
  pub write : World → Bytes → Result World
  unfolding is_closed
  write w xs =
      if is_closed w
      then ok w
      else (do buffer ← filled heap xs (int32 (length xs)); ok (post w (write_raw buffer)))

  pub write_shared_buffer : World → ByteBuffer → World
  unfolding is_closed
  write_shared_buffer w buffer = if is_closed w then w else post w (write_shared buffer)

  pub perform : World → List Request → Result World
  unfolding write write_shared_buffer close force_close
  perform w [] = ok w
  perform w (write_bytes xs ∷ rest) = do w' ← write w xs; perform w' rest
  perform w (write_buffer b ∷ rest) = perform (write_shared_buffer w b) rest
  perform w (close_it ∷ rest) = perform (close w) rest
  perform w (force_close_it ∷ rest) = perform (force_close w) rest

  -- A callback that is set is invoked, and the application answers with calls on the connection.
  pub invoke : Bool → Callback → World → Result World
  unfolding perform
  invoke false cb w = ok w
  invoke true cb w = perform (emit w (called cb ∷ [])) (app cb)

  -- EventLoop::on_new_connection
  pub on_new_connection : World → Result World
  unfolding register_event invoke
  on_new_connection w =
      let w' = record (register_event w) { listed = true } in
      invoke w'.conn.established_callback established w'

  -- What the reading callback does once ::read has answered: an error, or the bytes that it stored
  -- in `buffer`, at data(), of which there are none at the end of the stream.
  after_read : Option Bytes → ByteBuffer → World → Result World
  unfolding invoke close force_close
  after_read none buffer w = do w' ← invoke w.conn.error_callback error w; ok (force_close w')
  after_read (some []) buffer w = do
    ev ← deref w.conn.event_source
    ok (close (with_source w (EventSource.disable_reading ev)))
  after_read (some (x ∷ xs)) buffer w = do
    block ←
        memcpy_int buffer.block (ByteBuffer.data_offset buffer) (x ∷ xs) (pos 0)
          (pos (length (x ∷ xs)))
    placed ← ByteBuffer.set_position (record buffer { block = block }) (pos (length (x ∷ xs)))
    let full = ByteBuffer.flip placed
    invoke w.conn.read_callback (read (readable full)) (record w { recv_buffer = some full })

  -- The reading callback of `register_event`.
  pub handle_read : Option Bytes → World → Result World
  unfolding after_read
  handle_read answer w = do
    buffer ← deref w.recv_buffer
    cleared ← ByteBuffer.clear buffer
    after_read answer cleared (record w { recv_buffer = some cleared })

  do_write_open : World → Bytes → ℕ → Result World
  do_write_open w xs len = do
    b ← CircularBuffer.put heap (out_buffer heap w.conn.buffer_out len) xs len
    ev ← deref w.conn.event_source
    ok (with_source (with_buffer w b) (EventSource.enable_writing ev))

  pub do_write_at : State → World → Bytes → ℕ → Result World
  unfolding force_close do_write_open
  do_write_at closed w xs len = ok (force_close w)
  do_write_at _ w xs len = do_write_open w xs len

  pub do_write : World → Bytes → ℕ → Result World
  unfolding do_write_at
  do_write w xs len = do_write_at w.conn.state w xs len

  -- What handle_write does once write_to_fd has returned `total`.
  written : State → ℤ → CircularBuffer → World → Result World
  unfolding force_close invoke close
  written s (negsuc n) b w = invoke w.conn.error_callback error (force_close w)
  written s (pos zero) b w = ok (force_close w)
  written disconnecting (pos (suc n)) b w = do
    ev ← deref w.conn.event_source
    ok (close (with_source w (EventSource.disable_writing ev)))
  written s (pos (suc n)) b w =
      if CircularBuffer.empty b
      then (do ev ← deref w.conn.event_source; ok (with_source w (EventSource.disable_writing ev)))
      else ok w

  flush_buffer : (Bytes → Option ℕ) → World → CircularBuffer → Result World
  unfolding written
  flush_buffer kernel w buffer = do
    assert (not (CircularBuffer.empty buffer))
    (total, bytes, b) ← CircularBuffer.write_to_fd kernel buffer
    written w.conn.state total b (emit (with_buffer w b) (sent bytes ∷ []))

  pub handle_write : (Bytes → Option ℕ) → World → Result World
  unfolding flush_buffer
  handle_write kernel w = deref w.conn.buffer_out >>= flush_buffer kernel w

  -- The lambda of `close`.
  pub run_close : World → Result World
  unfolding has_bytes_to_write invoke
  run_close w = if has_bytes_to_write w then ok (with_state w disconnecting) else (do
    w' ← invoke w.conn.closed_callback closed_cb (with_state w closed)
    ok (record w' { listed = false }))

  -- The lambda of `force_close`.
  pub run_force_close : World → Result World
  unfolding invoke
  run_force_close w = do
    buffer ← deref w.conn.buffer_out
    ev ← deref w.conn.event_source
    let w' = with_buffer (with_state w closed) (CircularBuffer.clear buffer)
    let w'' = record w' {
      conn = record w'.conn { event_source = some (EventSource.set_interest_ops ev 0) };
    }
    if w''.listed
        then (do
          w''' ← invoke w''.conn.closed_callback closed_cb w''
          ok (record w''' { listed = false }))
        else ok w''
