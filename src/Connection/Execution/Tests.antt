-- ===== src/Connection/Execution/Tests.antt =====
-- Lives of a connection on concrete bytes.
use mutiplex.Base.{◌≡◌, refl, false, [], ◌∷◌}
use mutiplex.Base.Memory.{Bytes}
use mutiplex.Base.Samples.{zero_heap}
use mutiplex.ByteBuffer.Tests.{two_left}
use mutiplex.Connection
use mutiplex.Connection.Context.{write_buffer, close_it, closed, close_task, World, with_state}
use mutiplex.Connection.{
  invoke, perform, write_shared_buffer, is_closed, is_closed_state, close, has_bytes_to_write,
  run_close,
}
use mutiplex.Connection.Tasks.{run_task, release, is_alive}
use mutiplex.Connection.Opening.{started}
use mutiplex.Connection.Stream.{sent_bytes, held_bytes}
use mutiplex.Connection.Execution.{call, task, here, next, Reachable, reached}
use mutiplex.Connection.Execution.Delivery.{closed-silent}
use mutiplex.Connection.Execution.Samples.{silent, fresh, begun}

-- It is closed, and then handed bytes.
abbrev gone : World
gone = record (with_state (started fresh) closed) { listed = false }

abbrev nothing : Bytes
nothing = []

shut : Reachable zero_heap gone nothing
unfolding perform close run_task run_close has_bytes_to_write invoke release is_alive Connection.new
shut = reached fresh (started fresh) silent refl refl begun (
    next (next here (call silent (close_it ∷ []) refl refl))
      (task silent close_task [] refl tt refl))

closed-silent_example :
    (gone.conn.state ≡ closed)
    × (sent_bytes gone.events ≡ sent_bytes gone.events)
    × (held_bytes gone.conn.buffer_out ≡ [])
unfolding perform write_shared_buffer is_closed is_closed_state
closed-silent_example =
    closed-silent zero_heap shut refl
      (next here (call silent (write_buffer two_left ∷ []) refl refl))
