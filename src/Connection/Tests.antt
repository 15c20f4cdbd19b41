-- ===== src/Connection/Tests.antt =====
-- Runs of a connection on concrete bytes.
use mutiplex.Base.{
  ℕ, ◌≤◌, ◌≡◌, ◌≢◌, refl, ap, true, false, [], ◌∷◌, ◌++◌, ok, err, dangling, ◌>>=◌, some, none,
  arith, length, drop, List, Option,
}
use mutiplex.Base.Samples.{zero_heap, takes_two, takes_two-honest, takes_two-greedy}
use mutiplex.CircularBuffer.{CircularBuffer}
use mutiplex.CircularBuffer.Invariant.{contents}
use mutiplex.CircularBuffer.Tests.{
  wrapped, wrapped-IsValid, wrapped-takes_two, wrapped-longer, wrapped-few,
}
use mutiplex.ByteBuffer.{ByteBuffer}
use mutiplex.ByteBuffer.Invariant.{IsValid}
use mutiplex.ByteBuffer.Transfer.{readable}
use mutiplex.ByteBuffer.Tests.{two_left, two_left-IsValid}
use mutiplex.InetAddress
use mutiplex.Base.Int.{pos}
use mutiplex.EventSource
use mutiplex.EventSource.{EventSource}
use mutiplex.Connection.Context.{
  State, receiving, disconnecting, Callback, closed_cb, Request, write_bytes, close_it, close_task,
  force_close_task, write_raw, World,
}
use mutiplex.Connection.{
  close, handle_read, handle_write, do_write, perform, is_closed, has_bytes_to_write,
  is_closed_state,
}
use mutiplex.Connection.Tasks.{run_tasks}
use mutiplex.Connection.Stream.{stream, held_bytes, Streams, handle_write-stream}
use mutiplex.Connection.Enqueue.{Appends, do_write-stream}
use mutiplex.Connection.Closing.{close-write_dangling}
use mutiplex.Connection.Reading.{Delivers, handle_read-Delivers}
use mutiplex.Connection.Draining.{Drains, run_tasks-Drains}
use mutiplex.Connection.Reentrant.{closings, close-spins}
use mutiplex.Connection.Emptying.{Empties, write_events, write_events-Empties}
use mutiplex.Connection.HalfClose.{half_close-stalls}

-- An application that never answers.
abbrev silent : Callback → List Request
silent cb = []

abbrev watched : EventSource
watched = record { state = EventSource.registered; fd = pos 7; interest_ops = 5; ready_ops = 0 }

abbrev at_state : State → Option CircularBuffer → World
at_state s buffer = record {
  conn = record {
    fd = pos 7;
    buffer_size = 1024;
    local = InetAddress.new_empty;
    peer = InetAddress.new_empty;
    state = s;
    event_source = some watched;
    buffer_out = buffer;
    established_callback = false;
    read_callback = false;
    closed_callback = false;
    error_callback = true;
  };
  listed = true;
  held = false;
  destroyed = false;
  recv_buffer = none;
  task_queue = [];
  events = [];
}

some_bytes : contents wrapped ≢ []
some_bytes e = omega (arith, wrapped-longer, ap length e)

handle_write-stream_example :
    Streams
      (stream (at_state receiving (some wrapped)))
      (handle_write zero_heap silent takes_two (at_state receiving (some wrapped)))
handle_write-stream_example =
    handle_write-stream zero_heap silent takes_two takes_two-honest
      (at_state receiving (some wrapped)) wrapped watched refl wrapped-IsValid some_bytes refl tt

do_write-stream_example :
    Appends
      (at_state receiving none)
      (1 ∷ 2 ∷ 3 ∷ [])
      (do_write zero_heap silent (at_state receiving none) (1 ∷ 2 ∷ 3 ∷ []) 3)
do_write-stream_example =
    do_write-stream zero_heap silent (at_state receiving none) watched (1 ∷ 2 ∷ 3 ∷ []) (λ e. cc)
      refl (omega arith)

-- The kernel takes two of the three bytes, and the last one stays.
half_close-stalls_example :
    (w' : World) × ((handle_write zero_heap silent takes_two (at_state disconnecting (some wrapped))
        >>= run_tasks zero_heap silent 2)
      ≡ ok (w', true))
    × (w'.conn.state ≡ disconnecting)
    × (w'.conn.event_source ≡ some (EventSource.disable_writing watched).0)
    × (held_bytes w'.conn.buffer_out ≡ drop 2 (contents wrapped))
    × (drop 2 (contents wrapped) ≢ [])
half_close-stalls_example =
    half_close-stalls zero_heap silent takes_two takes_two-honest 0
      (at_state disconnecting (some wrapped)) wrapped watched 2 refl wrapped-IsValid refl refl refl
      refl wrapped-takes_two (omega arith) wrapped-longer

abbrev kept : World
kept = record {
  conn = record (at_state receiving none).conn { closed_callback = true };
  listed = true;
  held = true;
  destroyed = false;
  recv_buffer = none;
  task_queue = [];
  events = [];
}

close-write_dangling_example :
    (perform zero_heap silent (at_state receiving none) (close_it ∷ write_bytes (1 ∷ 2 ∷ []) ∷ [])
      >>= run_tasks zero_heap silent 2)
    ≡ err dangling
unfolding has_bytes_to_write is_closed is_closed_state
close-write_dangling_example =
    close-write_dangling zero_heap silent 0 (at_state receiving none) (1 ∷ 2 ∷ []) refl refl refl
      refl refl refl (omega arith) (omega arith)

-- A connection with its read callback set, on a loop whose receive buffer holds bytes of an earlier
-- read.
abbrev reading : World
reading = record {
  conn = record (at_state receiving none).conn { read_callback = true };
  listed = true;
  held = false;
  destroyed = false;
  recv_buffer = some two_left;
  task_queue = [];
  events = [];
}

handle_read-Delivers_example :
    (full : ByteBuffer) × IsValid 4 full
    × (readable full ≡ 21 ∷ 22 ∷ 23 ∷ [])
    × Delivers
        (21 ∷ 22 ∷ 23 ∷ [])
        reading
        full
        (handle_read zero_heap silent (some (21 ∷ 22 ∷ 23 ∷ [])) reading)
handle_read-Delivers_example =
    handle_read-Delivers zero_heap silent reading two_left 21 (22 ∷ 23 ∷ []) refl two_left-IsValid
      (omega arith) tt

-- Two writes with a close between them, then a force_close.
abbrev loaded : World
loaded = record reading {
  task_queue = write_raw two_left ∷ close_task ∷ write_raw two_left ∷ force_close_task ∷ [];
}

run_tasks-Drains_example : Drains (run_tasks zero_heap silent 7 loaded)
run_tasks-Drains_example = run_tasks-Drains zero_heap silent 7 loaded tt (omega arith)

-- An application that answers the closed callback with `close`.
abbrev insistent : Callback → List Request
insistent closed_cb = close_it ∷ []
insistent _ = []

close-spins_example :
    (w' : World) × (run_tasks zero_heap insistent 1000 (close kept) ≡ ok (w', false))
    × (w'.events ≡ [] ++ closings 1000)
unfolding has_bytes_to_write
close-spins_example = close-spins zero_heap insistent 1000 kept refl refl refl refl

write_events-Empties_example :
    (k : ℕ) × (k ≤ length (contents wrapped))
    × Empties zero_heap silent takes_two takes_two-honest takes_two-greedy
        (at_state receiving (some wrapped))
        watched
        (write_events zero_heap silent takes_two k (at_state receiving (some wrapped)))
write_events-Empties_example =
    write_events-Empties zero_heap silent takes_two takes_two-honest takes_two-greedy
      (at_state receiving (some wrapped)) wrapped watched refl wrapped-IsValid refl refl some_bytes
      wrapped-few
