-- ===== src/Connection/Sharing/Tests.antt =====
-- Two connections on one loop, of which the second one has the descriptor of the first one, whose entry
-- it takes, and is handed bytes.
use mutiplex.Base.Samples.{zero_heap}
use mutiplex.Base.{some, ◌≡◌, refl, ap, [], ◌∷◌, ◌++◌, none, arith}
use mutiplex.Base.Int.{pos}
use mutiplex.Base.Samples.{zero_heap}
use mutiplex.ByteBuffer.Transfer.{readable}
use mutiplex.ByteBuffer.Tests.{two_left}
use mutiplex.EventSource.Fresh.{watching}
use mutiplex.EventSource.{epollin}
use mutiplex.Connection
use mutiplex.Connection.Context.{write_buffer, write_shared, World, post}
use mutiplex.Connection.{
  on_new_connection, perform, write_shared_buffer, is_closed, is_closed_state,
}
use mutiplex.Connection.Tasks.{run_task, run_write, release, pop_front}
use mutiplex.Connection.Opening.{started}
use mutiplex.Connection.Enqueue.{do_write-stream}
use mutiplex.Connection.Execution.{call, task}
use mutiplex.Connection.Execution.Soundness.{Sound}
use mutiplex.Connection.Execution.Samples.{silent, fresh, begun}
use mutiplex.Connection.Sharing.{
  Loop, posted, select, tagged, view, arrive, put_back, accept, call, task, Served, idle, turn,
}
use mutiplex.Connection.Sharing.Own.{finish-listed}
use mutiplex.Connection.Sharing.Isolation.{served-Sound}
use mathlib.Core.Path.{subst}

abbrev bare : Loop
bare = record {
  connections = λ i. none;
  entries = λ fd. none;
  handed = λ i. [];
  task_queue = [];
  pending = [];
  recv_buffer = none;
}

abbrev one : Loop
one = arrive bare 0 (started fresh) []

abbrev two : Loop
two = arrive one 1 (started fresh) []

abbrev asked : World
asked = post (started fresh) (write_shared two_left)

abbrev written : Loop
written = put_back two 1 asked [] ((1, write_shared two_left) ∷ []) two.entries

accepted_two : Served zero_heap two
unfolding select tagged Connection.new on_new_connection
accepted_two =
    turn
      (turn (idle {s = bare} (λ i. refl) (λ fd. refl) refl)
        (accept {s = bare} fresh (started fresh) 0 silent refl refl refl begun))
      (accept {s = one} fresh (started fresh) 1 silent refl refl refl begun)

called : Served zero_heap written
unfolding perform write_shared_buffer is_closed is_closed_state select tagged Connection.new release
called =
    turn accepted_two
      (call {s = two} (started fresh) asked 1 silent (write_buffer two_left ∷ []) refl refl refl)

loaded :
    (s : Loop) × Served zero_heap s
    × (w : World) × (s.connections 1 ≡ some w)
    × (s.handed 1 ≡ [] ++ readable two_left)
unfolding run_task run_write Connection.new select tagged release
loaded =
    let (w, b, e, _, _, _, _, frame, _, _) =
      do_write-stream zero_heap silent asked (watching (pos 7) epollin) (readable two_left)
        (λ c. cc) refl (omega arith) in
    let left = record w { task_queue = pop_front w.task_queue } in
    let kept =
      finish-listed written 1 left (readable two_left) (tagged 1 (posted (view written 1 asked) w))
        frame.listed in
    (
      _,
      turn called (
          task {s = written} asked w 1 silent (write_shared two_left) [] refl refl (omega arith) e),
      _,
      ap (λ s. s.connections 1) kept,
      ap (λ s. s.handed 1) kept,
    )

served-Sound_example : Sound (view loaded.0 1 loaded.2) (12 ∷ 13 ∷ [])
served-Sound_example =
    subst (Sound (view loaded.0 1 loaded.2)) loaded.4 (served-Sound zero_heap 1 loaded.1 loaded.3)
