-- ===== src/Connection/Tasks.antt =====
-- The tasks of a connection in the loop: how long the connection lives, and EventLoop::run's loop over
-- `task_queue_`.
use mutiplex.Base.{
  ℕ, zero, suc, Bool, true, false, ◌||◌, if◌then◌else◌, Result, ok, err, ◌>>=◌, dangling, List, [],
  ◌∷◌, ◌++◌, Option, none, some, length,
}
use mutiplex.Base.Memory.{Allocator}
use mutiplex.ByteBuffer.{ByteBuffer}
use mutiplex.ByteBuffer.Transfer.{readable}
use mutiplex.EventSource
use mutiplex.EventSource.{EventSource}
use mutiplex.Connection.Context.{
  Callback, Request, Task, close_task, force_close_task, write_raw, write_shared, Event, fd_closed,
  World, emit, epoll_events,
}
use mutiplex.Connection.{do_write, run_close, run_force_close}

-- Whether a shared_ptr keeps the connection alive: the loop's, the application's, or one that a
-- posted lambda holds.
abbrev pub holds : List Task → Bool
holds [] = false
holds (write_raw b ∷ rest) = holds rest
holds (write_shared b ∷ rest) = true
holds (close_task ∷ rest) = true
holds (force_close_task ∷ rest) = true

unfoldable pub is_alive : World → Bool
is_alive w = w.listed || w.held || holds w.task_queue

-- ~Connection
unfoldable pub destroy_source : Option EventSource → List Event
destroy_source none = []
destroy_source (some ev) = epoll_events (EventSource.disable_all ev).1

unfoldable pub destroy : World → World
unfolding destroy_source
destroy w = record (emit w (destroy_source w.conn.event_source ++ fd_closed w.conn.fd ∷ [])) {
  destroyed = true;
}

abbrev pub pop_front : List Task → List Task
pop_front [] = []
pop_front (t ∷ rest) = rest

-- The last shared_ptr has gone.
unfoldable pub release : World → World
unfolding is_alive destroy
release w = if is_alive w || w.destroyed then w else destroy w

module _ (heap : Allocator) (app : Callback → List Request) where
  -- do_write(buffer->data(), buffer->remaining()), on an object that is still there.
  unfoldable pub run_write : World → ByteBuffer → Result World
  run_write w b =
      if w.destroyed then err dangling else do_write heap app w (readable b) (length (readable b))

  unfoldable pub run_task : Task → World → Result World
  unfolding run_close run_force_close run_write
  run_task close_task w = run_close heap app w
  run_task force_close_task w = run_force_close heap app w
  run_task (write_raw b) w = run_write w b
  run_task (write_shared b) w = run_write w b

  -- `while (!task_queue_.empty()) { task_queue_.front()(); task_queue_.pop_front(); }` with fuel;
  -- the second part says whether the queue was emptied.
  unfoldable pub run_tasks : ℕ → World → Result (World × Bool)
  unfolding release run_task
  run_tasks zero w = ok (w, false)
  run_tasks (suc fuel) w = elim w.task_queue [
    | [] ↦ ok (w, true)
    | t ∷ rest ↦
        (run_task t w >>= λ w'.
        run_tasks fuel (release (record w' { task_queue = pop_front w'.task_queue })))
  ]
