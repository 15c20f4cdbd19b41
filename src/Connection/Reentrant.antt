-- ===== src/Connection/Reentrant.antt =====
-- A closed callback that calls `close` on its connection.
use mutiplex.Base.{
  ℕ, zero, suc, ◌≡◌, refl, sym, ap, ◌∙◌, Bool, true, false, ◌||◌, ok, List, [], ◌∷◌, ◌++◌,
  append-nil, append_assoc,
}
use mutiplex.Base.Memory.{Allocator}
use mutiplex.Connection.Context.{
  closed, Callback, closed_cb, Request, close_it, close_task, Event, called, World,
}
use mutiplex.Connection.{has_bytes_to_write, perform, invoke, close, run_close}
use mutiplex.Connection.Tasks.{run_task, run_tasks, is_alive, holds}
use mutiplex.Connection.Closing.{run_tasks-step, release-alive}

-- `n` invocations of the closed callback.
abbrev pub closings : ℕ → List Event
closings zero = []
closings (suc n) = called closed_cb ∷ closings n

queued-alive : (w : World) → holds w.task_queue ≡ true → is_alive w ≡ true
unfolding is_alive
queued-alive w e = any w.listed w.held (holds w.task_queue) e
  where
    any : (listed held queued : Bool) → queued ≡ true → (listed || held || queued) ≡ true
    any true held queued e = refl
    any false true queued e = refl
    any false false queued e = e

-- The connection with the task of `close` in the queue.
abbrev closing : World → World
closing w = record w { task_queue = close_task ∷ [] }

abbrev again : World → World
again w = closing (record w {
  conn = record w.conn { state = closed };
  listed = false;
  events = w.events ++ called closed_cb ∷ [];
})

module _ (heap : Allocator) (app : Callback → List Request) where
  run_close-again :
      (w : World)
      → has_bytes_to_write w ≡ false
      → w.conn.closed_callback ≡ true
      → app closed_cb ≡ close_it ∷ []
      → run_close heap app (closing w)
        ≡ ok (record (again w) { task_queue = close_task ∷ close_task ∷ [] })
  unfolding run_close has_bytes_to_write invoke perform close
  run_close-again w bare set asked = rw (bare, set, asked) refl

  again-step :
      (fuel : ℕ) (w : World)
      → has_bytes_to_write w ≡ false
      → w.conn.closed_callback ≡ true
      → app closed_cb ≡ close_it ∷ []
      → run_tasks heap app (suc fuel) (closing w) ≡ run_tasks heap app fuel (again w)
  unfolding run_task
  again-step fuel w bare set asked =
      run_tasks-step heap app fuel close_task [] w
        (record (again w) { task_queue = close_task ∷ close_task ∷ [] })
        (run_close-again w bare set asked)
      ∙ ap (run_tasks heap app fuel) (release-alive (again w) (queued-alive (again w) refl))

  spins :
      (fuel : ℕ) (w : World)
      → has_bytes_to_write w ≡ false
      → w.conn.closed_callback ≡ true
      → app closed_cb ≡ close_it ∷ []
      → (w' : World) × (run_tasks heap app fuel (closing w) ≡ ok (w', false))
        × (w'.events ≡ w.events ++ closings fuel)
  unfolding run_tasks has_bytes_to_write
  spins zero w bare set asked = (closing w, refl, sym (append-nil w.events))
  spins (suc fuel) w bare set asked =
      let (w', done, same) = spins fuel (again w) bare set asked in
      (
        w',
        again-step fuel w bare set asked ∙ done,
        same ∙ append_assoc w.events (called closed_cb ∷ []) (closings fuel),
      )

  -- `close` on a connection that has nothing to send and no other task, whose closed callback calls
  -- `close` on it again: the loop over the tasks never ends. Whatever number of rounds it is given,
  -- the queue is not empty after them, and the closed callback has been invoked once in each.
  pub close-spins :
      (fuel : ℕ) (w : World)
      → has_bytes_to_write w ≡ false
      → w.task_queue ≡ []
      → w.conn.closed_callback ≡ true
      → app closed_cb ≡ close_it ∷ []
      → (w' : World) × (run_tasks heap app fuel (close w) ≡ ok (w', false))
        × (w'.events ≡ w.events ++ closings fuel)
  unfolding close
  close-spins fuel w bare quiet set asked = rw quiet (spins fuel w bare set asked)
