-- ===== src/Connection/Farewell.antt =====
-- A callback that writes a block and then calls close: the connection sends it, and ends.
pub mod Sending
use mutiplex.Base.{
  ℕ, suc, ◌+◌, ◌^◌, ◌≤◌, ◌≡◌, ◌≢◌, refl, sym, ap, ◌∙◌, Bool, true, false, ok, ◌>>=◌, List, [], ◌∷◌,
  ◌++◌, append-nil, length, none, some,
}
use mathlib.Core.Path.{subst}
use mutiplex.Base.Memory.{Bytes, Allocator}
use mutiplex.ByteBuffer.Transfer.{readable}
use mutiplex.ByteBuffer.{ByteBuffer}
use mutiplex.CircularBuffer
use mutiplex.CircularBuffer.{CircularBuffer}
use mutiplex.CircularBuffer.Invariant.{IsValid, contents}
use mutiplex.EventSource
use mutiplex.EventSource.{EventSource}
use mutiplex.Connection.Context.{
  post, State, receiving, disconnecting, closed, Callback, closed_cb, Request, close_task,
  write_raw, Event, called, World, with_state, sent,
}
use mutiplex.Connection.{perform, invoke, do_write, close, run_close, has_bytes_to_write}
use mutiplex.Connection.Tasks.{pop_front, run_tasks, run_task, release, destroy, is_alive}
use mutiplex.Connection.Stream.{sent_bytes, held_bytes, stream, nonempty}
use mutiplex.Connection.Enqueue.{RoomFor, do_write-stream}
use mutiplex.Connection.Closing.{
  release-last, run_write-alive, run_tasks-step, run_tasks-done, release-alive,
}
use mutiplex.Connection.HalfClose.{listed-alive, close-holding}

-- A connection that its loop alone holds and lists, with no task left.
pub record IsIdle (w : World) : Type 0 where
  pub listed : w.listed ≡ true
  pub unheld : w.held ≡ false
  pub alive : w.destroyed ≡ false
  pub quiet : w.task_queue ≡ []

-- One that is to end when the bytes `xs`, which it holds, are sent, with `before` sent already.
pub record Leaves (before xs : Bytes) (w' : World) : Type 0 where
  pub idle : IsIdle w'
  pub half : w'.conn.state ≡ disconnecting
  pub event_source : EventSource
  pub source : w'.conn.event_source ≡ some event_source
  pub buffer : CircularBuffer
  pub has : w'.conn.buffer_out ≡ some buffer
  pub valid : IsValid buffer
  pub held : contents buffer ≡ xs
  pub grown : stream w' ≡ before ++ xs

abbrev pub notice : Bool → List Event
notice true = called closed_cb ∷ []
notice false = []

-- The connection after the lambda of `close`, with nothing to send.
abbrev pub ended : Bool → World → World
ended set w = record w {
  conn = record w.conn { state = closed };
  listed = false;
  events = w.events ++ notice set;
}

pub sent_bytes-notice : (set : Bool) → sent_bytes (notice set) ≡ []
unfolding sent_bytes
sent_bytes-notice true = refl
sent_bytes-notice false = refl

module _ (heap : Allocator) (app : Callback → List Request) where
  -- The two tasks of such a callback.
  pub run_farewell :
      (fuel : ℕ) (w : World) (ev : EventSource) (b : ByteBuffer) (xs : Bytes)
      → readable b ≡ xs
      → xs ≢ []
      → length xs ≤ 2 ^ 31
      → IsIdle w
      → w.conn.state ≡ receiving
      → w.conn.event_source ≡ some ev
      → w.conn.buffer_out ≡ none
      → (w' : World) × (run_tasks heap app (suc (suc (suc fuel))) (close (post w (write_raw b)))
          ≡ ok (w', true))
        × Leaves (stream w) xs w'
  unfolding close run_task
  run_farewell fuel w ev b xs same some_bytes room idle open_ source bare =
      let w0 = record w { task_queue = write_raw b ∷ close_task ∷ [] } in
      let (w1, b1, made, has, v, grown, state, frame, (ev1, there), held) =
        do_write-stream heap app w0 ev xs (open_at w.conn.state open_) source
          (subst (λ o. RoomFor o (length xs)) (sym bare) room) in
      let w2 = record w1 { task_queue = [] } in
      let all_held : contents b1 ≡ xs = held ∙ ap (λ o. held_bytes o ++ xs) bare in
      (
        with_state w2 disconnecting,
        ap
              (λ q.
                run_tasks heap app (suc (suc (suc fuel)))
                  (record w { task_queue = (q ++ write_raw b ∷ []) ++ close_task ∷ [] }))
              idle.quiet
            ∙ run_tasks-step heap app (suc (suc fuel)) (write_raw b) (close_task ∷ []) w w1 (
                run_write-alive heap app w0 b idle.alive
                ∙ ap (λ ys. do_write heap app w0 ys (length ys)) same
                ∙ made)
            ∙ ap (λ q. run_tasks heap app (suc (suc fuel)) (release (record w1 { task_queue = q })))
                (ap pop_front frame.queue)
            ∙ ap (run_tasks heap app (suc (suc fuel)))
                (release-alive (close w2) (listed-alive (close w2) (frame.listed ∙ idle.listed)))
            ∙ close-holding heap app fuel w2 b1 has
                (nonempty v (λ e. some_bytes (sym all_held ∙ e))) (frame.listed ∙ idle.listed) refl,
        record {
          idle = record {
            listed = frame.listed ∙ idle.listed;
            unheld = frame.held ∙ idle.unheld;
            alive = frame.destroyed ∙ idle.alive;
            quiet = refl;
          };
          half = refl;
          event_source = ev1;
          source = there;
          buffer = b1;
          has = has;
          valid = v;
          held = all_held;
          grown = grown;
        },
      )
    where
      open_at : (s : State) → s ≡ receiving → s ≢ closed
      open_at s e f = cc

  run_close-ended :
      (w : World)
      → has_bytes_to_write w ≡ false
      → app closed_cb ≡ []
      → run_close heap app w ≡ ok (ended w.conn.closed_callback w)
  unfolding run_close invoke perform
  run_close-ended w bare asked = rw bare (at w.conn.closed_callback)
    where
      at :
          (set : Bool)
          → (invoke heap app set closed_cb (with_state w closed) >>= λ w'.
              ok (record w' { listed = false }))
            ≡ ok (ended set w)
      at true = rw asked refl
      at false =
          ap (λ es. ok (record (with_state w closed) { listed = false; events = es }))
            (sym (append-nil w.events))

  -- The lambda of `close` with nothing to send ends the connection.
  pub close-empty :
      (fuel : ℕ) (w : World)
      → has_bytes_to_write w ≡ false
      → app closed_cb ≡ []
      → IsIdle w
      → run_tasks heap app (suc (suc fuel)) (close w)
        ≡ ok (destroy (record (ended w.conn.closed_callback w) { task_queue = [] }), true)
  unfolding close run_task has_bytes_to_write is_alive destroy
  close-empty fuel w bare asked idle =
      ap (λ q. run_tasks heap app (suc (suc fuel)) (record w { task_queue = q ++ close_task ∷ [] }))
        idle.quiet
      ∙ run_tasks-step heap app (suc fuel) close_task [] w _
          (run_close-ended (record w { task_queue = close_task ∷ [] }) bare asked)
      ∙ ap (run_tasks heap app (suc fuel)) (
          release-last heap app (record (ended w.conn.closed_callback w) { task_queue = [] })
            (rw idle.unheld refl) idle.alive)
      ∙ run_tasks-done heap app fuel _ refl
