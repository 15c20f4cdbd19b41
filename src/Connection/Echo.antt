-- ===== src/Connection/Echo.antt =====
-- The echo server (benchmark/mutiplex/echo/server.cpp): an application that writes back what it reads,
-- over the read, the posted write, and the loop's tasks.
use mutiplex.Base.{
  sym, ℕ, suc, ◌≤◌, ◌≡◌, ◌≢◌, ap, ◌∙◌, true, false, ok, ◌>>=◌, List, [], ◌∷◌, ◌++◌, length, some,
  arith,
}
use mutiplex.Base.Memory.{Bytes, Allocator}
use mutiplex.ByteBuffer.{ByteBuffer}
use mutiplex.ByteBuffer.Invariant.{IsValid}
use mutiplex.ByteBuffer.Transfer.{readable}
use mutiplex.CircularBuffer
use mutiplex.CircularBuffer.{CircularBuffer}
use mutiplex.CircularBuffer.Invariant.{contents}
use mutiplex.EventSource.{EventSource}
use mutiplex.Connection.Context.{
  State, receiving, closed, Callback, established, closed_cb, error, read, Request, write_bytes,
  write_raw, World, emit, post, called,
}
use mutiplex.Connection.{handle_read, invoke, perform, do_write}
use mutiplex.Connection.Tasks.{run_tasks, run_task, pop_front}
use mutiplex.Connection.Frame.{Frame}
use mutiplex.Connection.Stream.{stream, held_bytes, sent_bytes-called}
use mutiplex.Connection.Enqueue.{RoomFor, do_write-stream}
use mutiplex.Connection.Requests.{perform-write}
use mutiplex.Connection.Reading.{handle_read-invokes}
use mutiplex.Connection.Closing.{run_write-alive, run_tasks-step, run_tasks-done, release-alive}
use mutiplex.Connection.HalfClose.{listed-alive}

-- A connection that holds, in a valid buffer, what `w` holds, followed by `xs`, and has its event
-- source.
abbrev pub Holds : World → Bytes → World → Type 0
Holds w xs w' =
    ((b : CircularBuffer) × (w'.conn.buffer_out ≡ some b)
      × CircularBuffer.Invariant.IsValid b
      × (contents b ≡ held_bytes w.conn.buffer_out ++ xs))
    × ((ev : EventSource) × (w'.conn.event_source ≡ some ev))

-- on_read of the echo server; its other callbacks do nothing to the connection.
abbrev pub echo : Callback → List Request
echo (read xs) = write_bytes xs ∷ []
echo established = []
echo closed_cb = []
echo error = []

-- An application that writes back what it reads.
abbrev pub Echoes : (Callback → List Request) → Type 0
Echoes app = (xs : Bytes) → app (read xs) ≡ write_bytes xs ∷ []

module _ (heap : Allocator) (app : Callback → List Request) where
  -- The task of a write, alone in the queue of a connection that the loop lists.
  pub run_posted :
      (fuel : ℕ) (w : World) (ev : EventSource) (b : ByteBuffer) (xs : Bytes)
      → readable b ≡ xs
      → w.conn.state ≡ receiving
      → w.conn.event_source ≡ some ev
      → w.listed ≡ true
      → w.destroyed ≡ false
      → w.task_queue ≡ []
      → RoomFor w.conn.buffer_out (length xs)
      → (w' : World) × (run_tasks heap app (suc (suc fuel)) (post w (write_raw b)) ≡ ok (w', true))
        × (w'.conn.state ≡ receiving)
        × (stream w' ≡ stream w ++ xs)
        × Holds w xs w'
        × Frame w w'
  unfolding run_task
  run_posted fuel w ev b xs same open_ source listed fresh quiet room =
      let w0 = record w { task_queue = write_raw b ∷ [] } in
      let (w1, b1, made, has, v, grown, state, frame, watched, holding) =
        do_write-stream heap app w0 ev xs (open_at w.conn.state open_) source room in
      let w2 = record w1 { task_queue = pop_front w1.task_queue } in
      (
        w2,
        ap
              (λ q.
                run_tasks heap app (suc (suc fuel))
                  (record w { task_queue = q ++ write_raw b ∷ [] }))
              quiet
            ∙ run_tasks-step heap app (suc fuel) (write_raw b) [] w w1 (
                run_write-alive heap app w0 b fresh
                ∙ ap (λ ys. do_write heap app w0 ys (length ys)) same
                ∙ made)
            ∙ ap (run_tasks heap app (suc fuel))
                (release-alive w2 (listed-alive w2 (frame.listed ∙ listed)))
            ∙ run_tasks-done heap app fuel w2 (ap pop_front frame.queue),
        state ∙ open_,
        grown,
        ((b1, has, v, holding), watched),
        record {
          received = frame.received;
          listed = frame.listed;
          held = frame.held;
          destroyed = frame.destroyed;
          queue = ap pop_front frame.queue ∙ sym quiet;
          reads = frame.reads;
        },
      )
    where
      open_at : (s : State) → s ≡ receiving → s ≢ closed
      open_at s e f = cc

  -- One round of an application that writes back what it reads, on a receiving connection that is
  -- not destroyed, has its event source and its read callback, is listed by the loop and has no
  -- other task, where the bytes read, at least one, fit into the valid receive buffer and into the
  -- buffer out, a new one, or the one there is, as it is, or grown unless it is full with `in_` at
  -- index 0: the read returns, and then the loop empties the queue, whatever fuel of at least two
  -- it has; the connection is still receiving, and the stream of bytes sent and held, and the valid
  -- buffer that holds the latter, have got exactly the bytes read at their ends; the receive buffer
  -- is valid, and what `Frame` names else is as before.
  pub echo-stream :
      {c : ℕ} (fuel : ℕ) (w : World) (ev : EventSource) (buffer : ByteBuffer) (x : ℕ) (xs : Bytes)
      → Echoes app
      → w.recv_buffer ≡ some buffer
      → IsValid c buffer
      → length (x ∷ xs) ≤ c
      → w.conn.read_callback ≡ true
      → w.conn.state ≡ receiving
      → w.conn.event_source ≡ some ev
      → w.listed ≡ true
      → w.destroyed ≡ false
      → w.task_queue ≡ []
      → RoomFor w.conn.buffer_out (length (x ∷ xs))
      → (w' : World) × ((handle_read heap app (some (x ∷ xs)) w
            >>= run_tasks heap app (suc (suc fuel)))
          ≡ ok (w', true))
        × (w'.conn.state ≡ receiving)
        × (stream w' ≡ stream w ++ x ∷ xs)
        × Holds w (x ∷ xs) w'
        × (full : ByteBuffer) × IsValid c full
        × Frame (record w { recv_buffer = some full }) w'
  unfolding invoke perform
  echo-stream {c} fuel w ev buffer x xs echoes has v room set open_ source listed fresh quiet fits =
      let (full, valid, holds, told) = handle_read-invokes heap app w buffer x xs has v room in
      let w0 = emit (record w { recv_buffer = some full }) (called (read (x ∷ xs)) ∷ []) in
      let (b, same, posted) =
        perform-write heap app w0 (x ∷ xs) [] open_ (omega arith) (omega (arith, room, v.small)) in
      let (w', done, state, grown, holds_them, frame) =
        run_posted fuel w0 ev b (x ∷ xs) same open_ source listed fresh quiet fits in
      (
        w',
        ap (λ r. r >>= run_tasks heap app (suc (suc fuel)))
              (told
                ∙ ap (λ s. invoke heap app s (read (x ∷ xs)) (record w { recv_buffer = some full }))
                    set
                ∙ ap (perform heap app w0) (echoes (x ∷ xs))
                ∙ posted)
            ∙ done,
        state,
        grown
            ∙ ap (λ bs. (bs ++ held_bytes w.conn.buffer_out) ++ x ∷ xs)
                (sent_bytes-called w.events (read (x ∷ xs))),
        holds_them,
        full,
        valid,
        record {
          received = frame.received;
          listed = frame.listed;
          held = frame.held;
          destroyed = frame.destroyed;
          queue = frame.queue;
          reads = frame.reads;
        },
      )
