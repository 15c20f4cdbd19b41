-- ===== src/Connection/Closing.antt =====
-- The posted lambdas of Connection: closing in its combinations with writing and with itself.
use mutiplex.Base.{
  if◌then◌else◌, ℕ, suc, ◌^◌, ◌<◌, ◌≡◌, refl, ap, ◌∙◌, Bool, true, false, ok, err, dangling, ◌>>=◌,
  List, [], ◌∷◌, ◌||◌, ◌++◌, append_assoc, length, arith,
}
use mutiplex.Base.Memory.{Bytes, Allocator}
use mutiplex.ByteBuffer.{ByteBuffer}
use mutiplex.ByteBuffer.Transfer.{readable, filled-readable}
use mutiplex.Connection.Requests.{int32-small}
use mutiplex.Connection.Context.{
  closed, Callback, closed_cb, Request, write_bytes, close_it, Task, close_task, write_raw, World,
  with_state, called,
}
use mutiplex.Connection.{
  do_write, has_bytes_to_write, is_closed, close, write, perform, invoke, run_close,
}
use mutiplex.Connection.Tasks.{
  release, run_task, run_tasks, is_alive, destroy, holds, pop_front, run_write,
}

abbrev pub popped : World → World
popped w = release (record w { task_queue = pop_front w.task_queue })

held-alive : (listed held rest : Bool) → held ≡ true → (listed || held || rest) ≡ true
held-alive false held rest e = rw e refl
held-alive true held rest e = refl

pub release-alive : (w : World) → is_alive w ≡ true → release w ≡ w
unfolding release
release-alive w e = rw e refl

module _ (heap : Allocator) (app : Callback → List Request) where
  pub run_tasks-step :
      (fuel : ℕ) (t : Task) (rest : List Task) (w w' : World)
      → run_task heap app t (record w { task_queue = t ∷ rest }) ≡ ok w'
      → run_tasks heap app (suc fuel) (record w { task_queue = t ∷ rest })
        ≡ run_tasks heap app fuel (popped w')
  unfolding run_tasks
  run_tasks-step fuel t rest w w' e = rw e refl

  pub run_tasks-done :
      (fuel : ℕ) (w : World) → w.task_queue ≡ [] → run_tasks heap app (suc fuel) w ≡ ok (w, true)
  unfolding run_tasks
  run_tasks-done fuel w q = rw q refl

  pub run_write-alive :
      (w : World) (b : ByteBuffer)
      → w.destroyed ≡ false
      → run_write heap app w b ≡ do_write heap app w (readable b) (length (readable b))
  unfolding run_write
  run_write-alive w b fresh =
      ap (λ d. if d then err dangling else do_write heap app w (readable b) (length (readable b)))
        fresh

  release-held : (w : World) → w.held ≡ true → release w ≡ w
  unfolding is_alive
  release-held w e = release-alive w (held-alive w.listed w.held (holds w.task_queue) e)

  abbrev told : World → World
  told w = record w {
    conn = record w.conn { state = closed };
    listed = false;
    events = w.events ++ called closed_cb ∷ [];
  }

  run_close-told :
      (w : World)
      → has_bytes_to_write w ≡ false
      → w.conn.closed_callback ≡ true
      → app closed_cb ≡ []
      → run_close heap app w ≡ ok (told w)
  unfolding run_close invoke perform
  run_close-told w bare set none_asked = rw (bare, set, none_asked) refl

  close-twice_idle :
      (fuel : ℕ) (w : World)
      → has_bytes_to_write w ≡ false
      → w.held ≡ true
      → w.conn.closed_callback ≡ true
      → app closed_cb ≡ []
      → run_tasks heap app
          (suc (suc (suc fuel)))
          (record w { task_queue = close_task ∷ close_task ∷ [] })
        ≡ ok (told (told (record w { task_queue = [] })), true)
  unfolding run_task has_bytes_to_write
  close-twice_idle fuel w bare held set none_asked =
      let w0 = record w { task_queue = close_task ∷ close_task ∷ [] } in
      let w1 = told (record w { task_queue = close_task ∷ [] }) in
      let w2 = told (told (record w { task_queue = [] })) in
      run_tasks-step (suc (suc fuel)) close_task (close_task ∷ []) w (told w0)
        (run_close-told w0 bare set none_asked)
      ∙ ap (run_tasks heap app (suc (suc fuel))) (release-held w1 held)
      ∙ run_tasks-step (suc fuel) close_task [] w1 (told w1) (run_close-told w1 bare set none_asked)
      ∙ ap (run_tasks heap app (suc fuel)) (release-held w2 held)
      ∙ run_tasks-done fuel w2 refl

  -- `close` called twice on a connection that has nothing to send and no other task and that the
  -- application holds, whose closed callback is set and asks for nothing: the closed callback is
  -- invoked twice.
  pub close-twice :
      (fuel : ℕ) (w : World)
      → has_bytes_to_write w ≡ false
      → w.task_queue ≡ []
      → w.held ≡ true
      → w.conn.closed_callback ≡ true
      → app closed_cb ≡ []
      → (w' : World) × (run_tasks heap app (suc (suc (suc fuel))) (close (close w)) ≡ ok (w', true))
        × (w'.events ≡ w.events ++ called closed_cb ∷ called closed_cb ∷ [])
  unfolding close
  close-twice fuel w bare quiet held set none_asked = (
    told (told (record w { task_queue = [] })),
    rw quiet (close-twice_idle fuel w bare held set none_asked),
    append_assoc w.events (called closed_cb ∷ []) (called closed_cb ∷ []),
  )

  pub release-last : (w : World) → is_alive w ≡ false → w.destroyed ≡ false → release w ≡ destroy w
  unfolding release
  release-last w e d = rw (e, d) refl

  run_close-silent :
      (w : World)
      → has_bytes_to_write w ≡ false
      → w.conn.closed_callback ≡ false
      → run_close heap app w ≡ ok (record (with_state w closed) { listed = false })
  unfolding run_close invoke
  run_close-silent w bare unset = rw (bare, unset) refl

  write-after_close :
      (fuel : ℕ) (w : World) (b : ByteBuffer)
      → has_bytes_to_write w ≡ false
      → w.conn.closed_callback ≡ false
      → w.held ≡ false
      → w.destroyed ≡ false
      → run_tasks heap app
          (suc (suc fuel))
          (record w { task_queue = close_task ∷ write_raw b ∷ [] })
        ≡ err dangling
  unfolding run_task run_tasks run_write has_bytes_to_write destroy is_alive
  write-after_close fuel w b bare unset unheld fresh =
      let w0 = record w { task_queue = close_task ∷ write_raw b ∷ [] } in
      let w1 = record w {
        conn = record w.conn { state = closed };
        listed = false;
        task_queue = write_raw b ∷ [];
      } in
      run_tasks-step (suc fuel) close_task (write_raw b ∷ []) w _ (run_close-silent w0 bare unset)
      ∙ ap (run_tasks heap app (suc fuel)) (release-last w1 (rw unheld refl) fresh)

  -- A callback that calls `close` and then `write` with a block of 1 to 2^31 - 1 bytes, on an open
  -- connection with nothing to send and no other task, whose closed callback is not set and which
  -- the application does not hold: the connection is destroyed before the lambda of the write, which
  -- keeps a plain `this`, runs on it.
  pub close-write_dangling :
      (fuel : ℕ) (w : World) (xs : Bytes)
      → is_closed w ≡ false
      → has_bytes_to_write w ≡ false
      → w.task_queue ≡ []
      → w.conn.closed_callback ≡ false
      → w.held ≡ false
      → w.destroyed ≡ false
      → 0 < length xs
      → length xs < 2 ^ 31
      → (perform heap app w (close_it ∷ write_bytes xs ∷ [])
          >>= run_tasks heap app (suc (suc fuel)))
        ≡ err dangling
  unfolding perform write close
  close-write_dangling fuel w xs open_ bare quiet unset unheld fresh p h =
      let (b, made, v, same) = filled-readable heap xs (length xs) p h (omega arith) in
      rw (quiet, open_, int32-small (length xs) h, made)
        (write-after_close fuel w b bare unset unheld fresh)
