-- ===== src/Connection/Posting.antt =====
-- The operations of a connection only add tasks at the end of the queue.
use mutiplex.Base.{
  ℕ, ◌≡◌, refl, sym, ap, ◌∙◌, Bool, true, false, ok, err, dangling, ◌>>=◌, Always, Always-after,
  Always-if, List, [], ◌∷◌, ◌++◌, append-nil, append_assoc, length, Option,
}
use mutiplex.Base.Memory.{Bytes, Allocator}
use mutiplex.ByteBuffer.{ByteBuffer}
use mutiplex.ByteBuffer.Transfer.{readable}
use mutiplex.CircularBuffer
use mutiplex.Connection.Context.{
  State, new_state, receiving, disconnecting, closed, Callback, closed_cb, established, Request,
  Task, close_task, force_close_task, write_raw, write_shared, World, deref, with_state,
}
use mutiplex.Connection.{
  has_bytes_to_write, invoke, do_write, do_write_at, do_write_open, out_buffer, run_close,
  run_force_close, on_new_connection, register_event,
}
use mutiplex.Connection.Tasks.{run_write, run_task}
use mutiplex.Connection.Kept.{Laws, Writes, Keeping, after, chain, invoke_kept, force_close_kept}

pub record Grows (w w' : World) : Type 0 where
  pub added : List Task
  pub longer : w'.task_queue ≡ w.task_queue ++ added

-- A change of anything else.
pub same_queue : {w w' : World} → w'.task_queue ≡ w.task_queue → Grows w w'
same_queue {w} e = record { added = []; longer = e ∙ sym (append-nil w.task_queue) }

then-Grows : {w u v : World} → Grows w u → Grows u v → Grows w v
then-Grows {w} g h = record {
  added = g.added ++ h.added;
  longer = h.longer ∙ ap (λ q. q ++ h.added) g.longer ∙ append_assoc w.task_queue g.added h.added;
}

pub Grows-Laws : Laws Grows
Grows-Laws = record {
  same = λ w. same_queue refl;
  trans = then-Grows;
  changed = λ w change. same_queue refl;
  posts = λ w t. record { added = t ∷ []; longer = refl };
  tells = λ w cb. same_queue refl;
  fills = λ w b. same_queue refl;
}

pub Writes-Grows : (kernel : Bytes → Option ℕ) → Writes Grows kernel
Writes-Grows kernel w b b' total xs has some_held made = same_queue refl

module _ (heap : Allocator) (app : Callback → List Request) where
  pub on_new_connection-Grows : (w : World) → Always (Grows w) (on_new_connection heap app w)
  unfolding on_new_connection register_event
  on_new_connection-Grows w =
      let u = record (register_event w) { listed = true } in
      after Grows-Laws {w = w} (invoke heap app u.conn.established_callback established u)
        (same_queue refl)
        (invoke_kept Grows-Laws heap app u.conn.established_callback established u)

  -- The closed callback, and the connection off the list of the loop.
  erased-Grows :
      (w u : World) (set : Bool)
      → Grows w u
      → Always (Grows w) (invoke heap app set closed_cb u >>= λ v. ok (record v { listed = false }))
  erased-Grows w u set g =
      chain Grows-Laws w (invoke heap app set closed_cb u) (λ v. ok (record v { listed = false }))
        (λ v. same_queue refl)
        (after Grows-Laws (invoke heap app set closed_cb u) g
          (invoke_kept Grows-Laws heap app set closed_cb u))

  run_close-Grows : Keeping Grows-Laws (run_close heap app)
  unfolding run_close
  run_close-Grows w =
      Always-if (Grows w) (has_bytes_to_write w) (ok (with_state w disconnecting)) _
        (same_queue refl)
        (erased-Grows w (with_state w closed) w.conn.closed_callback (same_queue refl))

  run_force_close-Grows : Keeping Grows-Laws (run_force_close heap app)
  unfolding run_force_close
  run_force_close-Grows w = Always-after (Grows w) (deref w.conn.buffer_out) _ (λ buffer.
      Always-after (Grows w) (deref w.conn.event_source) _ (λ ev.
        Always-if (Grows w) w.listed _ _ (erased-Grows w _ w.conn.closed_callback (same_queue refl))
          (same_queue refl)))

  do_write_open-Grows :
      (w : World) (xs : Bytes) → Always (Grows w) (do_write_open heap app w xs (length xs))
  unfolding do_write_open
  do_write_open-Grows w xs =
      Always-after (Grows w)
        (CircularBuffer.put heap (out_buffer heap w.conn.buffer_out (length xs)) xs (length xs)) _
        (λ b. Always-after (Grows w) (deref w.conn.event_source) _ (λ ev. same_queue refl))

  do_write_at-Grows :
      (s : State) (w : World) (xs : Bytes)
      → Always (Grows w) (do_write_at heap app s w xs (length xs))
  unfolding do_write_at
  do_write_at-Grows closed w xs = force_close_kept Grows-Laws heap app w
  do_write_at-Grows new_state w xs = do_write_open-Grows w xs
  do_write_at-Grows receiving w xs = do_write_open-Grows w xs
  do_write_at-Grows disconnecting w xs = do_write_open-Grows w xs

  run_write-Grows : (b : ByteBuffer) → Keeping Grows-Laws (λ w. run_write heap app w b)
  unfolding run_write do_write
  run_write-Grows b w =
      Always-if (Grows w) w.destroyed (err dangling) _ tt
        (do_write_at-Grows w.conn.state w (readable b))

  pub run_task-Grows : (t : Task) → Keeping Grows-Laws (run_task heap app t)
  unfolding run_task
  run_task-Grows close_task w = run_close-Grows w
  run_task-Grows force_close_task w = run_force_close-Grows w
  run_task-Grows (write_raw b) w = run_write-Grows b w
  run_task-Grows (write_shared b) w = run_write-Grows b w
