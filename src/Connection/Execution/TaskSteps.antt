-- ===== src/Connection/Execution/TaskSteps.antt =====
-- The tasks of the loop as steps of a connection.
use mathlib.Core.Path.{subst}
use mutiplex.Base.{
  ℕ, ◌≡◌, ◌≢◌, refl, sym, ap, ◌∙◌, inl, inr, Bool, false, Bool-cases, Result, ok, err, dangling,
  ◌>>=◌, Always, Always-after, Always-if, List, [], ◌++◌, append-nil, append_assoc, length, Option,
  some, none, if◌then◌else◌,
}
use mutiplex.Base.Memory.{Bytes, Allocator}
use mutiplex.ByteBuffer.{ByteBuffer}
use mutiplex.ByteBuffer.Transfer.{readable}
use mutiplex.CircularBuffer
use mutiplex.CircularBuffer.{CircularBuffer}
use mutiplex.CircularBuffer.Invariant.{contents, clear-IsValid}
use mutiplex.EventSource
use mutiplex.EventSource.{EventSource}
use mutiplex.Connection.Context.{
  State, new_state, receiving, disconnecting, closed, Callback, closed_cb, Request, Task,
  close_task, force_close_task, write_raw, write_shared, World, deref, with_state, with_buffer,
}
use mutiplex.Connection.{
  has_bytes_to_write, invoke, force_close, do_write, do_write_at, run_close, run_force_close,
}
use mutiplex.Connection.Tasks.{run_write, run_task}
use mutiplex.Connection.Stream.{sent_bytes, held_bytes, stream}
use mutiplex.Connection.Enqueue.{RoomFor, do_write-at}
use mutiplex.Connection.Steady.{Ready, IsSound, chain-Steady, invoke-Steady, force_close-Steady}
use mutiplex.Connection.Execution.{RoomIn, Fits, written_by, accepted}
use mutiplex.Connection.Execution.Soundness.{
  Sound, Follows, Steady-Follows, chain-Follows, has_bytes-held, has_bytes-open, unlisted,
  closed-Follows, waiting-Follows,
}

module _ (heap : Allocator) (app : Callback → List Request) where
  -- The closed callback, and the connection off the list of the loop.
  erased-Follows :
      (w u : World) (xs : Bytes) (set : Bool)
      → Follows w xs u xs
      → Always
          (λ v. Follows w xs v xs)
          (invoke heap app set closed_cb u >>= λ v. ok (record v { listed = false }))
  erased-Follows w u xs set a =
      chain-Follows (invoke heap app set closed_cb u >>= λ v. ok (record v { listed = false })) a (
        chain-Steady u (invoke heap app set closed_cb u) (λ v. ok (record v { listed = false }))
          unlisted (invoke-Steady heap app set closed_cb u a.sound.ready a.sound.valid))

  run_close-Follows :
      (w : World) (xs : Bytes) → Sound w xs → Always (λ v. Follows w xs v xs) (run_close heap app w)
  unfolding run_close
  run_close-Follows w xs s = elim (Bool-cases (has_bytes_to_write w)) [
    | inl y ↦ rw y (waiting-Follows w xs s (has_bytes-open w xs s y))
    | inr n ↦ rw n (
        erased-Follows w (with_state w closed) xs w.conn.closed_callback
          (closed-Follows w xs s (has_bytes-held w s.valid n)))
  ]

  -- The buffer of a connection that is force-closed: its bytes are thrown away.
  cleared : World → CircularBuffer → EventSource → World
  cleared w b ev =
      let u = with_buffer (with_state w closed) (CircularBuffer.clear b) in
      record u { conn = record u.conn { event_source = some (EventSource.set_interest_ops ev 0) } }

  cleared-Follows :
      (w : World) (xs : Bytes) (b : CircularBuffer) (ev : EventSource)
      → w.conn.buffer_out ≡ some b
      → IsSound (some b)
      → Sound w xs
      → Follows w xs (cleared w b ev) xs
  unfolding cleared
  cleared-Follows w xs b ev has v s =
      let (v', bare) = clear-IsValid v in
      record {
        sound = record {
          ready = tt;
          valid = v';
          hollow = λ c. bare;
          lost = contents b ++ s.lost;
          split =
              ap (λ h. (sent_bytes w.events ++ h) ++ (contents b ++ s.lost)) bare
              ∙ ap (λ t. t ++ (contents b ++ s.lost)) (append-nil (sent_bytes w.events))
              ∙ sym (append_assoc (sent_bytes w.events) (contents b) s.lost)
              ∙ ap (λ o. (sent_bytes w.events ++ held_bytes o) ++ s.lost) (sym has)
              ∙ s.split;
          exact = λ n. absurd (n refl);
        };
        final = λ c. (refl, refl, refl);
      }

  run_force_close-Follows :
      (w : World) (xs : Bytes)
      → Sound w xs
      → Always (λ v. Follows w xs v xs) (run_force_close heap app w)
  unfolding run_force_close cleared
  run_force_close-Follows w xs s = at w.conn.buffer_out refl s.valid
    where
      forced : CircularBuffer → EventSource → Result World
      forced b ev =
          let u = cleared w b ev in
          if w.listed
          then (invoke heap app u.conn.closed_callback closed_cb u >>= λ v.
              ok (record v { listed = false }))
          else ok u

      forced-Follows :
          (b : CircularBuffer) (ev : EventSource)
          → Follows w xs (cleared w b ev) xs
          → Always (λ v. Follows w xs v xs) (forced b ev)
      forced-Follows b ev a =
          Always-if (λ v. Follows w xs v xs) w.listed _ _
            (erased-Follows w (cleared w b ev) xs w.conn.closed_callback a) a

      at :
          (o : Option CircularBuffer)
          → w.conn.buffer_out ≡ o
          → IsSound o
          → Always
              (λ v. Follows w xs v xs)
              (deref o >>= λ b. deref w.conn.event_source >>= λ ev. forced b ev)
      at none e v = tt
      at (some b) e v =
          Always-after (λ v. Follows w xs v xs) (deref w.conn.event_source) (forced b)
            (λ ev. forced-Follows b ev (cleared-Follows w xs b ev e v s))

  room : (o : Option CircularBuffer) (n : ℕ) → IsSound o → RoomIn o n → RoomFor o n
  room none n v h = h
  room (some b) n v h = (v, h)

  source : (o : Option EventSource) → Ready o → (ev : EventSource) × (o ≡ some ev)
  source none r = absurd r
  source (some ev) r = (ev, refl)

  -- A write on a connection that is not closed.
  open-Follows :
      (s : State) (w : World) (xs ys : Bytes)
      → w.conn.state ≡ s
      → s ≢ closed
      → Sound w xs
      → RoomIn w.conn.buffer_out (length ys)
      → Always (λ v. Follows w xs v (xs ++ ys)) (do_write_at heap app s w ys (length ys))
  open-Follows s w xs ys at open_ sound fits =
      let (ev, e) = source w.conn.event_source sound.ready in
      let (w', b', made, has, v, grown, state, frame, (ev', there), _) =
        do_write-at heap app s w ev ys open_ e
          (room w.conn.buffer_out (length ys) sound.valid fits) in
      rw made (record {
        sound = record {
          ready = subst Ready (sym there) tt;
          valid = subst IsSound (sym has) v;
          hollow = λ c. absurd (open_ (sym at ∙ sym state ∙ c));
          lost = [];
          split =
              append-nil (stream w')
              ∙ grown
              ∙ ap (λ t. t ++ ys)
                  (sym (append-nil (stream w))
                    ∙ ap (λ l. stream w ++ l) (sym (sound.exact (λ c. open_ (sym at ∙ c))))
                    ∙ sound.split);
          exact = λ n. refl;
        };
        final = λ c. absurd (open_ (sym at ∙ c));
      })

  write-Follows :
      (s : State) (w : World) (xs : Bytes) (t : Task) (ys : Bytes)
      → w.conn.state ≡ s
      → written_by t ≡ ys
      → Sound w xs
      → RoomIn w.conn.buffer_out (length ys)
      → Always (λ v. Follows w xs v (xs ++ accepted s t)) (do_write_at heap app s w ys (length ys))
  unfolding do_write_at force_close
  write-Follows closed w xs t ys at e s fits =
      subst (Follows w xs (force_close w)) (sym (append-nil xs))
        (Steady-Follows s (force_close-Steady heap app w s.ready s.valid))
  write-Follows new_state w xs t ys at e s fits =
      rw e (open-Follows new_state w xs ys at (λ c. cc) s fits)
  write-Follows receiving w xs t ys at e s fits =
      rw e (open-Follows receiving w xs ys at (λ c. cc) s fits)
  write-Follows disconnecting w xs t ys at e s fits =
      rw e (open-Follows disconnecting w xs ys at (λ c. cc) s fits)

  run_write-Follows :
      (w : World) (xs : Bytes) (t : Task) (b : ByteBuffer)
      → written_by t ≡ readable b
      → Sound w xs
      → RoomIn w.conn.buffer_out (length (readable b))
      → Always (λ v. Follows w xs v (xs ++ accepted w.conn.state t)) (run_write heap app w b)
  unfolding run_write do_write
  run_write-Follows w xs t b e s fits =
      Always-if (λ v. Follows w xs v (xs ++ accepted w.conn.state t)) w.destroyed (err dangling) _
        tt (write-Follows w.conn.state w xs t (readable b) refl e s fits)

  nothing_accepted : (s : State) (t : Task) → written_by t ≡ [] → accepted s t ≡ []
  nothing_accepted closed t e = refl
  nothing_accepted new_state t e = e
  nothing_accepted receiving t e = e
  nothing_accepted disconnecting t e = e

  quiet-Follows :
      (w : World) (xs : Bytes) (t : Task) (r : Result World)
      → written_by t ≡ []
      → Always (λ v. Follows w xs v xs) r
      → Always (λ v. Follows w xs v (xs ++ accepted w.conn.state t)) r
  quiet-Follows w xs t r e =
      subst (λ ys. Always (λ v. Follows w xs v ys) r)
        (sym (ap (λ ys. xs ++ ys) (nothing_accepted w.conn.state t e) ∙ append-nil xs))

  pub run_task-Follows :
      (t : Task) (w : World) (xs : Bytes)
      → Sound w xs
      → Fits t w
      → Always (λ v. Follows w xs v (xs ++ accepted w.conn.state t)) (run_task heap app t w)
  unfolding run_task
  run_task-Follows close_task w xs s fits =
      quiet-Follows w xs close_task (run_close heap app w) refl (run_close-Follows w xs s)
  run_task-Follows force_close_task w xs s fits =
      quiet-Follows w xs force_close_task (run_force_close heap app w) refl
        (run_force_close-Follows w xs s)
  run_task-Follows (write_raw b) w xs s fits = run_write-Follows w xs (write_raw b) b refl s fits
  run_task-Follows (write_shared b) w xs s fits =
      run_write-Follows w xs (write_shared b) b refl s fits
