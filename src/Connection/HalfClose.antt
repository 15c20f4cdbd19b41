-- ===== src/Connection/HalfClose.antt =====
-- handle_write on a connection in the state Disconnecting, with the lambda of `close` that it
-- posts.
use mathlib.Core.Path.{subst}
use mutiplex.Base.{
  ℕ, zero, suc, ◌<◌, ◌^◌, ◌≤◌, ap₂, ◌≡◌, ◌≢◌, refl, sym, ap, ◌∙◌, true, false, ok, ◌>>=◌, List, [],
  ◌∷◌, ◌++◌, length, drop, length-drop, Option, some, arith,
}
use mutiplex.Base.Int.{ℤ, pos}
use mutiplex.Base.Word.{int32}
use mutiplex.Base.Memory.{Bytes, Allocator}
use mutiplex.CircularBuffer
use mutiplex.CircularBuffer.{CircularBuffer}
use mutiplex.CircularBuffer.Invariant.{length-contents, valid-Layout, IsValid, contents}
use mutiplex.CircularBuffer.Flush.{write_to_fd-refines, Flushed, taken}
use mutiplex.EventSource
use mutiplex.EventSource.{EventSource}
use mutiplex.Connection.Context.{
  disconnecting, Callback, Request, close_task, World, deref, emit, with_buffer, with_source,
  with_state, sent,
}
use mutiplex.Connection.Stream.{held_bytes, nonempty}
use mutiplex.Connection.Requests.{int32-small}
use mutiplex.Connection.Closing.{run_tasks-step, run_tasks-done, release-alive}
use mutiplex.Connection.{has_bytes_to_write, close, written, flush_buffer, handle_write, run_close}
use mutiplex.Connection.Tasks.{is_alive, run_task, run_tasks}

pub counted :
    {b b' : CircularBuffer} {r : ℤ} {xs : Bytes} {n : ℕ}
    → Flushed b r xs b' (some n)
    → (r ≡ int32 n) × (contents b' ≡ drop n (contents b))
counted (taken n count front back) = (count, back)

pub listed-alive : (w : World) → w.listed ≡ true → is_alive w ≡ true
unfolding is_alive
listed-alive w e = rw e refl

cut : (n : ℕ) (xs : Bytes) → n < length xs → drop n xs ≢ []
cut n xs h e = omega (arith, h, length-drop n xs, ap length e)

module _ (heap : Allocator) (app : Callback → List Request) where
  written-half :
      (m : ℕ) (b : CircularBuffer) (w : World) (ev : EventSource)
      → w.conn.event_source ≡ some ev
      → written heap app disconnecting (pos (suc m)) b w
        ≡ ok (close (with_source w (EventSource.disable_writing ev)))
  unfolding written
  written-half m b w ev e =
      ap (λ o. deref o >>= λ ev. ok (close (with_source w (EventSource.disable_writing ev)))) e

  -- The lambda of `close` while bytes are held only sets the state.
  pub close-holding :
      (fuel : ℕ) (w : World) (b : CircularBuffer)
      → w.conn.buffer_out ≡ some b
      → CircularBuffer.empty b ≡ false
      → w.listed ≡ true
      → w.task_queue ≡ []
      → run_tasks heap app (suc (suc fuel)) (close w) ≡ ok (with_state w disconnecting, true)
  unfolding run_task run_close has_bytes_to_write close
  close-holding fuel w b has some_held listed quiet =
      ap (λ q. run_tasks heap app (suc (suc fuel)) (record w { task_queue = q ++ close_task ∷ [] }))
        quiet
      ∙ run_tasks-step heap app (suc fuel) close_task [] w w1 (rw (has, some_held) refl)
      ∙ ap (run_tasks heap app (suc fuel)) (release-alive w2 (listed-alive w2 listed))
      ∙ run_tasks-done heap app fuel w2 refl
      ∙ ap
          (λ q.
            ok (record w { conn = record w.conn { state = disconnecting }; task_queue = q }, true))
          (sym quiet)
    where
      w1 : World
      w1 = with_state (record w { task_queue = close_task ∷ [] }) disconnecting

      w2 : World
      w2 = with_state (record w { task_queue = [] }) disconnecting

module _ (heap : Allocator) (app : Callback → List Request) (kernel : Bytes → Option ℕ)
    (honest : (xs : Bytes) (n : ℕ) → kernel xs ≡ some n → n ≤ length xs) where
  -- A write event in the state Disconnecting sends what the kernel takes, and posts `close`.
  pub handle_write-disconnecting :
      (w : World) (b : CircularBuffer) (ev : EventSource) (m : ℕ)
      → w.conn.buffer_out ≡ some b
      → IsValid b
      → w.conn.event_source ≡ some ev
      → w.conn.state ≡ disconnecting
      → kernel (contents b) ≡ some (suc m)
      → suc m ≤ length (contents b)
      → suc m < 2 ^ 31
      → (b' : CircularBuffer) × (xs : Bytes) × (handle_write heap app kernel w
          ≡ ok (
              close (
                with_source
                  (emit (with_buffer w b') (sent xs ∷ []))
                  (EventSource.disable_writing ev))))
        × IsValid b'
        × (contents b' ≡ drop (suc m) (contents b))
        × (xs ++ contents b' ≡ contents b)
  unfolding handle_write flush_buffer
  handle_write-disconnecting w b ev m has v source half took h small =
      let (r, xs, b', made, (v', same, cases)) = write_to_fd-refines kernel honest v some_held in
      let (count, back) = counted (subst (Flushed b r xs b') took cases) in
      let w0 = emit (with_buffer w b') (sent xs ∷ []) in
      (
        b',
        xs,
        ap (λ o. deref o >>= flush_buffer heap app kernel w) has
            ∙ rw (nonempty v some_held, made)
                (ap₂ (λ s t. written heap app s t b' w0) half (count ∙ int32-small (suc m) small)
                  ∙ written-half heap app m b' w0 ev source),
        v',
        back,
        same,
      )
    where
      some_held : contents b ≢ []
      some_held e = omega (arith, h, ap length e)

  -- In the state Disconnecting, on a connection that has its event source and a valid buffer, that
  -- the loop lists and that has no other task, a write that takes some of the bytes held, but not
  -- all, where the kernel never takes more than it is offered: the writing interest is taken back,
  -- the lambda of `close` runs and keeps the state, no task is left, and the rest of the bytes is
  -- held.
  pub half_close-stalls :
      (fuel : ℕ) (w : World) (b : CircularBuffer) (ev : EventSource) (n : ℕ)
      → w.conn.buffer_out ≡ some b
      → IsValid b
      → w.conn.event_source ≡ some ev
      → w.conn.state ≡ disconnecting
      → w.listed ≡ true
      → w.task_queue ≡ []
      → kernel (contents b) ≡ some n
      → 0 < n
      → n < length (contents b)
      → (w' : World) × ((handle_write heap app kernel w >>= run_tasks heap app (suc (suc fuel)))
          ≡ ok (w', true))
        × (w'.conn.state ≡ disconnecting)
        × (w'.conn.event_source ≡ some (EventSource.disable_writing ev).0)
        × (held_bytes w'.conn.buffer_out ≡ drop n (contents b))
        × (drop n (contents b) ≢ [])
  half_close-stalls fuel w b ev zero has v source half listed quiet took p h =
      absurd (omega (arith, p))
  half_close-stalls fuel w b ev (suc m) has v source half listed quiet took p h =
      let (b', xs, done, v', back, same) =
        handle_write-disconnecting w b ev m has v source half took (omega (arith, h)) small in
      let w0 = emit (with_buffer w b') (sent xs ∷ []) in
      let w1 = with_source w0 (EventSource.disable_writing ev) in
      let rest = cut (suc m) (contents b) h in
      (
        with_state w1 disconnecting,
        rw done (
            close-holding heap app fuel w1 b' refl (nonempty v' (λ e. rest (sym back ∙ e))) listed
              quiet),
        refl,
        refl,
        back,
        rest,
      )
    where
      small : suc m < 2 ^ 31
      small =
          omega (arith, h, length-contents b, (valid-Layout v).len_le, (valid-Layout v).cap_small)
