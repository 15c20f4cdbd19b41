-- ===== src/Connection/Farewell/Sending.antt =====
-- The write event of a connection that is to end when its bytes are sent, and the task behind it.
use native.Mathlib.Decide.{dec_lt}
use mutiplex.Base.{
  length-nil, ℕ, zero, suc, ◌⊎◌, inl, inr, ◌^◌, ◌≤◌, ◌<◌, ◌≡◌, refl, sym, ap, ◌∙◌, true, false, ok,
  ◌>>=◌, List, [], ◌∷◌, ◌++◌, append-nil, length, length-drop, drop, Option, none, some, arith,
}
use mutiplex.Base.Memory.{Bytes, Allocator}
use mutiplex.CircularBuffer.Invariant.{contents, empty_iff}
use mutiplex.EventSource
use mutiplex.EventSource.{EventSource}
use mutiplex.Connection.Context.{
  post, receiving, disconnecting, closed, Callback, closed_cb, Request, write_bytes, close_it,
  write_raw, World, emit, with_buffer, with_source, sent,
}
use mutiplex.Connection.{perform, close, has_bytes_to_write, handle_write}
use mutiplex.Connection.Tasks.{run_tasks, destroy}
use mutiplex.Connection.Stream.{
  sent_bytes, sent_bytes-quiet, held_bytes, stream, sent_first, with_source-Keeps,
}
use mutiplex.Connection.Requests.{perform-write}
use mutiplex.Connection.HalfClose.{half_close-stalls, handle_write-disconnecting}
use mutiplex.Connection.Steady.Release.{destroy-sent}
use mutiplex.Connection.Farewell.{
  IsIdle, Leaves, ended, sent_bytes-notice, run_farewell, close-empty,
}

-- What is left when the kernel has taken `n` of the bytes `xs`, with `before` sent already:
-- nothing, and the connection is gone; or the rest, for which epoll is not asked any more.
abbrev pub Parts : ℕ → Bytes → Bytes → World → World → Type 0
Parts n xs before w' w'' =
    (n ≡ length xs)
      × (w''.conn.state ≡ closed)
      × (w''.listed ≡ false)
      × (w''.destroyed ≡ true)
      × (sent_bytes w''.events ≡ before ++ xs)
    ⊎ (n < length xs)
      × (w''.conn.state ≡ disconnecting)
      × (held_bytes w''.conn.buffer_out ≡ drop n xs)
      × ((ev : EventSource) × (w'.conn.event_source ≡ some ev)
          × (w''.conn.event_source ≡ some (EventSource.disable_writing ev).0))

module _ (heap : Allocator) (app : Callback → List Request) (kernel : Bytes → Option ℕ)
    (honest : (xs : Bytes) (n : ℕ) → kernel xs ≡ some n → n ≤ length xs) where
  Leaves-whole :
      (fuel : ℕ) (w w1 : World) (xs : Bytes) (m : ℕ)
      → Leaves (stream w) xs w1
      → app closed_cb ≡ []
      → kernel xs ≡ some (suc m)
      → suc m ≡ length xs
      → suc m < 2 ^ 31
      → (w2 : World) × ((handle_write heap app kernel w1 >>= run_tasks heap app (suc (suc fuel)))
          ≡ ok (w2, true))
        × Parts (suc m) xs (stream w) w1 w2
  unfolding has_bytes_to_write destroy
  Leaves-whole fuel w w1 xs m l asked took whole small =
      let (b', ys, done, v', back, same) =
        handle_write-disconnecting heap app kernel honest w1 l.buffer l.event_source m l.has l.valid
          l.source l.half (ap kernel l.held ∙ took) (omega (arith, whole, ap length l.held))
          small in
      let bare : contents b' ≡ [] = length-nil (contents b') (
        omega (
          arith,
          ap length back,
          length-drop (suc m) (contents l.buffer),
          whole,
          ap length l.held,
        )) in
      let u = emit (with_buffer w1 b') (sent ys ∷ []) in
      let w2 = with_source u (EventSource.disable_writing l.event_source) in
      (
        destroy (record (ended w2.conn.closed_callback w2) { task_queue = [] }),
        ap (λ r. r >>= run_tasks heap app (suc (suc fuel))) done
            ∙ close-empty heap app fuel w2 (rw ((empty_iff v').1 bare) refl) asked (record {
              listed = l.idle.listed;
              unheld = l.idle.unheld;
              alive = l.idle.alive;
              quiet = l.idle.quiet;
            }),
        inl (
          whole,
          refl,
          refl,
          refl,
          destroy-sent (record (ended w2.conn.closed_callback w2) { task_queue = [] })
              ∙ sent_bytes-quiet w2.events _ (sent_bytes-notice w2.conn.closed_callback)
              ∙ with_source-Keeps u (EventSource.disable_writing l.event_source)
              ∙ sym (append-nil (sent_bytes u.events))
              ∙ ap (λ zs. sent_bytes u.events ++ zs) (sym bare)
              ∙ sent_first heap app kernel honest w1.events ys (contents b') (contents l.buffer)
                  same
              ∙ ap (λ o. sent_bytes w1.events ++ held_bytes o) (sym l.has)
              ∙ l.grown,
        ),
      )

  Leaves-part :
      (fuel : ℕ) (w w1 : World) (xs : Bytes) (n : ℕ)
      → Leaves (stream w) xs w1
      → kernel xs ≡ some n
      → 0 < n
      → n < length xs
      → (w2 : World) × ((handle_write heap app kernel w1 >>= run_tasks heap app (suc (suc fuel)))
          ≡ ok (w2, true))
        × Parts n xs (stream w) w1 w2
  Leaves-part fuel w w1 xs n l took p part =
      let (w2, done, half, off, rest, _) =
        half_close-stalls heap app kernel honest fuel w1 l.buffer l.event_source n l.has l.valid
          l.source l.half l.idle.listed l.idle.quiet (ap kernel l.held ∙ took) p
          (omega (arith, part, ap length l.held)) in
      (w2, done, inr (part, half, rest ∙ ap (drop n) l.held, (l.event_source, l.source, off)))

  Leaves-Parts :
      (fuel : ℕ) (w w1 : World) (xs : Bytes) (m : ℕ)
      → Leaves (stream w) xs w1
      → app closed_cb ≡ []
      → kernel xs ≡ some (suc m)
      → suc m ≤ length xs
      → suc m < 2 ^ 31
      → (w2 : World) × ((handle_write heap app kernel w1 >>= run_tasks heap app (suc (suc fuel)))
          ≡ ok (w2, true))
        × Parts (suc m) xs (stream w) w1 w2
  Leaves-Parts fuel w w1 xs m l asked took most small = elim (dec_lt (suc m) (length xs)) [
    | yes part ↦ Leaves-part fuel w w1 xs (suc m) l took (omega arith) part
    | no all ↦ Leaves-whole fuel w w1 xs m l asked took (omega (arith, most, all)) small
  ]

  -- A callback that writes a block of 1 to 2^31 - 1 bytes and then calls close, on a receiving
  -- connection that has its event source and has written nothing yet, that its loop alone holds and
  -- lists and that has no other task, for an application whose closed callback asks for nothing: the
  -- two tasks run, and the bytes are in the buffer of a connection that is Disconnecting. Then one
  -- write event of which the kernel takes `n` bytes, at least one, with the task behind it: if these
  -- are all, then exactly they were sent, and the connection is closed, off its loop and destroyed;
  -- if not, the rest stays in the buffer of a Disconnecting connection that does not ask for writing.
  pub farewell-Parts :
      (fuel : ℕ) (w : World) (ev : EventSource) (xs : Bytes) (n : ℕ)
      → IsIdle w
      → w.conn.state ≡ receiving
      → w.conn.event_source ≡ some ev
      → w.conn.buffer_out ≡ none
      → app closed_cb ≡ []
      → length xs < 2 ^ 31
      → kernel xs ≡ some n
      → 0 < n
      → (w0 : World) × (perform heap app w (write_bytes xs ∷ close_it ∷ []) ≡ ok w0)
        × (w1 : World) × (run_tasks heap app (suc (suc (suc fuel))) w0 ≡ ok (w1, true))
        × Leaves (stream w) xs w1
        × (w2 : World) × ((handle_write heap app kernel w1 >>= run_tasks heap app (suc (suc fuel)))
            ≡ ok (w2, true))
        × Parts n xs (stream w) w1 w2
  unfolding perform close
  farewell-Parts fuel w ev xs zero idle open_ source bare asked small took p =
      absurd (omega (arith, p))
  farewell-Parts fuel w ev xs (suc m) idle open_ source bare asked small took p =
      let most = honest xs (suc m) took in
      let (b, same, made) =
        perform-write heap app w xs (close_it ∷ []) open_ (omega (arith, most)) small in
      let (w1, done, l) =
        run_farewell heap app fuel w ev b xs same (λ e. omega (arith, most, ap length e))
          (omega (arith, small)) idle open_ source bare in
      let (w2, ran, parts) =
        Leaves-Parts fuel w w1 xs m l asked took most (omega (arith, most, small)) in
      (close (post w (write_raw b)), made, w1, done, l, w2, ran, parts)
