-- ===== src/Connection/Emptying.antt =====
-- Write events, one after the other, until a connection holds no byte.
use mathlib.Core.Path.{subst}
use mutiplex.Base.{
  length-nil, ℕ, zero, suc, ◌^◌, ◌≤◌, ◌<◌, ◌≡◌, ◌≢◌, refl, sym, ap, ap₂, ◌∙◌, inl, inr, false,
  Bool-cases, Result, ok, ◌>>=◌, List, [], ◌∷◌, ◌++◌, append-nil, length, length-drop, Option, some,
  arith, if◌then◌else◌,
}
use mutiplex.Base.Memory.{Bytes, Allocator}
use mutiplex.CircularBuffer
use mutiplex.CircularBuffer.{CircularBuffer}
use mutiplex.CircularBuffer.Invariant.{IsValid, contents, empty_iff}
use mutiplex.CircularBuffer.Flush.{write_to_fd-refines, Flushed}
use mutiplex.EventSource
use mutiplex.EventSource.{EventSource}
use mutiplex.Connection.Context.{
  receiving, Callback, Request, World, deref, emit, with_buffer, with_source, sent,
}
use mutiplex.Connection.{written, flush_buffer, handle_write}
use mutiplex.Connection.Frame.{Frame}
use mutiplex.Connection.Stream.{
  sent_bytes, held_bytes, stream, with_source-Keeps, nonempty, sent_first,
}
use mutiplex.Connection.HalfClose.{counted}
use mutiplex.Connection.Requests.{int32-small}

module _ (heap : Allocator) (app : Callback → List Request) (kernel : Bytes → Option ℕ) where
  -- A number of write events.
  pub write_events : ℕ → World → Result World
  write_events zero w = ok w
  write_events (suc n) w = handle_write heap app kernel w >>= write_events n

module _ (heap : Allocator) (app : Callback → List Request) (kernel : Bytes → Option ℕ)
    (honest : (xs : Bytes) (n : ℕ) → kernel xs ≡ some n → n ≤ length xs)
    (greedy : (xs : Bytes) → xs ≢ [] → (n : ℕ) × (kernel xs ≡ some (suc n))) where
  -- A write event of a receiving connection, but for what follows once the buffer is empty.
  flushed :
      (w : World) (b : CircularBuffer)
      → w.conn.buffer_out ≡ some b
      → IsValid b
      → w.conn.state ≡ receiving
      → contents b ≢ []
      → length (contents b) < 2 ^ 31
      → (b' : CircularBuffer) × (xs : Bytes) × (handle_write heap app kernel w ≡ (
          let u = emit (with_buffer w b') (sent xs ∷ []) in
          if CircularBuffer.empty b'
          then (deref w.conn.event_source >>= λ ev.
              ok (with_source u (EventSource.disable_writing ev)))
          else ok u))
        × IsValid b'
        × (xs ++ contents b' ≡ contents b)
        × (length (contents b') < length (contents b))
  unfolding handle_write flush_buffer written
  flushed w b has v open_ some_held small =
      let (r, xs, b', made, (v', same, cases)) = write_to_fd-refines kernel honest v some_held in
      let (n, took) = greedy (contents b) some_held in
      let (count, back) = counted (subst (Flushed b r xs b') took cases) in
      let u = emit (with_buffer w b') (sent xs ∷ []) in
      (
        b',
        xs,
        ap (λ o. deref o >>= flush_buffer heap app kernel w) has
            ∙ rw (nonempty v some_held, made)
                (ap₂ (λ s t. written heap app s t b' u) open_
                  (count
                    ∙ int32-small (suc n)
                        (omega (arith, honest (contents b) (suc n) took, small)))),
        v',
        same,
        omega (
          arith,
          honest (contents b) (suc n) took,
          length-drop (suc n) (contents b),
          ap length back,
        ),
      )

  -- The stream is as it was, after a write event that sends `xs` and leaves `b'`.
  flushed_stream :
      (w : World) (b b' : CircularBuffer) (xs : Bytes)
      → w.conn.buffer_out ≡ some b
      → xs ++ contents b' ≡ contents b
      → stream (emit (with_buffer w b') (sent xs ∷ [])) ≡ stream w
  flushed_stream w b b' xs has same =
      sent_first heap app kernel honest w.events xs (contents b') (contents b) same
      ∙ ap (λ o. sent_bytes w.events ++ held_bytes o) (sym has)

  -- All is sent: the stream of `w` has gone out, the valid buffer is empty, and the writing interest is
  -- taken back; else all is as it was.
  abbrev pub Empties : World → EventSource → Result World → Type 0
  Empties w ev r =
      (w' : World) × (r ≡ ok w')
      × (sent_bytes w'.events ≡ stream w)
      × ((b : CircularBuffer) × (w'.conn.buffer_out ≡ some b) × IsValid b × (contents b ≡ []))
      × (w'.conn.state ≡ receiving)
      × (w'.conn.event_source ≡ some (EventSource.disable_writing ev).0)
      × Frame w w'

  empties :
      (m : ℕ) (w : World) (b : CircularBuffer) (ev : EventSource)
      → length (contents b) ≤ m
      → w.conn.buffer_out ≡ some b
      → IsValid b
      → w.conn.event_source ≡ some ev
      → w.conn.state ≡ receiving
      → contents b ≢ []
      → length (contents b) < 2 ^ 31
      → (k : ℕ) × (k ≤ m) × Empties w ev (write_events heap app kernel k w)
  unfolding write_events
  empties zero w b ev bound has v source open_ some_held small =
      absurd (some_held (length-nil (contents b) bound))
  empties (suc m) w b ev bound has v source open_ some_held small =
      let (b', xs, made, v', same, shorter) = flushed w b has v open_ some_held small in
      let u = emit (with_buffer w b') (sent xs ∷ []) in
      let on = flushed_stream w b b' xs has same in
      elim (Bool-cases (CircularBuffer.empty b')) [
        | inl y ↦
            let bare : contents b' ≡ [] = (empty_iff v').0 y in
            (
              1,
              omega arith,
              (
                with_source u (EventSource.disable_writing ev),
                ap (λ r. r >>= write_events heap app kernel 0)
                    (made
                      ∙ ap (λ t. if t then switched u w.conn.event_source else ok u) y
                      ∙ ap (switched u) source),
                with_source-Keeps u (EventSource.disable_writing ev)
                    ∙ sym (append-nil (sent_bytes u.events))
                    ∙ ap (λ h. sent_bytes u.events ++ h) (sym bare)
                    ∙ on,
                (b', refl, v', bare),
                open_,
                refl,
                record {
                  received = refl;
                  listed = refl;
                  held = refl;
                  destroyed = refl;
                  queue = refl;
                  reads = refl;
                },
              ),
            )
        | inr n ↦
            let (k, few, (w', done, all, bare, state, off, frame)) =
              empties m u b' ev (omega (arith, bound, shorter)) refl v' source open_
                (some_left v' n) (omega (arith, small, shorter)) in
            (
              suc k,
              omega (arith, few),
              (
                w',
                ap (λ r. r >>= write_events heap app kernel k)
                      (made ∙ ap (λ t. if t then switched u w.conn.event_source else ok u) n)
                    ∙ done,
                all ∙ on,
                bare,
                state,
                off,
                record {
                  received = frame.received;
                  listed = frame.listed;
                  held = frame.held;
                  destroyed = frame.destroyed;
                  queue = frame.queue;
                  reads = frame.reads;
                },
              ),
            )
      ]
    where
      switched : World → Option EventSource → Result World
      switched u o = deref o >>= λ ev. ok (with_source u (EventSource.disable_writing ev))

      some_left :
          {b : CircularBuffer} → IsValid b → CircularBuffer.empty b ≡ false → contents b ≢ []
      some_left v n e = let y = (empty_iff v).1 e in cc

  -- A receiving connection that holds bytes, fewer than 2^31, in a valid buffer, with a kernel that
  -- takes at least one byte of every write, and no more than it is offered: after a number of write
  -- events that is at most that of the bytes held, all bytes are sent, in their order, the buffer
  -- is valid and holds none, the writing interest is taken back, and what `Frame` names is as
  -- before.
  pub write_events-Empties :
      (w : World) (b : CircularBuffer) (ev : EventSource)
      → w.conn.buffer_out ≡ some b
      → IsValid b
      → w.conn.event_source ≡ some ev
      → w.conn.state ≡ receiving
      → contents b ≢ []
      → length (contents b) < 2 ^ 31
      → (k : ℕ) × (k ≤ length (contents b)) × Empties w ev (write_events heap app kernel k w)
  write_events-Empties w b ev = empties (length (contents b)) w b ev (omega arith)
