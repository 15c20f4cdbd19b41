-- ===== src/Connection/Kept/Events.antt =====
-- Connection::handle_write, and EventSource::handle_events on the callbacks of a connection.
use mutiplex.Base.{
  ℕ, zero, suc, ◌≡◌, refl, inl, inr, Bool-cases, ok, ◌>>=◌, Always, List, [], ◌∷◌, Option, none,
  some, if◌then◌else◌,
}
use mutiplex.Base.Int.{ℤ, pos, negsuc}
use mutiplex.Base.Memory.{Bytes, Allocator}
use mutiplex.CircularBuffer
use mutiplex.CircularBuffer.{CircularBuffer}
use mutiplex.EventSource
use mutiplex.EventSource.{EventSource}
use mutiplex.EventSource.Dispatch.{handle_events-keeps}
use mutiplex.Connection.Context.{
  State, new_state, receiving, disconnecting, closed, Callback, error, Request, close_task,
  force_close_task, sent, World, deref, emit, with_source, with_buffer,
}
use mutiplex.Connection.{
  invoke, close, force_close, written, flush_buffer, handle_read, handle_write,
}
use mutiplex.Connection.Events.{on_event, callbacks, disable_source}
use mutiplex.Base.{Always-from}
use mutiplex.Connection.Kept.{
  Laws, Writes, Keeping, after, chain, change_source, invoke_kept, force_close_kept,
  handle_read_kept,
}

module _ {R : World → World → Type 0} (laws : Laws R) (heap : Allocator)
    (app : Callback → List Request) where
  open laws use {same, posts}

  written_open_kept :
      (b : CircularBuffer)
      → Keeping laws (λ w.
        if CircularBuffer.empty b
        then (deref w.conn.event_source >>= λ ev.
            ok (with_source w (EventSource.disable_writing ev)))
        else ok w)
  written_open_kept b w = elim (Bool-cases (CircularBuffer.empty b)) [
    | inl y ↦ rw y (change_source laws EventSource.disable_writing (λ w. w) same w)
    | inr n ↦ rw n (same w)
  ]

  written_kept :
      (s : State) (total : ℤ) (b : CircularBuffer) → Keeping laws (written heap app s total b)
  unfolding written force_close close
  written_kept s (negsuc n) b w =
      after laws (invoke heap app w.conn.error_callback error (force_close w))
        (posts w force_close_task)
        (invoke_kept laws heap app w.conn.error_callback error (force_close w))
  written_kept s (pos zero) b w = posts w force_close_task
  written_kept disconnecting (pos (suc n)) b w =
      change_source laws EventSource.disable_writing close (λ w. posts w close_task) w
  written_kept new_state (pos (suc n)) b w = written_open_kept b w
  written_kept receiving (pos (suc n)) b w = written_open_kept b w
  written_kept closed (pos (suc n)) b w = written_open_kept b w

  module _ (kernel : Bytes → Option ℕ) (writes : Writes R kernel) where
    flush_kept :
        (w : World) (b : CircularBuffer)
        → w.conn.buffer_out ≡ some b
        → Always (R w) (flush_buffer heap app kernel w b)
    unfolding flush_buffer
    flush_kept w b has = elim (Bool-cases (CircularBuffer.empty b)) [
      | inl y ↦ rw y tt
      | inr n ↦ rw n (
          Always-from (R w) (CircularBuffer.write_to_fd kernel b) _ (λ (total, xs, b') made.
            let u = emit (with_buffer w b') (sent xs ∷ []) in
            after laws (written heap app w.conn.state total b' u)
              (writes w b b' total xs has n made) (written_kept w.conn.state total b' u)))
    ]

    handle_write_kept : Keeping laws (handle_write heap app kernel)
    unfolding handle_write
    handle_write_kept w = at w.conn.buffer_out refl
      where
        at :
            (o : Option CircularBuffer)
            → w.conn.buffer_out ≡ o
            → Always (R w) (deref o >>= flush_buffer heap app kernel w)
        at none e = tt
        at (some b) e = flush_kept w b e

    -- Whatever events epoll reports.
    pub on_event_kept :
        (answer : Option Bytes) (ready : ℕ) → Keeping laws (on_event heap app answer kernel ready)
    unfolding on_event callbacks disable_source
    on_event_kept answer ready w =
        handle_events-keeps (Always (R w)) disable_source (callbacks heap app answer kernel) ready
          (ok w)
          (λ t h.
            chain laws w t (handle_read heap app answer) (handle_read_kept laws heap app answer) h)
          (λ t h. chain laws w t (handle_write heap app kernel) handle_write_kept h) tt
          (λ t h. chain laws w t (λ u. ok (force_close u)) (force_close_kept laws heap app) h)
          (λ t h.
            chain laws w t
              (λ u.
                deref u.conn.event_source >>= λ ev. ok (with_source u (EventSource.disable_all ev)))
              (change_source laws EventSource.disable_all (λ w. w) same) h)
          (same w)
