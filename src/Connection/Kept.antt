-- ===== src/Connection/Kept.antt =====
-- Relations between a connection and itself later on, kept by all that the library does for an event or
-- a call of the application: those that the few elementary changes keep.
pub mod Events
use mutiplex.Base.{
  ℕ, ◌≡◌, inl, inr, Bool, true, false, Bool-cases, Result, ok, ◌>>=◌, Always, Always-map,
  Always-bind, Always-after, length, List, [], ◌∷◌, Option, none, some,
}
use mutiplex.Base.Word.{int32}
use mutiplex.Base.Memory.{Bytes, Allocator, memcpy_int}
use mutiplex.ByteBuffer.Transfer.{filled, readable}
use mutiplex.ByteBuffer
use mutiplex.ByteBuffer.{ByteBuffer}
use mutiplex.CircularBuffer
use mutiplex.CircularBuffer.{CircularBuffer}
use mutiplex.EventSource
use mutiplex.EventSource.{EventSource, EpollCall}
use mutiplex.Connection.Context.{
  with_buffer, sent, Callback, error, read, Request, write_bytes, write_buffer, close_it,
  force_close_it, Task, close_task, force_close_task, write_raw, write_shared, called, World, deref,
  emit, post, with_source,
}
use mutiplex.Connection.{
  is_closed, write, write_shared_buffer, perform, invoke, close, force_close, after_read,
  handle_read,
}
use mutiplex.Base.Int.{ℤ, pos}

-- What has to be known of a relation: it is reflexive and transitive, and holds of a change of the
-- event source, a posted lambda, a callback that is invoked, and a new receive buffer of the loop.
pub record Laws (R : World → World → Type 0) : Type 0 where
  pub same : (w : World) → R w w
  pub trans : {w u v : World} → R w u → R u v → R w v
  pub changed : (w : World) (change : EventSource × List EpollCall) → R w (with_source w change)
  pub posts : (w : World) (t : Task) → R w (post w t)
  pub tells : (w : World) (cb : Callback) → R w (emit w (called cb ∷ []))
  pub fills : (w : World) (b : ByteBuffer) → R w (record w { recv_buffer = some b })

-- And of a write to the descriptor.
abbrev pub Writes : (World → World → Type 0) → (Bytes → Option ℕ) → Type 0
Writes R kernel =
    (w : World) (b b' : CircularBuffer) (total : ℤ) (xs : Bytes)
    → w.conn.buffer_out ≡ some b
    → CircularBuffer.empty b ≡ false
    → CircularBuffer.write_to_fd kernel b ≡ ok (total, xs, b')
    → R w (emit (with_buffer w b') (sent xs ∷ []))

module _ {R : World → World → Type 0} (laws : Laws R) where
  open laws use {same, trans, changed, posts, tells, fills}

  -- An operation that keeps the relation.
  abbrev pub Keeping : (World → Result World) → Type 0
  Keeping f = (w : World) → Always (R w) (f w)

  pub after : {w u : World} (r : Result World) → R w u → Always (R u) r → Always (R w) r
  after {w} {u} r a = Always-map (R u) (R w) r (λ v b. trans a b)

  -- Such operations one after the other.
  pub chain :
      (w : World) (r : Result World) (f : World → Result World)
      → Keeping f
      → Always (R w) r
      → Always (R w) (r >>= f)
  chain w r f keeping h =
      Always-bind (R w) r f
        (Always-map (R w) (λ u. Always (R w) (f u)) r (λ u a. after (f u) a (keeping u)) h)

  pub change_source :
      (change : EventSource → EventSource × List EpollCall) (g : World → World)
      → ((w : World) → R w (g w))
      → Keeping (λ w. deref w.conn.event_source >>= λ ev. ok (g (with_source w (change ev))))
  change_source change g keeping w =
      Always-after (R w) (deref w.conn.event_source) (λ ev. ok (g (with_source w (change ev))))
        (λ ev. trans (changed w (change ev)) (keeping (with_source w (change ev))))

  module _ (heap : Allocator) (app : Callback → List Request) where
    write_kept : (xs : Bytes) → Keeping (λ w. write heap app w xs)
    unfolding write
    write_kept xs w = elim (Bool-cases (is_closed w)) [
      | inl gone ↦ rw gone (same w)
      | inr open_ ↦
          rw open_
            (Always-after (R w) (filled heap xs (int32 (length xs))) _ (λ b. posts w (write_raw b)))
    ]

    pub perform_kept : (asked : List Request) → Keeping (λ w. perform heap app w asked)
    unfolding perform write_shared_buffer close force_close
    perform_kept [] w = same w
    perform_kept (write_bytes xs ∷ rest) w =
        chain w (write heap app w xs) (λ u. perform heap app u rest) (perform_kept rest)
          (write_kept xs w)
    perform_kept (write_buffer b ∷ rest) w = elim (Bool-cases (is_closed w)) [
      | inl gone ↦ rw gone (perform_kept rest w)
      | inr open_ ↦ rw open_ (
          after (perform heap app (post w (write_shared b)) rest) (posts w (write_shared b))
            (perform_kept rest (post w (write_shared b))))
    ]
    perform_kept (close_it ∷ rest) w =
        after (perform heap app (post w close_task) rest) (posts w close_task)
          (perform_kept rest (post w close_task))
    perform_kept (force_close_it ∷ rest) w =
        after (perform heap app (post w force_close_task) rest) (posts w force_close_task)
          (perform_kept rest (post w force_close_task))

    pub invoke_kept : (set : Bool) (cb : Callback) → Keeping (invoke heap app set cb)
    unfolding invoke
    invoke_kept false cb w = same w
    invoke_kept true cb w =
        let u = emit w (called cb ∷ []) in
        after (perform heap app u (app cb)) (tells w cb) (perform_kept (app cb) u)

    pub force_close_kept : Keeping (λ w. ok (force_close w))
    unfolding force_close
    force_close_kept w = posts w force_close_task

    refilled :
        (w : World) (b : ByteBuffer) (f : World → Result World)
        → Keeping f
        → Always (R w) (f (record w { recv_buffer = some b }))
    refilled w b f keeping =
        let u = record w { recv_buffer = some b } in after (f u) (fills w b) (keeping u)

    after_read_kept :
        (answer : Option Bytes) (b : ByteBuffer) → Keeping (after_read heap app answer b)
    unfolding after_read close force_close
    after_read_kept none b w =
        chain w (invoke heap app w.conn.error_callback error w) (λ u. ok (force_close u))
          force_close_kept (invoke_kept w.conn.error_callback error w)
    after_read_kept (some []) b w =
        change_source EventSource.disable_reading close (λ w. posts w close_task) w
    after_read_kept (some (x ∷ xs)) b w =
        Always-after (R w)
          (memcpy_int b.block (ByteBuffer.data_offset b) (x ∷ xs) (pos 0) (pos (length (x ∷ xs)))) _
          (λ block.
            Always-after (R w)
              (ByteBuffer.set_position (record b { block = block }) (pos (length (x ∷ xs)))) _
              (λ placed.
                let full = ByteBuffer.flip placed in
                refilled w full (invoke heap app w.conn.read_callback (read (readable full)))
                  (invoke_kept w.conn.read_callback (read (readable full)))))

    pub handle_read_kept : (answer : Option Bytes) → Keeping (handle_read heap app answer)
    unfolding handle_read
    handle_read_kept answer w = Always-after (R w) (deref w.recv_buffer) _ (λ b.
        Always-after (R w) (ByteBuffer.clear b) _ (λ cleared.
          refilled w cleared (after_read heap app answer cleared) (after_read_kept answer cleared)))
