-- ===== src/Connection/Enqueue.antt =====
-- Connection::do_write: the bytes of a write go to the end of the stream.
use mutiplex.Base.{
  ℕ, ◌^◌, ◌≤◌, ◌≡◌, ◌≢◌, refl, sym, ap, ◌∙◌, Result, ok, ◌>>=◌, List, ◌++◌, append_assoc, length,
  take-of_length_le, Option, none, some, arith,
}
use mutiplex.Base.Memory.{Bytes, Allocator}
use mutiplex.CircularBuffer
use mutiplex.CircularBuffer.{CircularBuffer}
use mutiplex.CircularBuffer.Invariant.{IsValid, contents}
use mutiplex.CircularBuffer.Fifo.{Roomy, put-appends}
use mutiplex.CircularBuffer.Hollow.{put-new}
use mutiplex.EventSource
use mutiplex.EventSource.{EventSource}
use mutiplex.Connection.Context.{
  State, new_state, receiving, disconnecting, closed, Callback, Request, World, deref, with_source,
  with_buffer,
}
use mutiplex.Connection.{do_write, do_write_open, do_write_at, out_buffer}
use mutiplex.Connection.Frame.{Frame}
use mutiplex.Connection.Stream.{sent_bytes, held_bytes, stream, with_source-Keeps}

-- An outcome whose buffer is valid, with `xs` at its end and at that of the stream; the state is as
-- before, with what `Frame` names, and the connection has an event source.
abbrev pub Appends : World → Bytes → Result World → Type 0
Appends w xs r =
    (w' : World) × (b' : CircularBuffer) × (r ≡ ok w')
    × (w'.conn.buffer_out ≡ some b')
    × IsValid b'
    × (stream w' ≡ stream w ++ xs)
    × (w'.conn.state ≡ w.conn.state)
    × Frame w w'
    × ((ev : EventSource) × (w'.conn.event_source ≡ some ev))
    × (contents b' ≡ held_bytes w.conn.buffer_out ++ xs)

-- Room for `n` more bytes in the buffer that do_write puts into, if there is none yet a new one.
abbrev pub RoomFor : Option CircularBuffer → ℕ → Type 0
RoomFor none n = n ≤ 2 ^ 31
RoomFor (some b) n = IsValid b × Roomy b n

module _ (heap : Allocator) (app : Callback → List Request) where
  put-out :
      (o : Option CircularBuffer) (xs : Bytes)
      → RoomFor o (length xs)
      → (b' : CircularBuffer) × (CircularBuffer.put heap
            (out_buffer heap o (length xs))
            xs
            (length xs)
          ≡ ok b')
        × IsValid b'
        × (contents b' ≡ held_bytes o ++ xs)
  put-out none xs room = put-new heap xs room
  put-out (some b) xs (v, roomy) =
      let (b', e, v', same, _) = put-appends heap xs (length xs) v (omega arith) roomy in
      (
        b',
        e,
        v',
        same ∙ ap (λ back. contents b ++ back) ((take-of_length_le (length xs) xs (omega arith))),
      )

  do_write_open-Streams :
      (w : World) (ev : EventSource) (xs : Bytes)
      → w.conn.event_source ≡ some ev
      → RoomFor w.conn.buffer_out (length xs)
      → Appends w xs (do_write_open heap app w xs (length xs))
  unfolding do_write_open
  do_write_open-Streams w ev xs e room =
      let (b', made, v', same) = put-out w.conn.buffer_out xs room in
      let w0 = with_buffer w b' in
      (
        with_source w0 (EventSource.enable_writing ev),
        b',
        rw made (ap (λ o. deref o >>= λ ev. ok (with_source w0 (EventSource.enable_writing ev))) e),
        refl,
        v',
        ap (λ front. front ++ contents b') (with_source-Keeps w0 (EventSource.enable_writing ev))
            ∙ ap (◌++◌ (sent_bytes w.events)) same
            ∙ sym (append_assoc (sent_bytes w.events) (held_bytes w.conn.buffer_out) xs),
        refl,
        record {
          received = refl;
          listed = refl;
          held = refl;
          destroyed = refl;
          queue = refl;
          reads = refl;
        },
        ((EventSource.enable_writing ev).0, refl),
        same,
      )

  pub do_write-at :
      (s : State) (w : World) (ev : EventSource) (xs : Bytes)
      → s ≢ closed
      → w.conn.event_source ≡ some ev
      → RoomFor w.conn.buffer_out (length xs)
      → Appends w xs (do_write_at heap app s w xs (length xs))
  unfolding do_write_at
  do_write-at closed w ev xs open_ e room = absurd (open_ refl)
  do_write-at new_state w ev xs open_ e room = do_write_open-Streams w ev xs e room
  do_write-at receiving w ev xs open_ e room = do_write_open-Streams w ev xs e room
  do_write-at disconnecting w ev xs open_ e room = do_write_open-Streams w ev xs e room

  -- A write that runs on a connection that is not closed and has its event source, and whose bytes
  -- fit into a new buffer, or into the valid buffer there is, as it is, or grown to at most 2^31 bytes
  -- where it is not full with `in_` at index 0: do_write returns, the buffer is valid, and its contents
  -- and the stream of bytes sent and held have got exactly the written bytes at their ends; the event
  -- source is still there, and the state, the queue, and whether the connection is listed, held and
  -- destroyed are as before.
  pub do_write-stream :
      (w : World) (ev : EventSource) (xs : Bytes)
      → w.conn.state ≢ closed
      → w.conn.event_source ≡ some ev
      → RoomFor w.conn.buffer_out (length xs)
      → Appends w xs (do_write heap app w xs (length xs))
  unfolding do_write
  do_write-stream w ev xs = do_write-at w.conn.state w ev xs
