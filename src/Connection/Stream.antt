-- ===== src/Connection/Stream.antt =====
-- The bytes that a connection has been given to send: those already sent, then those still held.
use mutiplex.Base.{
  ℕ, ◌≤◌, ◌≡◌, ◌≢◌, refl, sym, ap, ap₂, ◌∙◌, inl, inr, Bool, true, false, zero, suc, Result, ok,
  ◌>>=◌, List, [], ◌∷◌, ◌++◌, append-nil, append_assoc, length, Option, none, some, Bool-cases,
  if◌then◌else◌,
}
use mutiplex.Base.Int.{ℤ, pos, negsuc}
use mutiplex.Base.Memory.{Bytes, Allocator}
use mutiplex.CircularBuffer
use mutiplex.CircularBuffer.{CircularBuffer}
use mutiplex.CircularBuffer.Invariant.{IsValid, contents, empty_iff}
use mutiplex.CircularBuffer.Flush.{write_to_fd-refines}
use mutiplex.EventSource
use mutiplex.EventSource.{EventSource, EpollCall}
use mutiplex.Connection.Context.{
  State, new_state, receiving, disconnecting, closed, Callback, error, Request, Event, epoll, sent,
  called, fd_closed, World, deref, emit, epoll_events, with_source, with_buffer,
}
use mutiplex.Connection.{close, force_close, written, flush_buffer, handle_write, invoke}
use mutiplex.Connection.Requests.{Sized, posted, invoke-Notifies}

unfoldable pub sent_bytes : List Event → Bytes
sent_bytes [] = []
sent_bytes (sent xs ∷ es) = xs ++ sent_bytes es
sent_bytes (epoll call ∷ es) = sent_bytes es
sent_bytes (called cb ∷ es) = sent_bytes es
sent_bytes (fd_closed fd ∷ es) = sent_bytes es

abbrev pub held_bytes : Option CircularBuffer → Bytes
held_bytes none = []
held_bytes (some b) = contents b

abbrev pub stream : World → Bytes
stream w = sent_bytes w.events ++ held_bytes w.conn.buffer_out

pub sent_bytes-append :
    (es fs : List Event) → sent_bytes (es ++ fs) ≡ sent_bytes es ++ sent_bytes fs
unfolding sent_bytes
sent_bytes-append [] fs = refl
sent_bytes-append (sent xs ∷ es) fs =
    ap (◌++◌ xs) (sent_bytes-append es fs) ∙ sym (append_assoc xs (sent_bytes es) (sent_bytes fs))
sent_bytes-append (epoll call ∷ es) fs = sent_bytes-append es fs
sent_bytes-append (called cb ∷ es) fs = sent_bytes-append es fs
sent_bytes-append (fd_closed fd ∷ es) fs = sent_bytes-append es fs

pub sent_bytes-epoll_events : (calls : List EpollCall) → sent_bytes (epoll_events calls) ≡ []
unfolding sent_bytes
sent_bytes-epoll_events [] = refl
sent_bytes-epoll_events (call ∷ calls) = sent_bytes-epoll_events calls

-- Events that send nothing leave the bytes sent as they were.
pub sent_bytes-quiet :
    (es fs : List Event) → sent_bytes fs ≡ [] → sent_bytes (es ++ fs) ≡ sent_bytes es
sent_bytes-quiet es fs e =
    sent_bytes-append es fs ∙ ap (◌++◌ (sent_bytes es)) e ∙ append-nil (sent_bytes es)

pub sent_bytes-called :
    (es : List Event) (cb : Callback) → sent_bytes (es ++ called cb ∷ []) ≡ sent_bytes es
unfolding sent_bytes
sent_bytes-called es cb = sent_bytes-quiet es (called cb ∷ []) refl

-- A step that returns, and sends nothing and drops nothing.
abbrev Keeps : World → Result World → Type 0
Keeps w r =
    (w' : World) × (r ≡ ok w')
    × (sent_bytes w'.events ≡ sent_bytes w.events)
    × (w'.conn.buffer_out ≡ w.conn.buffer_out)

pub with_source-Keeps :
    (w : World) (change : EventSource × List EpollCall)
    → sent_bytes (with_source w change).events ≡ sent_bytes w.events
with_source-Keeps w (ev, calls) =
    sent_bytes-quiet w.events (epoll_events calls) (sent_bytes-epoll_events calls)

pub nonempty : {b : CircularBuffer} → IsValid b → contents b ≢ [] → CircularBuffer.empty b ≡ false
nonempty {b} v some_held = elim (Bool-cases (CircularBuffer.empty b)) [
  | inl e ↦ absurd (some_held ((empty_iff v).0 e))
  | inr e ↦ e
]

module _ (heap : Allocator) (app : Callback → List Request) where
  Keeps-deref :
      (w : World) (ev : EventSource) (f : EventSource → EventSource × List EpollCall)
      (g : World → World)
      → w.conn.event_source ≡ some ev
      → Keeps w (ok (g (with_source w (f ev))))
      → Keeps w (deref w.conn.event_source >>= λ ev. ok (g (with_source w (f ev))))
  Keeps-deref w ev f g e (w', made, s, b) =
      (w', ap (λ o. deref o >>= λ ev. ok (g (with_source w (f ev)))) e ∙ made, s, b)

  written-error :
      (w : World) (set : Bool)
      → Sized (app error)
      → Keeps w (invoke heap app set error (force_close w))
  unfolding force_close sent_bytes
  written-error w false sized =
      let (ts, made) = invoke-Notifies heap app false error (force_close w) sized in
      (posted (force_close w) ts, made, refl, refl)
  written-error w true sized =
      let (ts, made) = invoke-Notifies heap app true error (force_close w) sized in
      (
        posted (emit (force_close w) (called error ∷ [])) ts,
        made,
        sent_bytes-called w.events error,
        refl,
      )

  written-open :
      (b : CircularBuffer) (w : World) (ev : EventSource)
      → w.conn.event_source ≡ some ev
      → Keeps w (
          if CircularBuffer.empty b
          then (deref w.conn.event_source >>= λ ev.
              ok (with_source w (EventSource.disable_writing ev)))
          else ok w)
  written-open b w ev e = elim (Bool-cases (CircularBuffer.empty b)) [
    | inl y ↦ rw y (
        Keeps-deref w ev EventSource.disable_writing (λ w. w) e
          (_, refl, with_source-Keeps w (EventSource.disable_writing ev), refl))
    | inr n ↦ rw n (w, refl, refl, refl)
  ]

  written-Keeps :
      (s : State) (total : ℤ) (b : CircularBuffer) (w : World) (ev : EventSource)
      → w.conn.event_source ≡ some ev
      → Sized (app error)
      → Keeps w (written heap app s total b w)
  unfolding written force_close close
  written-Keeps s (negsuc n) b w ev e sized = written-error w w.conn.error_callback sized
  written-Keeps s (pos zero) b w ev e sized = (force_close w, refl, refl, refl)
  written-Keeps disconnecting (pos (suc n)) b w ev e sized =
      Keeps-deref w ev EventSource.disable_writing close e
        (_, refl, with_source-Keeps w (EventSource.disable_writing ev), refl)
  written-Keeps new_state (pos (suc n)) b w ev e sized = written-open b w ev e
  written-Keeps receiving (pos (suc n)) b w ev e sized = written-open b w ev e
  written-Keeps closed (pos (suc n)) b w ev e sized = written-open b w ev e

-- An outcome that holds a valid buffer and the same stream of bytes as before.
abbrev pub Streams : Bytes → Result World → Type 0
Streams before r =
    (w' : World) × (b' : CircularBuffer) × (r ≡ ok w')
    × (w'.conn.buffer_out ≡ some b')
    × IsValid b'
    × (stream w' ≡ before)

module _ (heap : Allocator) (app : Callback → List Request) (kernel : Bytes → Option ℕ)
    (honest : (xs : Bytes) (n : ℕ) → kernel xs ≡ some n → n ≤ length xs) where
  pub sent_first :
      (es : List Event) (xs ys zs : Bytes)
      → xs ++ ys ≡ zs
      → sent_bytes (es ++ sent xs ∷ []) ++ ys ≡ sent_bytes es ++ zs
  unfolding sent_bytes
  sent_first es xs ys zs same =
      ap (λ l. l ++ ys)
        (sent_bytes-append es (sent xs ∷ []) ∙ ap (◌++◌ (sent_bytes es)) (append-nil xs))
      ∙ append_assoc (sent_bytes es) xs ys
      ∙ ap (◌++◌ (sent_bytes es)) same

  flush-Streams :
      (w : World) (b : CircularBuffer) (ev : EventSource)
      → IsValid b
      → contents b ≢ []
      → w.conn.event_source ≡ some ev
      → Sized (app error)
      → Streams (sent_bytes w.events ++ contents b) (flush_buffer heap app kernel w b)
  unfolding flush_buffer
  flush-Streams w b ev v some_held e sized =
      let (r, xs, b', made, (v', same, cases)) = write_to_fd-refines kernel honest v some_held in
      let w0 = emit (with_buffer w b') (sent xs ∷ []) in
      let (w', done, s, kept) = written-Keeps heap app w.conn.state r b' w0 ev e sized in
      (
        w',
        b',
        rw (nonempty v some_held, made, done),
        kept,
        v',
        ap₂ (λ bs o. bs ++ held_bytes o) s kept
            ∙ sent_first w.events xs (contents b') (contents b) same,
      )

  -- A ready write event on a connection that has its event source and a valid buffer that holds
  -- bytes, where the answer to the error callback writes only blocks of 1 to 2^31 - 1 bytes:
  -- handle_write returns, in every state and for every honest answer of the kernel, leaves a valid
  -- buffer, and neither loses, repeats nor reorders a byte: the bytes sent so far, followed by
  -- those still held, are the ones they were.
  pub handle_write-stream :
      (w : World) (b : CircularBuffer) (ev : EventSource)
      → w.conn.buffer_out ≡ some b
      → IsValid b
      → contents b ≢ []
      → w.conn.event_source ≡ some ev
      → Sized (app error)
      → Streams (stream w) (handle_write heap app kernel w)
  unfolding handle_write
  handle_write-stream w b ev has v some_held e sized =
      let (w', b', done, kept, v', same) = flush-Streams w b ev v some_held e sized in
      (
        w',
        b',
        ap (λ o. deref o >>= flush_buffer heap app kernel w) has ∙ done,
        kept,
        v',
        same ∙ ap (λ o. sent_bytes w.events ++ held_bytes o) (sym has),
      )
