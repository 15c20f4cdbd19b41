-- ===== src/Connection/Conversation.antt =====
-- An application that writes back what it reads, and a client that sends one message after the
-- other.
use mathlib.Core.Path.{subst}
use mutiplex.Base.{
  ℕ, suc, ◌^◌, ◌<◌, ◌≤◌, ◌≡◌, ◌≢◌, refl, sym, ap, ◌∙◌, true, false, ok, ◌>>=◌, List, [], ◌∷◌, ◌++◌,
  append-nil, append_assoc, length, Option, none, some, arith,
}
use mutiplex.Base.Memory.{Bytes, Allocator}
use mutiplex.ByteBuffer.{ByteBuffer}
use mutiplex.ByteBuffer.Invariant as Buffers
use mutiplex.CircularBuffer.{CircularBuffer, full}
use mutiplex.CircularBuffer.Invariant.{IsValid, contents}
use mutiplex.CircularBuffer.Hollow.{hollow-Roomy}
use mutiplex.EventSource
use mutiplex.Connection.Frame.{Frame, then-Frame}
use mutiplex.EventSource.{EventSource}
use mutiplex.Connection.Context.{Callback, Request, receiving, World}
use mutiplex.Connection.{handle_read}
use mutiplex.Connection.Tasks.{run_tasks}
use mutiplex.Connection.Stream.{sent_bytes, held_bytes, stream}
use mutiplex.Connection.Enqueue.{RoomFor}
use mutiplex.Connection.Echo.{Echoes, Holds, echo-stream}
use mutiplex.Connection.Emptying.{write_events, write_events-Empties}

-- A buffer out that holds nothing, if there is one.
abbrev pub Hollow : Option CircularBuffer → Type 0
Hollow none = Unit {0}
Hollow (some b) = IsValid b × (contents b ≡ [])

Hollow-held : (o : Option CircularBuffer) → Hollow o → held_bytes o ≡ []
Hollow-held none h = refl
Hollow-held (some b) (v, bare) = bare

-- It has room for any message that is not larger than what the largest ring can grow to.
Hollow-RoomFor : (o : Option CircularBuffer) (n : ℕ) → Hollow o → n ≤ 2 ^ 30 → RoomFor o n
Hollow-RoomFor none n h small = omega arith
Hollow-RoomFor (some b) n (v, bare) small = (v, hollow-Roomy n v bare small)

-- A connection that is read from, with a receive buffer of `c` bytes, nothing to send and no task
-- left.
pub record IsOpen (c : ℕ) (w : World) : Type 0 where
  pub buffer : ByteBuffer
  pub received : w.recv_buffer ≡ some buffer
  pub valid : Buffers.IsValid c buffer
  pub reads : w.conn.read_callback ≡ true
  pub state : w.conn.state ≡ receiving
  pub event_source : EventSource
  pub source : w.conn.event_source ≡ some event_source
  pub listed : w.listed ≡ true
  pub alive : w.destroyed ≡ false
  pub quiet : w.task_queue ≡ []
  pub hollow : Hollow w.conn.buffer_out

-- Messages that a read takes whole.
abbrev pub Messages : ℕ → List Bytes → Type 0
Messages c [] = Unit {0}
Messages c (m ∷ ms) = (m ≢ []) × (length m ≤ c) × Messages c ms

unfoldable pub joined : List Bytes → Bytes
joined [] = []
joined (m ∷ ms) = m ++ joined ms

module _ (heap : Allocator) (app : Callback → List Request) (kernel : Bytes → Option ℕ) where
  -- For each message: it is read, the tasks run, and there are as many write events as it takes, no
  -- more than its bytes, until exactly its bytes have been sent as well.
  pub data Talk : World → List Bytes → World → Type 0 where
    silence : {w : World} → Talk w [] w
    exchange :
        {w w' w'' w''' : World} {m : Bytes} {ms : List Bytes} (k : ℕ)
        → (handle_read heap app (some m) w >>= run_tasks heap app 2) ≡ ok (w', true)
        → k ≤ length m
        → write_events heap app kernel k w' ≡ ok w''
        → sent_bytes w''.events ≡ sent_bytes w.events ++ m
        → Talk w'' ms w'''
        → Talk w (m ∷ ms) w'''

module _ (heap : Allocator) (app : Callback → List Request) (kernel : Bytes → Option ℕ)
    (honest : (xs : Bytes) (n : ℕ) → kernel xs ≡ some n → n ≤ length xs)
    (greedy : (xs : Bytes) → xs ≢ [] → (n : ℕ) × (kernel xs ≡ some (suc n))) (c : ℕ) where
  -- Once `xs` is stored, write events send it, and then the connection is as it was.
  pub settles :
      (w w' : World) (xs : Bytes)
      → IsOpen c w
      → xs ≢ []
      → length xs < 2 ^ 31
      → w'.conn.state ≡ receiving
      → stream w' ≡ stream w ++ xs
      → Holds w xs w'
      → Frame w w'
      → (k : ℕ) × (k ≤ length xs)
        × (w'' : World) × (write_events heap app kernel k w' ≡ ok w'')
        × (sent_bytes w''.events ≡ sent_bytes w.events ++ xs)
        × IsOpen c w''
  settles w w' xs o some_bytes small open_ grown ((b, has, v, held), (ev, watched)) frame =
      let none_held = Hollow-held w.conn.buffer_out o.hollow in
      let all_held : contents b ≡ xs = held ∙ ap (λ ys. ys ++ xs) none_held in
      let (k, few, (w'', emptied, sent, bare, state, off, still)) =
        write_events-Empties heap app kernel honest greedy w' b ev has v watched open_
          (λ e. some_bytes (sym all_held ∙ e)) (omega (arith, small, ap length all_held)) in
      let kept = then-Frame frame still in
      (
        k,
        omega (arith, few, ap length all_held),
        w'',
        emptied,
        sent
            ∙ grown
            ∙ ap (λ ys. (sent_bytes w.events ++ ys) ++ xs) none_held
            ∙ ap (λ ys. ys ++ xs) (append-nil (sent_bytes w.events)),
        record {
          buffer = o.buffer;
          received = kept.received ∙ o.received;
          valid = o.valid;
          reads = kept.reads ∙ o.reads;
          state = state;
          event_source = (EventSource.disable_writing ev).0;
          source = off;
          listed = kept.listed ∙ o.listed;
          alive = kept.destroyed ∙ o.alive;
          quiet = kept.queue ∙ o.quiet;
          hollow = subst Hollow (sym bare.1) (bare.2, bare.3);
        },
      )

module _ (heap : Allocator) (app : Callback → List Request) (kernel : Bytes → Option ℕ)
    (honest : (xs : Bytes) (n : ℕ) → kernel xs ≡ some n → n ≤ length xs)
    (greedy : (xs : Bytes) → xs ≢ [] → (n : ℕ) × (kernel xs ≡ some (suc n))) (echoes : Echoes app)
    (c : ℕ) (small : c ≤ 2 ^ 30) where
  -- The reply to one message.
  reply :
      (w : World) (x : ℕ) (xs : Bytes)
      → IsOpen c w
      → length (x ∷ xs) ≤ c
      → (w' : World) × ((handle_read heap app (some (x ∷ xs)) w >>= run_tasks heap app 2)
          ≡ ok (w', true))
        × (k : ℕ) × (k ≤ length (x ∷ xs))
        × (w'' : World) × (write_events heap app kernel k w' ≡ ok w'')
        × (sent_bytes w''.events ≡ sent_bytes w.events ++ x ∷ xs)
        × IsOpen c w''
  reply w x xs o fits =
      let (w', done, open_, grown, holds, full, valid, frame) =
        echo-stream heap app 0 w o.event_source o.buffer x xs echoes o.received o.valid fits o.reads
          o.state o.source o.listed o.alive o.quiet
          (Hollow-RoomFor w.conn.buffer_out (length (x ∷ xs)) o.hollow
            (omega (arith, fits, small))) in
      let u = record w { recv_buffer = some full } in
      let here : IsOpen c u = record {
        buffer = full;
        received = refl;
        valid = valid;
        reads = o.reads;
        state = o.state;
        event_source = o.event_source;
        source = o.source;
        listed = o.listed;
        alive = o.alive;
        quiet = o.quiet;
        hollow = o.hollow;
      } in
      let (k, few, w'', emptied, sent, o') =
        settles heap app kernel honest greedy c u w' (x ∷ xs) here (λ e. omega (arith, ap length e))
          (omega (arith, fits, small)) open_ grown holds frame in
      (w', done, k, few, w'', emptied, sent, o')

  -- A kernel that takes at least one byte of every write, and no more than it is offered; an
  -- application that writes back what it reads; a connection that is read from, with a receive buffer
  -- of `c` bytes, at most 2^30, nothing to send and no task left; and any number of messages of 1 to
  -- `c` bytes, one after the other. Each one
  -- is read, the tasks run, and after a number of write events that is at most that of its bytes the
  -- connection is again as described; and the bytes sent in all are exactly the messages, in order.
  pub talks_through :
      (ms : List Bytes) (w : World)
      → IsOpen c w
      → Messages c ms
      → (w' : World) × Talk heap app kernel w ms w'
        × IsOpen c w'
        × (sent_bytes w'.events ≡ sent_bytes w.events ++ joined ms)
  unfolding joined
  talks_through [] w o sized = (w, silence, o, sym (append-nil (sent_bytes w.events)))
  talks_through ([] ∷ ms) w o (some_bytes, fits, sized) = absurd (some_bytes refl)
  talks_through ((x ∷ xs) ∷ ms) w o (some_bytes, fits, sized) =
      let (w', done, k, few, w'', emptied, sent, o') = reply w x xs o fits in
      let (end, talk, o'', all) = talks_through ms w'' o' sized in
      (
        end,
        exchange k done few emptied sent talk,
        o'',
        all
            ∙ ap (λ ys. ys ++ joined ms) sent
            ∙ append_assoc (sent_bytes w.events) (x ∷ xs) (joined ms),
      )
