-- ===== src/Connector/Ping.antt =====
-- The client of the ping-pong benchmark (benchmark/mutiplex/pingpong/client.cpp): a session from its
-- connector's attempt to any number of answers; the count of its bytes is not modelled.
mod Tests
use mathlib.Core.Path.{subst}
use mutiplex.Base.{
  ℕ, suc, sym, ◌^◌, ◌<◌, ◌≤◌, ◌≡◌, ◌≢◌, refl, ap, ◌∙◌, true, false, ok, ◌>>=◌, List, [], ◌∷◌, ◌++◌,
  length, Option, none, some, arith,
}
use mutiplex.Base.Memory.{Bytes, Allocator}
use mutiplex.ByteBuffer.{ByteBuffer}
use mutiplex.ByteBuffer.Invariant.{IsValid}
use mutiplex.ByteBuffer.Transfer.{readable}
use mutiplex.EventSource.{has_ops, epollerr, epollout, epollin}
use mutiplex.EventSource.Fresh.{watching}
use mutiplex.InetAddress.{InetAddress}
use mutiplex.Connection
use mutiplex.Connection.Context.{
  Callback, established, closed_cb, error, read, Request, write_bytes, write_raw, World, emit, post,
  called,
}
use mutiplex.Connection.Tasks.{run_tasks}
use mutiplex.Connection.Stream.{sent_bytes}
use mutiplex.Connection.Opening.{started, on_new_connection-performs}
use mutiplex.Connection.Requests.{perform-write_only}
use mutiplex.Connection.Emptying.{write_events}
use mutiplex.Connection.Enqueue.{RoomFor}
use mutiplex.Connection.Echo.{run_posted}
use mutiplex.Connection.Conversation.{IsOpen, Messages, joined, Talk, settles, talks_through}
use mutiplex.Connector.{
  Connector, Life, ConnectAnswer, do_connect, new_connection, local_name, hand_over,
  with_connection,
}
use mutiplex.Connector.Attempt.{attempt, attempt_connects, woken}

-- on_connect_success and read_callback, with the block of the client.
abbrev pub ping : Bytes → Callback → List Request
ping block established = write_bytes block ∷ []
ping block (read xs) = write_bytes xs ∷ []
ping block closed_cb = []
ping block error = []

-- The established callback sets the read callback of the connection last.
abbrev pub set_up : World → World
set_up w = record w { conn = Connection.set_read_callback w.conn true }

module _ (heap : Allocator) (block : Bytes) (buffer : ByteBuffer) (c : Connector)
    (local : InetAddress) where
  -- The connection that is announced to the client.
  unfoldable announced : World
  announced =
      emit (started (new_connection (woken (some buffer) c) local)) (called established ∷ [])

  hand_over-announced :
      c.established_callback ≡ true
      → 0 < length block
      → length block < 2 ^ 31
      → (b : ByteBuffer) × (readable b ≡ block)
        × (hand_over heap (ping block) (woken (some buffer) c) local
            ≡ ok (with_connection (woken (some buffer) c) local (post announced (write_raw b))))
  unfolding hand_over announced new_connection Connection.new Connection.set_established_callback
      Connection.set_read_callback Connection.set_closed_callback
  hand_over-announced set p h =
      let first = new_connection (woken (some buffer) c) local in
      let (b, same, posted) = perform-write_only heap (ping block) announced block refl p h in
      (
        b,
        same,
        ap (λ r. r >>= λ w. ok (with_connection (woken (some buffer) c) local w))
            (on_new_connection-performs heap (ping block) first set ∙ posted),
      )

  announced-IsOpen : (size : ℕ) → IsValid size buffer → IsOpen size (set_up announced)
  unfolding announced new_connection Connection.set_read_callback Connection.new
      Connection.set_established_callback Connection.set_closed_callback
  announced-IsOpen size v = record {
    buffer = buffer;
    received = refl;
    valid = v;
    reads = refl;
    state = refl;
    event_source = watching c.fd epollin;
    source = refl;
    listed = refl;
    alive = refl;
    quiet = refl;
    hollow = tt;
  }

  announced-fresh :
      (sent_bytes (set_up announced).events ≡ []) × ((set_up announced).conn.buffer_out ≡ none)
  unfolding announced new_connection sent_bytes Connection.set_read_callback Connection.new
      Connection.set_established_callback Connection.set_closed_callback
  announced-fresh = (refl, refl)

module _ (heap : Allocator) (kernel : Bytes → Option ℕ)
    (honest : (xs : Bytes) (n : ℕ) → kernel xs ≡ some n → n ≤ length xs)
    (greedy : (xs : Bytes) → xs ≢ [] → (n : ℕ) × (kernel xs ≡ some (suc n))) where
  -- A connector whose established callback is set, to the client's, with a block of 1 to 2^31 - 1
  -- bytes, on a loop with a receive buffer of at most 2^30, and a kernel that takes at least one byte
  -- of every write, and no more than it is offered. ::connect does not fail at once, and the
  -- descriptor becomes writable without an error. Then the attempt makes a connection; once the
  -- established callback is done, the tasks run, and after write events, no more than the block has
  -- bytes, exactly the block is sent; and any number of answers that fit the receive buffer, of at
  -- least one byte, are each read, written back and sent whole, before the next: all bytes sent are
  -- the block, followed by the answers, in their order, and the connection is receiving, listed and
  -- alive, with nothing to send and no task left.
  pub ping-answers :
      (answer : ConnectAnswer) (ready : ℕ) (name : Option InetAddress) (c : Connector) (size : ℕ)
      (buffer : ByteBuffer) (block : Bytes) (ms : List Bytes)
      → do_connect answer ≡ true
      → has_ops ready epollerr ≡ false
      → has_ops ready epollout ≡ true
      → c.established_callback ≡ true
      → IsValid size buffer
      → size ≤ 2 ^ 30
      → 0 < length block
      → length block < 2 ^ 31
      → Messages size ms
      → let app = ping block in
        (life : Life) × (attempt heap app answer ready 0 name (some buffer) c ≡ ok life)
        × (w : World) × (life.connection ≡ some w)
        × (w1 : World) × (run_tasks heap app 2 (set_up w) ≡ ok (w1, true))
        × (k : ℕ) × (k ≤ length block)
        × (w2 : World) × (write_events heap app kernel k w1 ≡ ok w2)
        × (sent_bytes w2.events ≡ block)
        × (w3 : World) × Talk heap app kernel w2 ms w3
        × IsOpen size w3
        × (sent_bytes w3.events ≡ block ++ joined ms)
  ping-answers answer ready name c size buffer block ms starts f writes set v bounded p h sized =
      let app = ping block in
      let local = local_name name in
      let w0 = set_up (announced heap block buffer c local) in
      let here = announced-IsOpen heap block buffer c local size v in
      let (fresh, bare) = announced-fresh heap block buffer c local in
      let (b, same, handed) = hand_over-announced heap block buffer c local set p h in
      let (w1, ran, open_, grown, holds, frame) =
        run_posted heap app 0 w0 here.event_source b block same here.state here.source here.listed
          here.alive here.quiet
          (subst (λ o. RoomFor o (length block)) (sym bare) (omega (arith, h))) in
      let (k, few, w2, emptied, sent, o) =
        settles heap app kernel honest greedy size w0 w1 block here
          (λ e. omega (arith, p, ap length e)) h open_ grown holds frame in
      let all_sent : sent_bytes w2.events ≡ block = sent ∙ ap (λ ys. ys ++ block) fresh in
      let (w3, talk, o', all) =
        talks_through heap app kernel honest greedy (λ xs. refl) size bounded ms w2 o sized in
      (
        with_connection (woken (some buffer) c) local
            (post (announced heap block buffer c local) (write_raw b)),
        attempt_connects heap app answer ready name (some buffer) c starts f writes ∙ handed,
        post (announced heap block buffer c local) (write_raw b),
        refl,
        w1,
        ran,
        k,
        few,
        w2,
        emptied,
        all_sent,
        w3,
        talk,
        o',
        all ∙ ap (λ ys. ys ++ joined ms) all_sent,
      )
