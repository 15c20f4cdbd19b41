-- ===== src/Connection/Steady.antt =====
-- What the operations of a connection leave as it was, but for the lambdas that they post: its
-- stream of bytes and its state.
pub mod Release
use mathlib.Core.Path.{subst}
use mutiplex.CircularBuffer.Invariant.{contents, empty_iff}
use mutiplex.CircularBuffer.Flush.{write_to_fd-refines}
use mutiplex.Connection.Stream.{sent_bytes, sent_first}
use mutiplex.Connection.Events.{on_event}
use mutiplex.Connection.Kept.{Laws, Writes, perform_kept, invoke_kept, force_close_kept}
use mutiplex.Connection.Kept.Events.{on_event_kept}
use mutiplex.Base.{ℕ, ◌≤◌, ◌≢◌, sym, ok-injective}
use mutiplex.Base.{
  ◌≡◌, refl, ap, ◌∙◌, Bool, Result, ◌>>=◌, Always, Always-map, Always-bind, length, List, [], ◌∷◌,
  ◌++◌, Option, none, some,
}
use mutiplex.Base.Memory.{Bytes, Allocator}
use mutiplex.ByteBuffer.Transfer.{filled}
use mutiplex.ByteBuffer
use mutiplex.CircularBuffer
use mutiplex.CircularBuffer.{CircularBuffer}
use mutiplex.CircularBuffer.Invariant.{IsValid}
use mutiplex.EventSource
use mutiplex.EventSource.{EventSource, EpollCall}
use mutiplex.Connection.Context.{Callback, Request, called, World, emit, post, with_source}
use mutiplex.Connection.{write, perform, invoke, force_close}
use mutiplex.Connection.Stream.{held_bytes, stream, sent_bytes-called, with_source-Keeps}

abbrev pub Ready : Option EventSource → Type 0
Ready none = ⊥
Ready (some ev) = Unit {0}

abbrev pub IsSound : Option CircularBuffer → Type 0
IsSound none = Unit {0}
IsSound (some b) = IsValid b

-- From `w` to `w'`: the event source is still there, the buffer is valid, no byte of the stream is
-- lost, added or moved, none is taken into an empty buffer, and the state is the one it was.
pub record Steady (w w' : World) : Type 0 where
  pub ready : Ready w'.conn.event_source
  pub sound : IsSound w'.conn.buffer_out
  pub streams : stream w' ≡ stream w
  pub hollow : held_bytes w.conn.buffer_out ≡ [] → held_bytes w'.conn.buffer_out ≡ []
  pub state : w'.conn.state ≡ w.conn.state

pub same-Steady : (w : World) → Ready w.conn.event_source → IsSound w.conn.buffer_out → Steady w w
same-Steady w r s = record { ready = r; sound = s; streams = refl; hollow = λ h. h; state = refl }

pub then-Steady : {w u v : World} → Steady w u → Steady u v → Steady w v
then-Steady a b = record {
  ready = b.ready;
  sound = b.sound;
  streams = b.streams ∙ a.streams;
  hollow = λ h. b.hollow (a.hollow h);
  state = b.state ∙ a.state;
}

-- The same, wherever the source is there and the buffer valid.
abbrev pub WouldSteady : World → World → Type 0
WouldSteady w w' = Ready w.conn.event_source → IsSound w.conn.buffer_out → Steady w w'

-- An operation that is.
abbrev pub IsSteady : (World → Result World) → Type 0
IsSteady f =
    (w : World) → Ready w.conn.event_source → IsSound w.conn.buffer_out → Always (Steady w) (f w)

pub after-Steady :
    {w u : World} (r : Result World) → Steady w u → Always (Steady u) r → Always (Steady w) r
after-Steady {w} {u} r a = Always-map (Steady u) (Steady w) r (λ v b. then-Steady a b)

pub chain-Steady :
    (w : World) (r : Result World) (f : World → Result World)
    → IsSteady f
    → Always (Steady w) r
    → Always (Steady w) (r >>= f)
chain-Steady w r f steady h = Always-bind (Steady w) r f (
    Always-map (Steady w) (λ u. Always (Steady w) (f u)) r
      (λ u a. after-Steady (f u) a (steady u a.ready a.sound)) h)

with_source-Steady :
    (w : World) (change : EventSource × List EpollCall) → WouldSteady w (with_source w change)
with_source-Steady w change r s = record {
  ready = tt;
  sound = s;
  streams = ap (λ xs. xs ++ held_bytes w.conn.buffer_out) (with_source-Keeps w change);
  hollow = λ h. h;
  state = refl;
}

called-Steady : (w : World) (cb : Callback) → WouldSteady w (emit w (called cb ∷ []))
called-Steady w cb r s = record {
  ready = r;
  sound = s;
  streams = ap (λ xs. xs ++ held_bytes w.conn.buffer_out) (sent_bytes-called w.events cb);
  hollow = λ h. h;
  state = refl;
}

pub WouldSteady-Laws : Laws WouldSteady
WouldSteady-Laws = record {
  same = same-Steady;
  trans = λ a b r s. let c = a r s in then-Steady c (b c.ready c.sound);
  changed = with_source-Steady;
  posts = λ w t r s. record { ready = r; sound = s; streams = refl; hollow = λ h. h; state = refl };
  tells = called-Steady;
  fills = λ w b r s. record { ready = r; sound = s; streams = refl; hollow = λ h. h; state = refl };
}

-- What is kept by a steady operation, for one that keeps WouldSteady.
pub would_be :
    (w : World) (r : Result World)
    → Ready w.conn.event_source
    → IsSound w.conn.buffer_out
    → Always (WouldSteady w) r
    → Always (Steady w) r
would_be w r ready sound = Always-map (WouldSteady w) (Steady w) r (λ v h. h ready sound)

module _ (heap : Allocator) (app : Callback → List Request) where
  pub perform-Steady : (asked : List Request) → IsSteady (λ w. perform heap app w asked)
  perform-Steady asked w r s =
      would_be w (perform heap app w asked) r s (perform_kept WouldSteady-Laws heap app asked w)

  pub invoke-Steady : (set : Bool) (cb : Callback) → IsSteady (invoke heap app set cb)
  invoke-Steady set cb w r s =
      would_be w (invoke heap app set cb w) r s (invoke_kept WouldSteady-Laws heap app set cb w)

  pub force_close-Steady : (w : World) → WouldSteady w (force_close w)
  force_close-Steady w = force_close_kept WouldSteady-Laws heap app w

module _ (heap : Allocator) (app : Callback → List Request) (kernel : Bytes → Option ℕ)
    (honest : (xs : Bytes) (n : ℕ) → kernel xs ≡ some n → n ≤ length xs) where
  -- The buffer after a write, with the bytes that were sent.
  sent-Steady : Writes WouldSteady kernel
  sent-Steady w b b' total xs has some_held made r s =
      let v : IsValid b = subst IsSound has s in
      let (total', xs', b'', made', (v', same, cases)) =
        write_to_fd-refines kernel honest v (filled v) in
      let e = ok-injective (sym made' ∙ made) in
      record {
        ready = r;
        sound = subst IsValid (ap (λ o. o.2) e) v';
        streams =
            sent_first heap app kernel honest w.events xs (contents b') (contents b)
              (ap (λ o. o.1 ++ contents o.2) (sym e) ∙ same)
            ∙ ap (λ o. sent_bytes w.events ++ held_bytes o) (sym has);
        hollow = λ h. absurd (filled v (ap held_bytes (sym has) ∙ h));
        state = refl;
      }
    where
      filled : IsValid b → contents b ≢ []
      filled v e = let y = (empty_iff v).1 e in cc

  -- Whatever events epoll reports.
  pub on_event-Steady :
      (answer : Option Bytes) (ready : ℕ) → IsSteady (on_event heap app answer kernel ready)
  on_event-Steady answer ready w r s =
      would_be w (on_event heap app answer kernel ready w) r s
        (on_event_kept WouldSteady-Laws heap app kernel sent-Steady answer ready w)
