-- ===== src/Connection/Execution/Soundness.antt =====
-- What holds of a connection after any steps.
use mutiplex.Base.{
  ◌≡◌, ◌≢◌, ◌⊎◌, refl, sym, ap, ◌∙◌, inl, inr, Bool, true, false, not, Bool-cases, Result, ok,
  Always, Always-map, [], ◌++◌, append-nil, Option, some, none,
}
use mutiplex.Base.Memory.{Bytes}
use mutiplex.CircularBuffer
use mutiplex.CircularBuffer.{CircularBuffer}
use mutiplex.CircularBuffer.Invariant.{empty_iff}
use mutiplex.Connection.Context.{
  State, new_state, receiving, disconnecting, closed, World, with_state,
}
use mutiplex.Connection
use mutiplex.Connection.Execution.{configured}
use mutiplex.Connection.{has_bytes, has_bytes_to_write}
use mutiplex.Connection.Stream.{sent_bytes, held_bytes, stream}
use mutiplex.Connection.Steady.{Ready, IsSound, Steady, IsSteady}

-- The connection has its event source and no buffer but a valid one. The bytes sent, those held, and
-- those that a close has thrown away are the bytes handed over, in their order; only a closed
-- connection has thrown bytes away, and it holds none.
pub record Sound (w : World) (xs : Bytes) : Type 0 where
  pub ready : Ready w.conn.event_source
  pub valid : IsSound w.conn.buffer_out
  pub hollow : w.conn.state ≡ closed → held_bytes w.conn.buffer_out ≡ []
  pub lost : Bytes
  pub split : stream w ++ lost ≡ xs
  pub exact : w.conn.state ≢ closed → lost ≡ []

-- A step keeps that, and after the close nothing more is sent or handed over.
pub record Follows (w : World) (xs : Bytes) (w' : World) (ys : Bytes) : Type 0 where
  pub sound : Sound w' ys
  pub final :
      w.conn.state ≡ closed
      → (w'.conn.state ≡ closed) × (sent_bytes w'.events ≡ sent_bytes w.events) × (ys ≡ xs)

pub emptied : (sent held : Bytes) → held ≡ [] → sent ++ held ≡ sent
emptied sent held e = ap (λ h. sent ++ h) e ∙ append-nil sent

pub Steady-Follows : {w w' : World} {xs : Bytes} → Sound w xs → Steady w w' → Follows w xs w' xs
Steady-Follows {w} {w'} s a = record {
  sound = record {
    ready = a.ready;
    valid = a.sound;
    hollow = λ c. a.hollow (s.hollow (sym a.state ∙ c));
    lost = s.lost;
    split = ap (λ t. t ++ s.lost) a.streams ∙ s.split;
    exact = λ n. s.exact (λ c. n (a.state ∙ c));
  };
  final = λ c. (
    a.state ∙ c,
    sym (emptied (sent_bytes w'.events) (held_bytes w'.conn.buffer_out) (a.hollow (s.hollow c)))
        ∙ a.streams
        ∙ emptied (sent_bytes w.events) (held_bytes w.conn.buffer_out) (s.hollow c),
    refl,
  );
}

pub then-Follows :
    {w u v : World} {xs ys zs : Bytes} → Follows w xs u ys → Follows u ys v zs → Follows w xs v zs
then-Follows a b = record {
  sound = b.sound;
  final = λ c.
      let (closed', sent', same') = a.final c in
      let (closed'', sent'', same'') = b.final closed' in
      (closed'', sent'' ∙ sent', same'' ∙ same');
}

-- A steady operation behind a step.
pub chain-Follows :
    {w u : World} {xs ys : Bytes} (r : Result World)
    → Follows w xs u ys
    → Always (Steady u) r
    → Always (λ v. Follows w xs v ys) r
chain-Follows {w} {u} {xs} {ys} r a =
    Always-map (Steady u) (λ v. Follows w xs v ys) r
      (λ v b. then-Follows a (Steady-Follows a.sound b))

pub State-cases : (s : State) → (s ≡ closed) ⊎ (s ≢ closed)
State-cases new_state = inr (λ e. cc)
State-cases receiving = inr (λ e. cc)
State-cases disconnecting = inr (λ e. cc)
State-cases closed = inl refl

pub has_bytes-held :
    (w : World)
    → IsSound w.conn.buffer_out
    → has_bytes_to_write w ≡ false
    → held_bytes w.conn.buffer_out ≡ []
unfolding has_bytes_to_write
has_bytes-held w v e = at w.conn.buffer_out v e
  where
    at : (o : Option CircularBuffer) → IsSound o → has_bytes o ≡ false → held_bytes o ≡ []
    at none v e = refl
    at (some b) v e = elim (Bool-cases (CircularBuffer.empty b)) [
      | inl y ↦ (empty_iff v).0 y
      | inr n ↦ let t : true ≡ false = sym (ap not n) ∙ e in cc
    ]

pub has_bytes-open :
    (w : World) (xs : Bytes) → Sound w xs → has_bytes_to_write w ≡ true → w.conn.state ≢ closed
unfolding has_bytes_to_write
has_bytes-open w xs s e c = at w.conn.buffer_out s.valid e (s.hollow c)
  where
    at : (o : Option CircularBuffer) → IsSound o → has_bytes o ≡ true → held_bytes o ≡ [] → ⊥
    at none v e h = cc
    at (some b) v e h = let t : false ≡ true = sym (ap not ((empty_iff v).1 h)) ∙ e in cc

pub unlisted : IsSteady (λ w. ok (record w { listed = false }))
unlisted w r s = record { ready = r; sound = s; streams = refl; hollow = λ h. h; state = refl }

-- Closing a connection that holds nothing.
pub closed-Follows :
    (w : World) (xs : Bytes)
    → Sound w xs
    → held_bytes w.conn.buffer_out ≡ []
    → Follows w xs (with_state w closed) xs
closed-Follows w xs s bare = record {
  sound = record {
    ready = s.ready;
    valid = s.valid;
    hollow = λ c. bare;
    lost = s.lost;
    split = s.split;
    exact = λ n. absurd (n refl);
  };
  final = λ c. (refl, refl, refl);
}

pub waiting-Follows :
    (w : World) (xs : Bytes)
    → Sound w xs
    → w.conn.state ≢ closed
    → Follows w xs (with_state w disconnecting) xs
waiting-Follows w xs s open_ = record {
  sound = record {
    ready = s.ready;
    valid = s.valid;
    hollow = λ c. cc;
    lost = s.lost;
    split = s.split;
    exact = λ n. s.exact open_;
  };
  final = λ c. absurd (open_ c);
}

pub configured-Steady :
    (w : World) (at_open at_read at_close at_error : Bool)
    → Ready w.conn.event_source
    → IsSound w.conn.buffer_out
    → Steady w (configured w at_open at_read at_close at_error)
unfolding configured Connection.set_established_callback Connection.set_read_callback
    Connection.set_closed_callback Connection.set_error_callback
configured-Steady w at_open at_read at_close at_error r s = record {
  ready = r;
  sound = s;
  streams = refl;
  hollow = λ h. h;
  state = refl;
}
