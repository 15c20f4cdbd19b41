-- ===== src/Connector/Handing.antt =====
-- The connection that an attempt to connect leaves, whatever events it gets.
use mutiplex.Base.{
  ℕ, zero, suc, ◌≡◌, refl, ok, Result, ◌>>=◌, Always, Always-ok, Always-if, Always-bind, Always-map,
  Always-after, Always-from, List, Option, none, some,
}
use mathlib.Core.Option.{some_inj}
use mathlib.Core.Path.{subst}
use mutiplex.Base.Memory.{Allocator}
use mutiplex.ByteBuffer.{ByteBuffer}
use mutiplex.EventSource
use mutiplex.EventSource.Dispatch.{handle_events-keeps}
use mutiplex.InetAddress.{InetAddress}
use mutiplex.Connection
use mutiplex.Connection.{on_new_connection}
use mutiplex.Connection.Context.{Callback, Request, World, deref}
use mutiplex.Connection.Sharing.Arrival.{Made}
use mutiplex.Connector.{
  Connector, Life, ConnectAnswer, refused, connected, in_progress, do_connect, start_connect,
  new_connection, local_name, hand_over, connected_with, handle_connected, handle_error, callbacks,
  disable, on_event, with_source,
}
use mutiplex.Connector.Attempt.{attempt, fresh}

module _ (heap : Allocator) (app : Callback → List Request) (buffer : Option ByteBuffer) where
  -- A connection of the connector is one that the loop with this receive buffer has taken on.
  abbrev Hands : Life → Type 0
  Hands life =
      (life.recv_buffer ≡ buffer)
      × ((w : World) → life.connection ≡ some w → Made heap app buffer w)

  hand_over-Hands :
      (life : Life) (local : InetAddress)
      → Hands life
      → Always Hands (hand_over heap app life local)
  unfolding hand_over new_connection Connection.new Connection.set_established_callback
      Connection.set_read_callback Connection.set_closed_callback
  hand_over-Hands life local (received, made) =
      Always-from Hands (on_new_connection heap app (new_connection life local)) _ (λ w e. (
        received,
        λ w' e'.
            subst (Made heap app buffer) (some_inj.0 e')
              (new_connection life local, e, refl, received, refl, refl),
      ))

  connected_with-Hands :
      (code : ℕ) (name : Option InetAddress) (life : Life)
      → Hands life
      → Always Hands (connected_with heap app code name life)
  unfolding connected_with handle_error
  connected_with-Hands zero name life h = hand_over-Hands life (local_name name) h
  connected_with-Hands (suc code) name life h = h

  handle_connected-Hands :
      (code : ℕ) (name : Option InetAddress) (life : Life)
      → Hands life
      → Always Hands (handle_connected heap app code name life)
  unfolding handle_connected
  handle_connected-Hands code name life h =
      Always-after Hands (deref life.connector.event_source) _
        (λ ev. connected_with-Hands code name (with_source life (EventSource.disable_writing ev)) h)

  -- Every event leaves it so.
  on_event-Hands :
      (ready code : ℕ) (name : Option InetAddress) (life : Life)
      → Hands life
      → Always Hands (on_event heap app ready code name life)
  unfolding on_event callbacks disable handle_error
  on_event-Hands ready code name life h =
      handle_events-keeps (Always Hands) (disable heap app) (callbacks heap app code name) ready
        (ok life) tt
        (λ r k. bound r (handle_connected heap app code name) k (handle_connected-Hands code name))
        tt (λ r k. bound r (λ life. ok (handle_error life)) k (λ life h. h))
        (λ r k.
          bound r _ k
            (λ life h. Always-after Hands (deref life.connector.event_source) _ (λ ev. h)))
        h
    where
      bound :
          (r : Result Life) (f : Life → Result Life)
          → Always Hands r
          → ((life : Life) → Hands life → Always Hands (f life))
          → Always Hands (r >>= f)
      bound r f k keep =
          Always-bind Hands r f (Always-map Hands (λ life. Always Hands (f life)) r keep k)

  attempt-Hands :
      (answer : ConnectAnswer) (ready code : ℕ) (name : Option InetAddress) (c : Connector)
      → Always Hands (attempt heap app answer ready code name buffer c)
  unfolding attempt start_connect handle_error do_connect
  attempt-Hands answer ready code name c =
      let first = start_connect answer (fresh buffer c) in
      let begun = started answer c in
      Always-if Hands (do_connect answer) (on_event heap app ready code name first) (ok first)
        (on_event-Hands ready code name first begun) begun
    where
      none_yet : {w : World} → none ≡ some w → Made heap app buffer w
      none_yet e = cc

      started :
          (answer : ConnectAnswer) (c : Connector) → Hands (start_connect answer (fresh buffer c))
      started refused c = (refl, λ w e. none_yet e)
      started connected c = (refl, λ w e. none_yet e)
      started in_progress c = (refl, λ w e. none_yet e)

  -- The connection of an attempt.
  pub attempt-Made :
      (answer : ConnectAnswer) (ready code : ℕ) (name : Option InetAddress) (c : Connector)
      (life : Life) (w : World)
      → attempt heap app answer ready code name buffer c ≡ ok life
      → life.connection ≡ some w
      → Made heap app buffer w
  attempt-Made answer ready code name c life w e has =
      (Always-ok Hands e (attempt-Hands answer ready code name c)).1 w has
