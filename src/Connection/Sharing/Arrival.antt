-- ===== src/Connection/Sharing/Arrival.antt =====
-- A connection that an acceptor or a connector has made comes to the loop.
use mathlib.Core.Path.{subst}
use mutiplex.Base.{
  Bool, refl, ℕ, ◌≡◌, sym, ap, ap₂, ◌∙◌, ok, List, [], ◌++◌, drop, length, Option, none,
}
use mutiplex.Base.Memory.{Allocator}
use mutiplex.ByteBuffer.{ByteBuffer}
use mutiplex.Connection.Context.{Callback, Request, World}
use mutiplex.Connection.{on_new_connection, register_event}
use mutiplex.Connection.Sharing.{Loop, tagged, arrive, found, view, accept, Served, turn}
use mutiplex.Connection.Sharing.Isolation.{Served-IsAlone}

module _ (heap : Allocator) (app : Callback → List Request) where
  -- on_new_connection sets the entry before anything looks at it.
  unlisted :
      (t : Bool) (w : World)
      → on_new_connection heap app (record w { listed = t }) ≡ on_new_connection heap app w
  unfolding on_new_connection register_event
  unlisted t w = refl

  -- The loop with this receive buffer has taken `w` on, as a connection that nothing has happened
  -- to.
  abbrev pub Made : Option ByteBuffer → World → Type 0
  Made buffer w =
      (w0 : World) × (on_new_connection heap app w0 ≡ ok w)
      × (w0.task_queue ≡ [])
      × (w0.recv_buffer ≡ buffer)
      × (w0.conn.buffer_out ≡ none)
      × (w0.events ≡ [])

  pub Made-Served :
      (s : Loop) (i : ℕ) (w : World)
      → Made s.recv_buffer w
      → Served heap s
      → s.connections i ≡ none
      → Served heap (arrive s i w (s.task_queue ++ tagged i w.task_queue))
  Made-Served s i w (w0, made, queue, received, bare, fresh) served new =
      let quiet = (Served-IsAlone heap served).quiet i new in
      let u = view s i w0 in
      let same : u ≡ record w0 { listed = found (s.entries w0.conn.fd) } =
        ap₂
          (λ q b. record w0 {
            task_queue = q;
            recv_buffer = b;
            listed = found (s.entries w0.conn.fd);
          })
          (quiet ∙ sym queue) (sym received) in
      subst
        (λ q. Served heap (arrive s i w (s.task_queue ++ tagged i (drop (length q) w.task_queue))))
        quiet
        (turn served (
          accept w0 w i app new bare fresh (
            ap (on_new_connection heap app) same
            ∙ unlisted (found (s.entries w0.conn.fd)) w0
            ∙ made)))
