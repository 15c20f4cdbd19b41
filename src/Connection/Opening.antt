-- ===== src/Connection/Opening.antt =====
-- EventLoop::on_new_connection and Connection::register_event.
use mutiplex.Base.{
  ◌≡◌, refl, sym, ap, ◌∙◌, append-nil, Bool, true, false, if◌then◌else◌, ok, List, [], ◌∷◌, ◌++◌,
}
use mutiplex.Base.Memory.{Allocator}
use mutiplex.EventSource.{add, epollin}
use mutiplex.EventSource.Fresh.{watching, enable_reading-new}
use mutiplex.Connection.Context.{
  receiving, Callback, established, Request, Event, called, emit, Task, World, with_source,
  with_state,
}
use mutiplex.Connection.{register_event, on_new_connection, perform, invoke}
use mutiplex.Connection.Requests.{Sized, Notifies, posted, posted-nil, invoke-Notifies}

-- The connection with its source, before the application is told.
abbrev pub started : World → World
started w =
    record (with_state (with_source w (watching w.conn.fd epollin, add w.conn.fd epollin ∷ []))
      receiving) { listed = true }

abbrev pub notice : Bool → List Event
notice true = called established ∷ []
notice false = []

abbrev pub told : Bool → World → List Task → World
told set w ts = posted (if set then emit w (called established ∷ []) else w) ts

pub told_lem :
    (set : Bool) (w : World) (ts : List Task)
    → ((told set w ts).conn ≡ w.conn)
      × ((told set w ts).listed ≡ w.listed)
      × ((told set w ts).events ≡ w.events ++ notice set)
told_lem true w ts = (refl, refl, refl)
told_lem false w ts = (refl, refl, sym (append-nil w.events))

pub told_rest :
    (set : Bool) (w : World) (ts : List Task)
    → ((told set w ts).recv_buffer ≡ w.recv_buffer)
      × ((told set w ts).destroyed ≡ w.destroyed)
      × ((told set w ts).task_queue ≡ w.task_queue ++ ts)
told_rest true w ts = (refl, refl, refl)
told_rest false w ts = (refl, refl, refl)

module _ (heap : Allocator) (app : Callback → List Request) where
  -- Registering a connection watches its descriptor for reading, and the application is told.
  pub on_new_connection-Notifies :
      (w : World)
      → Sized (app established)
      → Notifies heap app
          (started w)
          w.conn.established_callback
          established
          (on_new_connection heap app w)
  unfolding on_new_connection register_event
  on_new_connection-Notifies w sized =
      let (ts, e) =
        invoke-Notifies heap app w.conn.established_callback established (started w) sized in
      (
        ts,
        ap
              (λ c.
                invoke heap app w.conn.established_callback established
                  (record (with_state (with_source w c) receiving) { listed = true }))
              (enable_reading-new w.conn.fd)
            ∙ e,
      )

  pub invoke-quiet :
      (set : Bool) (cb : Callback) (w : World)
      → app cb ≡ []
      → invoke heap app set cb w ≡ ok (posted (if set then emit w (called cb ∷ []) else w) [])
  unfolding invoke perform
  invoke-quiet false cb w asked = ap ok (posted-nil heap app w)
  invoke-quiet true cb w asked = rw asked (ap ok (posted-nil heap app (emit w (called cb ∷ []))))

  -- The application is told, and its answer is carried out.
  pub on_new_connection-performs :
      (w : World)
      → w.conn.established_callback ≡ true
      → on_new_connection heap app w
        ≡ perform heap app (emit (started w) (called established ∷ [])) (app established)
  unfolding on_new_connection register_event invoke
  on_new_connection-performs w set = rw (enable_reading-new w.conn.fd, set) refl

  -- The application is told, and asks for nothing.
  pub on_new_connection-quiet :
      (w : World)
      → app established ≡ []
      → on_new_connection heap app w ≡ ok (told w.conn.established_callback (started w) [])
  unfolding on_new_connection register_event
  on_new_connection-quiet w asked =
      ap
        (λ c.
          invoke heap app w.conn.established_callback established
            (record (with_state (with_source w c) receiving) { listed = true }))
        (enable_reading-new w.conn.fd)
      ∙ invoke-quiet w.conn.established_callback established (started w) asked
