-- ===== src/Connection/Events.antt =====
-- The callbacks that Connection::register_event sets on its event source, as EventSource::handle_events
-- runs them when epoll reports an event.
use mutiplex.Base.{ℕ, Result, ok, ◌>>=◌, List, Option, none, some}
use mutiplex.Base.Memory.{Bytes, Allocator}
use mutiplex.EventSource
use mutiplex.EventSource.{Callbacks}
use mutiplex.Connection.Context.{Callback, Request, World, deref, with_source}
use mutiplex.Connection.{handle_read, handle_write, force_close}

-- The `disable_all()` with which handle_events ends after an error.
unfoldable pub disable_source : Result World → Result World
disable_source r = do
  w ← r
  ev ← deref w.conn.event_source
  ok (with_source w (EventSource.disable_all ev))

-- `answer` is what ::read gives to the reading callback, and `kernel` what a write gives.
module _ (heap : Allocator) (app : Callback → List Request) (answer : Option Bytes)
    (kernel : Bytes → Option ℕ) where
  unfoldable pub callbacks : Callbacks (Result World)
  callbacks = record {
    read_callback = some (λ r. r >>= handle_read heap app answer);
    write_callback = some (λ r. r >>= handle_write heap app kernel);
    close_callback = none;
    error_callback = some (λ r. r >>= λ w. ok (force_close w));
  }

  unfoldable pub on_event : ℕ → World → Result World
  unfolding callbacks disable_source
  on_event ready w = EventSource.handle_events disable_source callbacks ready (ok w)
