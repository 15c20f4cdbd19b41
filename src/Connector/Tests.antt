-- ===== src/Connector/Tests.antt =====
-- A connector whose attempt is refused by the peer, and one that connects.
use mutiplex.Base.{◌≡◌, refl, true, false, ok, [], ◌∷◌, ◌++◌, List, none}
use mutiplex.Base.Int.{pos}
use mutiplex.Base.Samples.{zero_heap}
use mutiplex.EventSource.{add, delete, epollout}
use mutiplex.InetAddress.{new_empty}
use mutiplex.Connection.Context.{Callback, Request}
use mutiplex.Connector.{Connector, Life, epoll, failure, in_progress, do_connect}
use mutiplex.Connector.Attempt.{attempt}
use mutiplex.Connector.Outcome.{Outcome, attempt-Outcome, error-deletes_closed}

abbrev silent : Callback → List Request
silent cb = []

abbrev connector : Connector
connector = record {
  fd = pos 7;
  local = new_empty;
  peer = new_empty;
  event_source = none;
  connect_error_callback = true;
  established_callback = true;
  read_callback = false;
  closed_callback = false;
}

attempt-Outcome_example :
    (life : Life) × (attempt zero_heap silent in_progress 4 0 none none connector ≡ ok life)
    × Outcome connector life
attempt-Outcome_example =
    attempt-Outcome zero_heap silent in_progress 4 0 none none connector refl tt

error-deletes_closed_example :
    (life : Life) × (attempt zero_heap silent in_progress 28 111 none none connector ≡ ok life)
    × (life.events
        ≡ epoll (add (pos 7) epollout) ∷ (failure true (pos 7) ++ epoll (delete (pos 7) 0) ∷ []))
unfolding do_connect
error-deletes_closed_example =
    error-deletes_closed zero_heap silent in_progress 28 111 none none connector refl refl
