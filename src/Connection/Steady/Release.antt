-- ===== src/Connection/Steady/Release.antt =====
-- ~Connection, when the last pointer to a connection goes.
use mutiplex.Base.{
  ◌≡◌, refl, ap, ◌∙◌, inl, inr, ◌||◌, Bool-cases, [], ◌∷◌, ◌++◌, Option, some, none,
}
use mutiplex.EventSource
use mutiplex.EventSource.{EventSource}
use mutiplex.Connection.Context.{World, fd_closed}
use mutiplex.Connection.Tasks.{release, destroy, destroy_source, is_alive}
use mutiplex.Connection.Stream.{sent_bytes, held_bytes, sent_bytes-quiet, sent_bytes-epoll_events}
use mutiplex.Connection.Steady.{Ready, IsSound, Steady, same-Steady}

-- The last pointer going sends nothing.
destroy_source-quiet : (o : Option EventSource) → sent_bytes (destroy_source o) ≡ []
unfolding destroy_source sent_bytes
destroy_source-quiet none = refl
destroy_source-quiet (some ev) = sent_bytes-epoll_events (EventSource.disable_all ev).1

pub destroy-sent : (w : World) → sent_bytes (destroy w).events ≡ sent_bytes w.events
unfolding destroy sent_bytes
destroy-sent w =
    sent_bytes-quiet w.events (destroy_source w.conn.event_source ++ fd_closed w.conn.fd ∷ []) (
      sent_bytes-quiet (destroy_source w.conn.event_source) (fd_closed w.conn.fd ∷ []) refl
      ∙ destroy_source-quiet w.conn.event_source)

destroy-Steady :
    (w : World) → Ready w.conn.event_source → IsSound w.conn.buffer_out → Steady w (destroy w)
unfolding destroy
destroy-Steady w r s = record {
  ready = r;
  sound = s;
  streams = ap (λ xs. xs ++ held_bytes w.conn.buffer_out) (destroy-sent w);
  hollow = λ h. h;
  state = refl;
}

pub release-Steady :
    (w : World) → Ready w.conn.event_source → IsSound w.conn.buffer_out → Steady w (release w)
unfolding release
release-Steady w r s = elim (Bool-cases (is_alive w || w.destroyed)) [
  | inl e ↦ rw e (same-Steady w r s)
  | inr e ↦ rw e (destroy-Steady w r s)
]
