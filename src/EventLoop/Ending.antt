-- ===== src/EventLoop/Ending.antt =====
-- EventLoop::~EventLoop, with the connections that `connections_` holds.
use mutiplex.Base.{false, List, [], ◌∷◌, ◌++◌}
use mutiplex.Base.Int.{ℤ}
use mutiplex.EventSource
use mutiplex.Connection.Context.{World, Event, fd_closed, epoll_events}
use mutiplex.Connection.Tasks.{release}
use mutiplex.EventLoop.{EventLoop}

-- connections_.clear(): a connection that nobody else holds is destroyed.
pub clear_connections : List World → List World
clear_connections [] = []
clear_connections (w ∷ rest) = release (record w { listed = false }) ∷ clear_connections rest

-- The connections after the destructor, and what it does itself to epoll and the descriptors.
pub destroy : {C : Type 0} → ℤ → EventLoop C → List World → List World × List Event
unfolding clear_connections
destroy epoll_fd loop connections = (
  clear_connections connections,
  epoll_events (EventSource.disable_all loop.notify_source).1
      ++ fd_closed loop.notify_source.fd ∷ fd_closed epoll_fd ∷ [],
)
