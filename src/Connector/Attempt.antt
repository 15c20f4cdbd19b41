-- ===== src/Connector/Attempt.antt =====
-- An attempt to connect: start_connect, and an event of the descriptor.
use mutiplex.Base.{
  ℕ, ◌≡◌, ap, ◌∙◌, true, false, if◌then◌else◌, Result, ok, ◌>>=◌, List, [], ◌∷◌, Option, none, some,
}
use mutiplex.Base.Memory.{Allocator}
use mutiplex.ByteBuffer.{ByteBuffer}
use mutiplex.EventSource
use mutiplex.EventSource.{has_ops, epollerr, epollout, add, delete}
use mutiplex.EventSource.Fresh.{watching, idle, enable_writing-new, disable_writing-watching}
use mutiplex.EventSource.Dispatch.{handle_events-write}
use mutiplex.InetAddress.{InetAddress}
use mutiplex.Connection.Context.{Callback, Request}
use mutiplex.Connector.{
  Connector, Life, epoll, ConnectAnswer, handle_error, start_connect, do_connect, local_name,
  hand_over, connected_with, handle_connected, callbacks, disable, on_event, with_source,
}

-- A new connector on a loop with this receive buffer.
abbrev pub fresh : Option ByteBuffer → Connector → Life
fresh buffer c = record { connector = c; events = []; connection = none; recv_buffer = buffer }

-- The connector while ::connect is in progress.
abbrev pub waiting : Option ByteBuffer → Connector → Life
waiting buffer c = record {
  connector = record c { event_source = some (watching c.fd epollout) };
  events = epoll (add c.fd epollout) ∷ [];
  connection = none;
  recv_buffer = buffer;
}

-- The connector when its source is switched off.
abbrev pub woken : Option ByteBuffer → Connector → Life
woken buffer c = record {
  connector = record c { event_source = some (idle c.fd) };
  events = epoll (add c.fd epollout) ∷ epoll (delete c.fd 0) ∷ [];
  connection = none;
  recv_buffer = buffer;
}

pub start_waiting :
    (buffer : Option ByteBuffer) (answer : ConnectAnswer) (c : Connector)
    → do_connect answer ≡ true
    → start_connect answer (fresh buffer c) ≡ waiting buffer c
unfolding start_connect
start_waiting buffer answer c e =
    let life = with_source (fresh buffer c) (EventSource.new c.fd, []) in
    ap
      (λ t.
        if t
        then with_source life (EventSource.enable_writing (EventSource.new c.fd))
        else handle_error life)
      e
    ∙ ap (with_source life) (enable_writing-new c.fd)

module _ (heap : Allocator) (app : Callback → List Request) where
  -- start_connect, and then an event of the descriptor if ::connect did not fail at once.
  unfoldable pub attempt :
      ConnectAnswer → ℕ → ℕ → Option InetAddress → Option ByteBuffer → Connector → Result Life
  attempt answer ready error name buffer c =
      if do_connect answer
      then on_event heap app ready error name (start_connect answer (fresh buffer c))
      else ok (start_connect answer (fresh buffer c))

  -- An attempt that connects hands its descriptor over.
  pub attempt_connects :
      (answer : ConnectAnswer) (ready : ℕ) (name : Option InetAddress) (buffer : Option ByteBuffer)
      (c : Connector)
      → do_connect answer ≡ true
      → has_ops ready epollerr ≡ false
      → has_ops ready epollout ≡ true
      → attempt answer ready 0 name buffer c ≡ hand_over heap app (woken buffer c) (local_name name)
  unfolding attempt on_event callbacks handle_connected connected_with
  attempt_connects answer ready name buffer c starts f writes =
      ap
        (λ t.
          if t
          then on_event heap app ready 0 name (start_connect answer (fresh buffer c))
          else ok (start_connect answer (fresh buffer c)))
        starts
      ∙ ap (on_event heap app ready 0 name) (start_waiting buffer answer c starts)
      ∙ handle_events-write (disable heap app) (λ r. r >>= handle_connected heap app 0 name)
          (λ r. r >>= λ life. ok (handle_error life)) ready (ok (waiting buffer c)) f writes
      ∙ ap (λ change. connected_with heap app 0 name (with_source (waiting buffer c) change))
          (disable_writing-watching c.fd)
