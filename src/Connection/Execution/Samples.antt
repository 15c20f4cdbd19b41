-- ===== src/Connection/Execution/Samples.antt =====
-- A new connection, for tests.
use mutiplex.Base.{◌≡◌, ap, true, false, [], ok, none, List}
use mutiplex.Base.Int.{pos}
use mutiplex.Base.Samples.{zero_heap}
use mutiplex.InetAddress
use mutiplex.EventSource.Fresh.{enable_reading-new}
use mutiplex.Connection
use mutiplex.Connection.Context.{
  Callback, Request, World, established, with_state, with_source, receiving,
}
use mutiplex.Connection.{on_new_connection, register_event, invoke}
use mutiplex.Connection.Opening.{started}

abbrev pub silent : Callback → List Request
silent cb = []

-- A connection that the application holds.
abbrev pub fresh : World
fresh = record {
  conn = Connection.new (pos 7) InetAddress.new_empty InetAddress.new_empty;
  listed = false;
  held = true;
  destroyed = false;
  recv_buffer = none;
  task_queue = [];
  events = [];
}

pub begun : on_new_connection zero_heap silent fresh ≡ ok (started fresh)
unfolding on_new_connection register_event invoke Connection.new
begun =
    ap
      (λ c.
        invoke zero_heap silent false established
          (record (with_state (with_source fresh c) receiving) { listed = true }))
      (enable_reading-new (pos 7))
