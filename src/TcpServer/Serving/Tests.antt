-- ===== src/TcpServer/Serving/Tests.antt =====
-- A thread of a server whose accept4 fails twice.
use mutiplex.Base.{◌≡◌, ◌++◌, refl, true, none, [], some}
use mutiplex.Base.Int.{pos}
use mutiplex.Base.Samples.{zero_heap}
use mutiplex.ByteBuffer.Tests.{two_left}
use mutiplex.InetAddress.{new_empty}
use mutiplex.Connection.Context.{write_shared, World}
use mutiplex.Connection.Execution.Samples.{silent}
use mutiplex.Connection.Execution.Soundness.{Sound}
use mutiplex.Connection.Sharing.Own.{arrive-own}
use mutiplex.Connection.Sharing.{arrive, tagged, Posted, Loop, view, elsewhere}
use mutiplex.Acceptor
use mutiplex.Acceptor.{Acceptor}
use mutiplex.TcpServer.{TcpServer, serve}
use mutiplex.TcpServer.Accepted.{serve-IsServed}
use mutiplex.TcpServer.Startup.{start_thread-Starts}
use mutiplex.TcpServer.Serving.{Serving, opened, accepts, turns, first_loop, serving-Sound}

abbrev server : TcpServer
server = record {
  addr = new_empty;
  num_io_threads = pos 1;
  established_callback = true;
  read_callback = true;
  closed_callback = true;
}

-- accept4 fails twice: the second connection takes the entry of the first one, under -1. Another thread
-- calls write on the first one.
taken :
    (acceptor : Acceptor) × (s : Loop) × Serving zero_heap server acceptor s
    × (w : World) × (s.connections 1 ≡ some w)
    × (s.handed 1 ≡ [])
unfolding serve Acceptor.handle_accept
taken =
    let (thread, e, is) = start_thread-Starts Posted zero_heap 77 (pos 4) (pos 3) true server in
    let s = first_loop thread.0 in
    let (w, served, _) =
      serve-IsServed zero_heap silent server s.recv_buffer none thread.1 is.set tt in
    let (v, served', _) =
      serve-IsServed zero_heap silent server w.recv_buffer none thread.1 is.set tt in
    let one = arrive s 0 w (s.task_queue ++ tagged 0 w.task_queue) in
    let (there, none_yet) = arrive-own one 1 v (one.task_queue ++ tagged 1 v.task_queue) in
    (
      _,
      _,
      turns
          (accepts 1 silent none v
            (accepts 0 silent none w (opened 77 (pos 4) (pos 3) thread e) refl served) refl served')
          (elsewhere 0 (write_shared two_left)),
      v,
      there,
      none_yet,
    )

serving-Sound_example : Sound (view taken.1 1 taken.3) (taken.1.handed 1)
serving-Sound_example = serving-Sound zero_heap server 1 taken.2 taken.4
