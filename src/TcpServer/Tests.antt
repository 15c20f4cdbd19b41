-- ===== src/TcpServer/Tests.antt =====
-- A server that accepts, and one whose two threads start, stop and finish.
use mutiplex.Base.{ℕ, ◌>>=◌, arith, ◌≡◌, ◌⊎◌, refl, true, false, ok, [], ◌∷◌, List, some, none}
use mutiplex.Base.Int.{pos, negsuc}
use mutiplex.Base.Samples.{
  takes_all, takes_all-honest, zero_heap, takes_two, takes_two-honest, takes_two-greedy,
}
use mutiplex.EventSource
use mutiplex.InetAddress.{new_empty}
use mutiplex.ServerSocket
use mutiplex.Acceptor.{Acceptor, Call}
use mutiplex.EventLoop.{EventLoop}
use mutiplex.Connection.Tasks.{run_tasks}
use mutiplex.Connection.Echo.{echo}
use mutiplex.Base.Memory.{Bytes}
use mutiplex.Connection.Conversation.{IsOpen, joined, Talk}
use mutiplex.Connection.Stream.{sent_bytes}
use mutiplex.TcpServer.Startup.{start_thread}
use mutiplex.TcpServer.Replies.{serve-replies}
use mutiplex.TcpServer.Datetime.{datetime, line, serve-tells_time}
use mutiplex.Timestamp.{current, date_text}
use mutiplex.Timestamp.Samples.{clock, clock-Laws, digits}
use mutiplex.Connection.Farewell.{Leaves}
use mutiplex.Connection.Farewell.Sending.{Parts}
use mutiplex.Connection.{handle_write}
use mutiplex.Connection.Context.{Callback, Request, World}
use mutiplex.TcpServer.{TcpServer, serve}
use mutiplex.TcpServer.Accepted.{IsServed, serve-IsServed}
use mutiplex.TcpServer.Threads.{
  Server, serving, leaving, finished, testing, returned, start, shutdown, here, publishes, exits,
  test, publish, stop_one, tells, exit, test_count, Reachable, begin, next,
}
use mutiplex.TcpServer.Threads.Countdown.{
  Counts, Stops, shutdown-Stops, reachable-Counts, finished_returns,
}

abbrev silent : Callback → List Request
silent cb = []

abbrev server : TcpServer
server = record {
  addr = new_empty;
  num_io_threads = pos 2;
  established_callback = true;
  read_callback = false;
  closed_callback = false;
}

abbrev acceptor : Acceptor
acceptor = record {
  server_socket = ServerSocket.new (pos 3);
  accept_event = record {
    state = EventSource.registered;
    fd = pos 3;
    interest_ops = 1;
    ready_ops = 1;
  };
  peer_addr = new_empty;
  local_addr = new_empty;
  on_new_connection = true;
}

-- An answer of -1.
serve-IsServed_example :
    (w : World) × ((serve zero_heap silent server none none acceptor).1 ≡ some (ok w))
    × IsServed zero_heap silent server acceptor (negsuc 0, new_empty) w
serve-IsServed_example = serve-IsServed zero_heap silent server none none acceptor refl tt

abbrev over : Server
over = record { threads = leaving ∷ []; count_down = 0; waiter = testing }

one_thread : Reachable 1 over
unfolding start test
one_thread =
    next
      (next (next (next begin (publish (here publishes))) (test_count refl))
        (stop_one (here tells)))
      (exit (here exits))

reachable-Counts_example : Counts 1 over
reachable-Counts_example = reachable-Counts one_thread

finished_returns_example : (testing ≡ returned) ⊎ ((testing ≡ testing) × (test 0 ≡ returned))
finished_returns_example = finished_returns one_thread refl

shutdown-Stops_example : Stops (serving ∷ finished ∷ []) (shutdown (serving ∷ finished ∷ []))
shutdown-Stops_example = shutdown-Stops (serving ∷ finished ∷ [])

abbrev echo_server : TcpServer
echo_server = record server { read_callback = true }

-- Two messages, "hi" and "you".
abbrev said : List Bytes
said = (104 ∷ 105 ∷ []) ∷ (121 ∷ 111 ∷ 117 ∷ []) ∷ []

serve-replies_example :
    (thread : EventLoop ℕ × Acceptor × List Call) × (start_thread zero_heap 77
        (pos 4)
        (pos 3)
        true
        echo_server
      ≡ ok thread)
    × (w : World) × ((serve zero_heap echo echo_server thread.0.recv_buffer
          (some (9, new_empty))
          thread.1).1
        ≡ some (ok w))
    × (w' : World) × Talk zero_heap echo takes_two w said w'
    × IsOpen 65536 w'
    × (sent_bytes w'.events ≡ 104 ∷ 105 ∷ 121 ∷ 111 ∷ 117 ∷ [])
unfolding joined
serve-replies_example =
    serve-replies ℕ zero_heap takes_two takes_two-honest takes_two-greedy 77 (pos 4) (pos 3)
      echo_server 9 new_empty said refl ((λ e. cc), omega arith, ((λ e. cc), omega arith, tt))

abbrev now : ℕ
now = current 1511607600 42

abbrev told : List ℕ
told = line clock 1511607600 42

serve-tells_time_example :
    (thread : EventLoop ℕ × Acceptor × List Call) × (start_thread zero_heap 77
        (pos 4)
        (pos 3)
        true
        server
      ≡ ok thread)
    × (w0 : World) × ((serve zero_heap
          (datetime clock now)
          server
          thread.0.recv_buffer
          (some (9, new_empty))
          thread.1).1
        ≡ some (ok w0))
    × (w1 : World) × (run_tasks zero_heap (datetime clock now) 3 w0 ≡ ok (w1, true))
    × Leaves [] told w1
    × (w2 : World) × ((handle_write zero_heap (datetime clock now) takes_all w1
          >>= run_tasks zero_heap (datetime clock now) 2)
        ≡ ok (w2, true))
    × Parts 27 told [] w1 w2
unfolding date_text digits
serve-tells_time_example =
    serve-tells_time ℕ zero_heap clock clock-Laws takes_all takes_all-honest 77 (pos 4) (pos 3)
      server 9 new_empty 1511607600 42 27 refl (omega arith) (omega arith) refl (omega arith)
