-- ===== src/Connector/Ping/Tests.antt =====
-- A client whose block is "ping", and two answers.
use mutiplex.Base.{ℕ, ◌≡◌, ◌≤◌, refl, true, false, ok, [], ◌∷◌, List, some, none, arith}
use mutiplex.Base.Memory.{Bytes}
use mutiplex.Base.Int.{pos}
use mutiplex.Base.Samples.{zero_heap, takes_two, takes_two-honest, takes_two-greedy}
use mutiplex.ByteBuffer.Tests.{two_left, two_left-IsValid}
use mutiplex.InetAddress.{new_empty}
use mutiplex.Connection.Context.{World}
use mutiplex.Connection.Tasks.{run_tasks}
use mutiplex.Connection.Stream.{sent_bytes}
use mutiplex.Connection.Emptying.{write_events}
use mutiplex.Connection.Conversation.{IsOpen, joined, Talk}
use mutiplex.Connector.{Connector, Life, in_progress, do_connect}
use mutiplex.Connector.Attempt.{attempt}
use mutiplex.Connector.Ping.{ping, set_up, ping-answers}

abbrev session : Connector
session = record {
  fd = pos 7;
  local = new_empty;
  peer = new_empty;
  event_source = none;
  connect_error_callback = true;
  established_callback = true;
  read_callback = false;
  closed_callback = false;
}

abbrev block : Bytes
block = 112 ∷ 105 ∷ 110 ∷ 103 ∷ []

abbrev answers : List Bytes
answers = (104 ∷ 105 ∷ []) ∷ (121 ∷ []) ∷ []

ping-answers_example :
    (life : Life) × (attempt zero_heap (ping block) in_progress 4 0 none (some two_left) session
      ≡ ok life)
    × (w : World) × (life.connection ≡ some w)
    × (w1 : World) × (run_tasks zero_heap (ping block) 2 (set_up w) ≡ ok (w1, true))
    × (k : ℕ) × (k ≤ 4)
    × (w2 : World) × (write_events zero_heap (ping block) takes_two k w1 ≡ ok w2)
    × (sent_bytes w2.events ≡ block)
    × (w3 : World) × Talk zero_heap (ping block) takes_two w2 answers w3
    × IsOpen 4 w3
    × (sent_bytes w3.events ≡ 112 ∷ 105 ∷ 110 ∷ 103 ∷ 104 ∷ 105 ∷ 121 ∷ [])
unfolding joined do_connect
ping-answers_example =
    ping-answers zero_heap takes_two takes_two-honest takes_two-greedy in_progress 4 none session 4
      two_left block answers refl refl refl refl two_left-IsValid (omega arith) (omega arith)
      (omega arith) ((λ e. cc), omega arith, ((λ e. cc), omega arith, tt))
