-- ===== src/EventLoop/Tests.antt =====
-- Runs of a loop whose callbacks are numbers.
use mutiplex.Base.{
  ℕ, zero, suc, ◌<◌, ◌≡◌, refl, sym, append-nil, inl, inr, ap, true, some, List, [], ◌∷◌, ◌++◌,
  length, arith, none,
}
use mutiplex.Base.Int.{pos}
use mutiplex.EventSource
use mutiplex.EventLoop.{
  read_notification, EventLoop, mark_ready, round, stop, pull_events, take_pending, handle_all, new,
  post_callback, notify_event, push_pending, run_task_queue, run_callbacks,
}
use mutiplex.EventLoop.Queue.{post_all, all_posted, run_task_queue-fifo}
use mutiplex.EventLoop.Running.{stopped, run}
use mutiplex.EventLoop.Running.Stopping.{Keeping, pulled, run-stopped}
use mutiplex.EventLoop.Running.Draining.{Light}
use mathlib.Core.List.Memᴰ.{head, tail}
use mutiplex.EventLoop.History.{History, taken_in_order}
use mutiplex.EventLoop.Wakeup.{
  waiting, posting, wake, swap, start, next, push, notify, waiting-Awake,
}

-- Callback 1 posts 2 and 3, callback 2 posts 4, and the others post nothing.
abbrev posts : ℕ → List ℕ
posts zero = []
posts (suc zero) = 2 ∷ 3 ∷ []
posts (suc (suc zero)) = 4 ∷ []
posts (suc (suc (suc n))) = []

abbrev watched : EventSource.EventSource
watched = (EventSource.enable_reading (EventSource.new (pos 4))).0

abbrev queued : EventLoop ℕ
queued = record {
  pthread_id = 77;
  running = true;
  notify_source = watched;
  signals = 0;
  slots = 64;
  pending_callbacks = [];
  task_queue = 1 ∷ 9 ∷ [];
  recv_buffer = none;
}

run_task_queue-fifo_example :
    let (ran, loop') = run_task_queue (λ c. post_all (posts c)) 3 queued in
    ran ++ loop'.task_queue ≡ 1 ∷ 9 ∷ all_posted posts ran
run_task_queue-fifo_example = run_task_queue-fifo posts 3 queued

run_three : (run_task_queue (λ c. post_all (posts c)) 3 queued).0 ≡ 1 ∷ 9 ∷ 2 ∷ []
unfolding run_task_queue post_callback
run_three = refl

abbrev posted : EventLoop ℕ
posted = record {
  pthread_id = 77;
  running = true;
  notify_source = watched;
  signals = 1;
  slots = 64;
  pending_callbacks = 5 ∷ [];
  task_queue = [];
  recv_buffer = none;
}

waiting-Awake_example : 0 < posted.signals
unfolding new notify_event push_pending
waiting-Awake_example =
    waiting-Awake {loop = posted} (next (next (start 77 (pos 4)) (push 5)) notify)
      (λ e. omega (arith, ap length e))

-- Callback 0 stops the loop, the others do nothing to it.
abbrev stop_at_zero : ℕ → EventLoop ℕ → EventLoop ℕ
stop_at_zero zero loop = stop loop
stop_at_zero (suc n) loop = loop

abbrev unread : EventSource.EventSource → EventLoop ℕ → EventLoop ℕ
unread ev loop = loop

stop_at_zero-Keeping : (c : ℕ) → Keeping (stop_at_zero c)
unfolding stop
stop_at_zero-Keeping zero loop h = refl
stop_at_zero-Keeping (suc n) loop h = h

-- Another thread has posted 3, 0 and 4.
abbrev asked : EventLoop ℕ
asked = record posted { pending_callbacks = 3 ∷ 0 ∷ 4 ∷ [] }

stop_at_zero-Light : Light (λ c. 1) stop_at_zero
unfolding stop notify_event
stop_at_zero-Light zero loop = ([], sym (append-nil loop.task_queue), omega arith)
stop_at_zero-Light (suc n) loop = ([], sym (append-nil loop.task_queue), omega arith)

run-stopped_example :
    let after =
      round stop_at_zero unread 9
        (mark_ready ((watched, 1) ∷ []))
        (pulled 78 ((watched, 1) ∷ []) asked) in
    (run stop_at_zero unread 9 78 (some ((watched, 1) ∷ []) ∷ some [] ∷ none ∷ []) asked
      ≡ (stopped, after))
    × (after.task_queue ≡ [])
unfolding pull_events take_pending handle_all stop run_callbacks notify_event
run-stopped_example =
    run-stopped stop_at_zero unread 9 (λ ev loop h. h) stop_at_zero-Keeping (λ c. 1) 78
      ((watched, 1) ∷ []) (some [] ∷ none ∷ []) asked refl
      (inr (inl (0, tail (head refl), λ l. refl))) stop_at_zero-Light (omega arith)

-- Callback 5 is posted and taken, and then 6 is posted.
later : (loop : EventLoop ℕ) × History ℕ (5 ∷ 6 ∷ []) (5 ∷ []) waiting posting loop
unfolding take_pending read_notification notify_event push_pending new
later = (
  _,
  History.next
      (History.next
        (History.next (History.next (History.next (History.start 77 (pos 4)) (push 5)) notify) wake)
        swap)
      (push 6),
)

taken_in_order_example : 5 ∷ later.0.pending_callbacks ≡ 5 ∷ 6 ∷ []
taken_in_order_example = taken_in_order later.1
