-- ===== src/EventLoop/Running.antt =====
-- EventLoop::run: its outer loop, on the answers that epoll_wait gives one after the other.
pub mod Draining
pub mod Stopping
use mutiplex.Base.{ℕ, if◌then◌else◌, List, [], ◌∷◌, Option, none, some}
use mutiplex.EventSource.{EventSource}
use mutiplex.EventLoop.{EventLoop, pull_events, round}

-- How far `run` has come: it has returned since the loop was stopped, or since epoll_wait failed; it
-- is at epoll_wait again; or it is still in the loop over `task_queue_`.
pub data Exit : Type 0 where
  stopped failed at_wait in_tasks : Exit

-- `call` is what a callback does to the loop, `handle` what the event of a source does, and `fuel`
-- is the number of tasks of a round that are followed.
module _ {C : Type 0} (call : C → EventLoop C → EventLoop C)
    (handle : EventSource → EventLoop C → EventLoop C) (fuel : ℕ) where
  pub rounds : List (Option (List (EventSource × ℕ))) → EventLoop C → Exit × EventLoop C
  unfolding pull_events round
  rounds [] loop = (if loop.running then at_wait else stopped, loop)
  rounds (answer ∷ answers) loop =
      if loop.running
      then (let (active, loop') = pull_events loop answer in
          elim active [
            | none ↦ (failed, loop')
            | some events ↦
                let after = round call handle fuel events loop' in
                elim after.task_queue [
                  | [] ↦ rounds answers after
                  | task ∷ rest ↦ (in_tasks, after)
                ]
          ])
      else (stopped, loop)

  -- `run` on the thread `self`.
  pub run : ℕ → List (Option (List (EventSource × ℕ))) → EventLoop C → Exit × EventLoop C
  unfolding rounds
  run self answers loop = rounds answers (record loop { pthread_id = self })
