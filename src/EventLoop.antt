-- ===== src/EventLoop.antt =====
-- mutiplex/EventLoop.h and src/EventLoop.cpp: the callbacks that are posted to a loop, from its own
-- thread and from others, and what a round of `run` does with them. The epoll_ctl wrappers are in
-- EventSource, and `connections_` is in Connection.
pub mod Queue
pub mod Wakeup
pub mod History
pub mod Running
pub mod Ending
mod Tests
use mutiplex.Base.{
  ℕ, zero, suc, ◌+◌, ◌*◌, Bool, true, false, ◌==◌, if◌then◌else◌, Result, ok, ◌>>=◌, List, [], ◌∷◌,
  ◌++◌, Option, none, some, length,
}
use mutiplex.Base.Int.{ℤ}
use mutiplex.Base.Word.{int32}
use mutiplex.Base.Memory.{Allocator}
use mutiplex.EventSource
use mutiplex.EventSource.{EventSource, EpollCall}
use mutiplex.ByteBuffer
use mutiplex.ByteBuffer.{ByteBuffer}

-- `C` is the type of the callbacks. `notify_source` is `notify_event_`, `signals` the counter of its
-- eventfd, and `slots` the size of `epoll_events_`.
pub record EventLoop (C : Type 0) : Type 0 where
  pub pthread_id : ℕ
  pub running : Bool
  pub notify_source : EventSource
  pub signals : ℕ
  pub slots : ℕ
  pub pending_callbacks : List C
  pub task_queue : List C
  pub recv_buffer : Option ByteBuffer

-- ev->ready_ops(epoll_events_[i].events); events.push_back(ev);
pub mark_ready : List (EventSource × ℕ) → List EventSource
mark_ready [] = []
mark_ready ((ev, ops) ∷ rest) = EventSource.set_ready_ops ev ops ∷ mark_ready rest

module _ {C : Type 0} where
  -- On the thread `self`, with the eventfd `notify_fd`; and the requests made of epoll.
  unfoldable pub new : ℕ → ℤ → EventLoop C × List EpollCall
  new self notify_fd =
      let (notify_source, calls) = EventSource.enable_reading (EventSource.new notify_fd) in
      (
        record {
          pthread_id = self;
          running = true;
          notify_source = notify_source;
          signals = 0;
          slots = 64;
          pending_callbacks = [];
          task_queue = [];
          recv_buffer = none;
        },
        calls,
      )

  -- eventfd_write(notify_fd_, 1)
  pub notify_event : EventLoop C → EventLoop C
  notify_event loop = record loop { signals = loop.signals + 1 }

  -- The reading callback of `notify_event_`: eventfd_read empties the counter.
  pub read_notification : EventLoop C → EventLoop C
  read_notification loop = record loop { signals = 0 }

  pub stop : EventLoop C → EventLoop C
  unfolding notify_event
  stop loop = notify_event (record loop { running = false })

  -- What post_callback does on another thread than the loop's, under `mutex_`.
  pub push_pending : EventLoop C → C → EventLoop C
  push_pending loop callback = record loop {
    pending_callbacks = loop.pending_callbacks ++ callback ∷ [];
  }

  -- A call on the thread `self`.
  pub post_callback : ℕ → EventLoop C → C → EventLoop C
  unfolding notify_event push_pending
  post_callback self loop callback =
      if loop.pthread_id == self
      then record loop { task_queue = loop.task_queue ++ callback ∷ [] }
      else notify_event (push_pending loop callback)

  unfoldable pub allocate_receive_buffer : Allocator → EventLoop C → ℕ → Result (EventLoop C)
  allocate_receive_buffer heap loop capacity = ByteBuffer.new heap (int32 capacity) >>= λ buffer.
      ok (record loop { recv_buffer = some buffer })

  -- `ready` is what epoll_wait answers: `none` for -1, or the ready sources with their events, at most
  -- `slots` of them.
  pub pull_events :
      EventLoop C → Option (List (EventSource × ℕ)) → Option (List EventSource) × EventLoop C
  unfolding mark_ready
  pull_events loop none = (none, loop)
  pull_events loop (some ready) = (
    some (mark_ready ready),
    if length ready == loop.slots then record loop { slots = length ready * 2 } else loop,
  )

  -- std::swap(callbacks, pending_callbacks_)
  pub take_pending : EventLoop C → List C × EventLoop C
  take_pending loop = (loop.pending_callbacks, record loop { pending_callbacks = [] })

  -- active_events[i]->handle_events(now), for each of the ready sources.
  pub handle_all {ℓ} :
      {Ready : Type ℓ}
      → (Ready → EventLoop C → EventLoop C)
      → List Ready
      → EventLoop C
      → EventLoop C
  handle_all handle [] loop = loop
  handle_all handle (event ∷ events) loop = handle_all handle events (handle event loop)

  abbrev pub pop_front : List C → List C
  pop_front [] = []
  pop_front (task ∷ rest) = rest

  abbrev pub popped : EventLoop C → EventLoop C
  popped loop = record loop { task_queue = pop_front loop.task_queue }

  -- `call c loop` is what the callback `c` does to the loop.
  module _ (call : C → EventLoop C → EventLoop C) where
    pub run_callbacks : List C → EventLoop C → EventLoop C
    run_callbacks [] loop = loop
    run_callbacks (callback ∷ callbacks) loop = run_callbacks callbacks (call callback loop)

    -- The loop over `task_queue_`, with fuel: the tasks that ran, in order, and the loop after
    -- them.
    pub run_task_queue : ℕ → EventLoop C → List C × EventLoop C
    run_task_queue zero loop = ([], loop)
    run_task_queue (suc fuel) loop = elim loop.task_queue [
      | [] ↦ ([], loop)
      | task ∷ rest ↦
          let (ran, loop') = run_task_queue fuel (popped (call task loop)) in (task ∷ ran, loop')
    ]

    -- A round of `run`, after epoll_wait: the events, the callbacks of other threads, the tasks.
    pub round {ℓ} :
        {Ready : Type ℓ}
        → (Ready → EventLoop C → EventLoop C)
        → ℕ
        → List Ready
        → EventLoop C
        → EventLoop C
    unfolding take_pending run_callbacks run_task_queue handle_all
    round handle fuel ready loop =
        let (callbacks, loop') = take_pending (handle_all handle ready loop) in
        (run_task_queue fuel (run_callbacks callbacks loop')).1
