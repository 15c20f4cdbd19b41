-- ===== src/EventLoop/Running/Stopping.antt =====
-- What `stop` does to a `run` that is in the middle of a round.
use mathlib.Core.List.{Memᴰ}
use mathlib.Core.List.Memᴰ.{head, tail}
use mutiplex.Base.{
  ℕ, zero, suc, ◌<◌, ◌≡◌, refl, sym, ap, ◌∙◌, ◌⊎◌, inl, inr, true, false, if◌then◌else◌, List, [],
  ◌∷◌, Option, some,
}
use mutiplex.EventSource.{EventSource}
use mutiplex.EventLoop.{
  EventLoop, mark_ready, pull_events, take_pending, handle_all, run_callbacks, run_task_queue,
  round, popped,
}
use mutiplex.EventLoop.Running.{Exit, stopped, in_tasks, rounds, run}
use mutiplex.EventLoop.Running.Draining.{total, Light, run_task_queue-drains}

-- Whatever the loop, it is stopped after `f`; and `f` does not take a stop back.
abbrev pub Stopping : {C : Type 0} → (EventLoop C → EventLoop C) → Type 0
Stopping {C} f = (loop : EventLoop C) → (f loop).running ≡ false

abbrev pub Keeping : {C : Type 0} → (EventLoop C → EventLoop C) → Type 0
Keeping {C} f = (loop : EventLoop C) → loop.running ≡ false → (f loop).running ≡ false

-- The loop after pull_events.
abbrev pub pulled : {C : Type 0} → ℕ → List (EventSource × ℕ) → EventLoop C → EventLoop C
pulled self ready loop = (pull_events (record loop { pthread_id = self }) (some ready)).1

module _ {C : Type 0} (call : C → EventLoop C → EventLoop C)
    (handle : EventSource → EventLoop C → EventLoop C) (fuel : ℕ)
    (handle_keeps : (ev : EventSource) → Keeping (handle ev))
    (call_keeps : (c : C) → Keeping (call c)) where
  handle_all-Keeping : (events : List EventSource) → Keeping (handle_all handle events)
  unfolding handle_all
  handle_all-Keeping [] loop h = h
  handle_all-Keeping (ev ∷ events) loop h =
      handle_all-Keeping events (handle ev loop) (handle_keeps ev loop h)

  run_callbacks-Keeping : (cs : List C) → Keeping (run_callbacks call cs)
  unfolding run_callbacks
  run_callbacks-Keeping [] loop h = h
  run_callbacks-Keeping (c ∷ cs) loop h =
      run_callbacks-Keeping cs (call c loop) (call_keeps c loop h)

  run_queue-Keeping :
      (n : ℕ) (queued : List C) (loop : EventLoop C)
      → loop.running ≡ false
      → (run_task_queue call n (record loop { task_queue = queued })).1.running ≡ false
  unfolding run_task_queue
  run_queue-Keeping zero queued loop h = h
  run_queue-Keeping (suc n) [] loop h = h
  run_queue-Keeping (suc n) (task ∷ rest) loop h =
      let after = popped (call task (record loop { task_queue = task ∷ rest })) in
      run_queue-Keeping n after.task_queue after
        (call_keeps task (record loop { task_queue = task ∷ rest }) h)

  handle_all-Stopping :
      (ev : EventSource) (events : List EventSource)
      → Stopping (handle ev)
      → Memᴰ ev events
      → Stopping (handle_all handle events)
  unfolding handle_all
  handle_all-Stopping ev [] stops m loop = elim m [ ]
  handle_all-Stopping ev (x ∷ events) stops (head e) loop =
      handle_all-Keeping events (handle x loop)
        (ap (λ x. (handle x loop).running) (sym e) ∙ stops loop)
  handle_all-Stopping ev (x ∷ events) stops (tail m) loop =
      handle_all-Stopping ev events stops m (handle x loop)

  run_callbacks-Stopping :
      (c : C) (cs : List C) → Stopping (call c) → Memᴰ c cs → Stopping (run_callbacks call cs)
  unfolding run_callbacks
  run_callbacks-Stopping c [] stops m loop = elim m [ ]
  run_callbacks-Stopping c (x ∷ cs) stops (head e) loop =
      run_callbacks-Keeping cs (call x loop) (ap (λ x. (call x loop).running) (sym e) ∙ stops loop)
  run_callbacks-Stopping c (x ∷ cs) stops (tail m) loop =
      run_callbacks-Stopping c cs stops m (call x loop)

  run_queue-Stopping :
      (c : C) (n : ℕ) (queued : List C) (loop : EventLoop C)
      → Stopping (call c)
      → Memᴰ c (run_task_queue call n (record loop { task_queue = queued })).0
      → (run_task_queue call n (record loop { task_queue = queued })).1.running ≡ false
  unfolding run_task_queue
  run_queue-Stopping c zero queued loop stops m = elim m [ ]
  run_queue-Stopping c (suc n) [] loop stops m = elim m [ ]
  run_queue-Stopping c (suc n) (task ∷ rest) loop stops m =
      let before = record loop { task_queue = task ∷ rest } in
      let after = popped (call task before) in
      elim m [
        | head e ↦
            run_queue-Keeping n after.task_queue after
              (ap (λ x. (call x before).running) (sym e) ∙ stops before)
        | tail m' ↦ run_queue-Stopping c n after.task_queue after stops m'
      ]

  -- The callbacks of other threads that a round takes, and the tasks that it runs.
  abbrev pub taken : List EventSource → EventLoop C → List C
  taken events loop = (take_pending (handle_all handle events loop)).0

  abbrev pub ran : List EventSource → EventLoop C → List C
  ran events loop =
      let (callbacks, loop') = take_pending (handle_all handle events loop) in
      (run_task_queue call fuel (run_callbacks call callbacks loop')).0

  -- An event, a callback or a task of the round stops the loop.
  abbrev pub StopsIn : List EventSource → EventLoop C → Type 0
  StopsIn events loop =
      ((ev : EventSource) × Memᴰ ev events × Stopping (handle ev))
      ⊎ ((c : C) × Memᴰ c (taken events loop) × Stopping (call c))
      ⊎ ((c : C) × Memᴰ c (ran events loop) × Stopping (call c))

  round-stopped :
      (events : List EventSource) (loop : EventLoop C)
      → StopsIn events loop
      → (round call handle fuel events loop).running ≡ false
  unfolding round take_pending
  round-stopped events loop (inl (ev, m, stops)) =
      let handled = handle_all handle events loop in
      let loop1 =
        run_callbacks call handled.pending_callbacks (record handled { pending_callbacks = [] }) in
      run_queue-Keeping fuel loop1.task_queue loop1 (
        run_callbacks-Keeping handled.pending_callbacks (record handled { pending_callbacks = [] })
          (handle_all-Stopping ev events stops m loop))
  round-stopped events loop (inr (inl (c, m, stops))) =
      let handled = handle_all handle events loop in
      let loop1 =
        run_callbacks call handled.pending_callbacks (record handled { pending_callbacks = [] }) in
      run_queue-Keeping fuel loop1.task_queue loop1 (
        run_callbacks-Stopping c handled.pending_callbacks stops m
          (record handled { pending_callbacks = [] }))
  round-stopped events loop (inr (inr (c, m, stops))) =
      let handled = handle_all handle events loop in
      let loop1 =
        run_callbacks call handled.pending_callbacks (record handled { pending_callbacks = [] }) in
      run_queue-Stopping c fuel loop1.task_queue loop1 stops m

  rounds-stopped :
      (answers : List (Option (List (EventSource × ℕ)))) (loop : EventLoop C)
      → loop.running ≡ false
      → rounds call handle fuel answers loop ≡ (stopped, loop)
  unfolding rounds
  rounds-stopped [] loop h = rw h refl
  rounds-stopped (answer ∷ answers) loop h = rw h refl

  -- The tasks of a round, once its events and the callbacks of other threads are done.
  abbrev pub tasks : List EventSource → EventLoop C → List C
  tasks events loop =
      let (callbacks, loop') = take_pending (handle_all handle events loop) in
      (run_callbacks call callbacks loop').task_queue

  round-drained :
      (weight : C → ℕ) (events : List EventSource) (loop : EventLoop C)
      → Light weight call
      → total weight (tasks events loop) < fuel
      → (round call handle fuel events loop).task_queue ≡ []
  unfolding round take_pending
  round-drained weight events loop light enough =
      run_task_queue-drains weight call fuel _ light enough

  -- A running loop whose epoll_wait answers with `ready`, where one of their events, of the
  -- callbacks of other threads that the round takes, or of the tasks that it runs stops the loop;
  -- where no event and no callback takes a stop back; and where every callback only posts tasks that
  -- weigh less together than it does, by some measure. Then the loop over the tasks ends, after at
  -- most as many of them as the tasks of the round weigh; the round is run to its end, the callbacks
  -- and tasks behind the one that stops included; no task is left; and `run` returns, whatever
  -- epoll_wait would answer next.
  pub run-stopped :
      (weight : C → ℕ) (self : ℕ) (ready : List (EventSource × ℕ))
      (answers : List (Option (List (EventSource × ℕ)))) (loop : EventLoop C)
      → loop.running ≡ true
      → StopsIn (mark_ready ready) (pulled self ready loop)
      → Light weight call
      → total weight (tasks (mark_ready ready) (pulled self ready loop)) < fuel
      → let after = round call handle fuel (mark_ready ready) (pulled self ready loop) in
        (run call handle fuel self (some ready ∷ answers) loop ≡ (stopped, after))
        × (after.task_queue ≡ [])
  unfolding run rounds pull_events
  run-stopped weight self ready answers loop going stops light enough =
      let loop' = round call handle fuel (mark_ready ready) (pulled self ready loop) in
      let none_left =
        round-drained weight (mark_ready ready) (pulled self ready loop) light enough in
      (
        ap
              (λ b.
                if b
                then on loop'.task_queue loop'
                else (stopped, record loop { pthread_id = self }))
              going
            ∙ ap (λ q. on q loop') none_left
            ∙ rounds-stopped answers loop'
                (round-stopped (mark_ready ready) (pulled self ready loop) stops),
        none_left,
      )
    where
      on : List C → EventLoop C → Exit × EventLoop C
      on q loop' = elim q [
        | [] ↦ rounds call handle fuel answers loop'
        | task ∷ rest ↦ (in_tasks, loop')
      ]
