-- ===== src/EventLoop/Running/Draining.antt =====
-- The loop over `task_queue_` ends where every callback weighs more than all that it posts.
use mutiplex.Base.{ℕ, zero, suc, ◌+◌, ◌<◌, ◌≡◌, refl, ap, List, [], ◌∷◌, ◌++◌, arith}
use mutiplex.EventLoop.{EventLoop, run_task_queue, popped, pop_front}

module _ {C : Type 0} (weight : C → ℕ) where
  abbrev pub total : List C → ℕ
  total [] = 0
  total (c ∷ cs) = weight c + total cs

  total-append : (cs ds : List C) → total (cs ++ ds) ≡ total cs + total ds
  total-append [] ds = omega arith
  total-append (c ∷ cs) ds = omega (arith, total-append cs ds)

  -- The callbacks only post tasks at the end of the queue, which weigh less together than the
  -- callback.
  abbrev pub Light : (C → EventLoop C → EventLoop C) → Type 0
  Light call =
      (c : C) (loop : EventLoop C)
      → (ts : List C) × ((call c loop).task_queue ≡ loop.task_queue ++ ts) × (total ts < weight c)

  run_queue-drains :
      (call : C → EventLoop C → EventLoop C) (fuel : ℕ) (queued : List C) (loop : EventLoop C)
      → Light call
      → total queued < fuel
      → (run_task_queue call fuel (record loop { task_queue = queued })).1.task_queue ≡ []
  unfolding run_task_queue
  run_queue-drains call zero queued loop light enough = absurd (omega (arith, enough))
  run_queue-drains call (suc fuel) [] loop light enough = refl
  run_queue-drains call (suc fuel) (task ∷ rest) loop light enough =
      let before = record loop { task_queue = task ∷ rest } in
      let after = popped (call task before) in
      let (ts, e, less) = light task before in
      let left : after.task_queue ≡ rest ++ ts = ap pop_front e in
      run_queue-drains call fuel after.task_queue after light
        (omega (arith, enough, less, ap total left, total-append rest ts))

  pub run_task_queue-drains :
      (call : C → EventLoop C → EventLoop C) (fuel : ℕ) (loop : EventLoop C)
      → Light call
      → total loop.task_queue < fuel
      → (run_task_queue call fuel loop).1.task_queue ≡ []
  run_task_queue-drains call fuel loop = run_queue-drains call fuel loop.task_queue loop
