-- ===== src/EventLoop/Queue.antt =====
-- The order in which a loop runs the callbacks that are posted to it.
use mutiplex.Base.{
  ℕ, zero, suc, ◌≡◌, refl, sym, ap, ◌∙◌, true, ◌==◌, arith, List, [], ◌∷◌, ◌++◌, append-nil,
  append_assoc,
}
use mutiplex.EventLoop.{EventLoop, post_callback, run_task_queue, popped, pop_front}

module _ {C : Type 0} where
  -- `callbacks` are posted one after the other, on the thread of the loop.
  abbrev pub post_all : List C → EventLoop C → EventLoop C
  post_all [] loop = loop
  post_all (c ∷ cs) loop = post_all cs (post_callback loop.pthread_id loop c)

  abbrev pub all_posted : (C → List C) → List C → List C
  all_posted posts [] = []
  all_posted posts (c ∷ cs) = posts c ++ all_posted posts cs

  own_post :
      (loop : EventLoop C) (c : C)
      → (post_callback loop.pthread_id loop c).task_queue ≡ loop.task_queue ++ c ∷ []
  unfolding post_callback
  own_post loop c = rw same refl
    where
      same : (loop.pthread_id == loop.pthread_id) ≡ true
      same = ground arith

  task_queue-post_all :
      (cs : List C) (loop : EventLoop C) → (post_all cs loop).task_queue ≡ loop.task_queue ++ cs
  task_queue-post_all [] loop = sym (append-nil loop.task_queue)
  task_queue-post_all (c ∷ cs) loop =
      task_queue-post_all cs (post_callback loop.pthread_id loop c)
      ∙ ap (λ q. q ++ cs) (own_post loop c)
      ∙ append_assoc loop.task_queue (c ∷ []) cs

  abbrev Fifo : (C → List C) → List C → List C × EventLoop C → Type 0
  Fifo posts queued (ran, loop') = ran ++ loop'.task_queue ≡ queued ++ all_posted posts ran

  run_queued :
      (posts : C → List C) (fuel : ℕ) (queued : List C) (loop : EventLoop C)
      → Fifo posts queued
          (run_task_queue (λ c. post_all (posts c)) fuel (record loop { task_queue = queued }))
  unfolding run_task_queue
  run_queued posts zero queued loop = sym (append-nil queued)
  run_queued posts (suc fuel) [] loop = refl
  run_queued posts (suc fuel) (task ∷ rest) loop =
      let after = popped (post_all (posts task) (record loop { task_queue = task ∷ rest })) in
      let ran = (run_task_queue (λ c. post_all (posts c)) fuel after).0 in
      let moved : after.task_queue ≡ rest ++ posts task =
        ap pop_front
          (task_queue-post_all (posts task) (record loop { task_queue = task ∷ rest })) in
      ap (◌∷◌ task) (
        run_queued posts fuel after.task_queue after
        ∙ ap (λ q. q ++ all_posted posts ran) moved
        ∙ append_assoc rest (posts task) (all_posted posts ran))

  -- For callbacks that only post further ones on the thread of the loop, and any bound on the runs of
  -- the loop over `task_queue_`: the tasks that ran, in their order, followed by those that are left,
  -- are the tasks that were queued, followed by those that the tasks that ran have posted. So no
  -- task is lost, run twice or overtaken.
  pub run_task_queue-fifo :
      (posts : C → List C) (fuel : ℕ) (loop : EventLoop C)
      → let (ran, loop') = run_task_queue (λ c. post_all (posts c)) fuel loop in
        ran ++ loop'.task_queue ≡ loop.task_queue ++ all_posted posts ran
  run_task_queue-fifo posts fuel loop = run_queued posts fuel loop.task_queue loop
