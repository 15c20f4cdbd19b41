-- ===== src/EventLoop/History.antt =====
-- The callbacks that other threads post to a loop, over the whole run of the threads.
use mutiplex.Base.{ℕ, ◌≡◌, refl, sym, ap, ◌∙◌, List, [], ◌∷◌, ◌++◌, append-nil, append_assoc}
use mutiplex.Base.Int.{ℤ}
use mutiplex.EventLoop.{EventLoop, new, notify_event, read_notification, push_pending, take_pending}
use mutiplex.EventLoop.Wakeup.{
  Phase, waiting, Lock, unlocked, Step, push, notify, wake, wake_otherwise, swap,
}

module _ {C : Type 0} where
  -- The callback that a step posts, and those that it takes to run them.
  abbrev pub pushed_by :
      {p p' : Phase} {l l' : Lock} {loop loop' : EventLoop C} → Step C p l loop p' l' loop' → List C
  pushed_by (push c) = c ∷ []
  pushed_by notify = []
  pushed_by wake = []
  pushed_by wake_otherwise = []
  pushed_by swap = []

  abbrev pub taken_by :
      {p p' : Phase} {l l' : Lock} {loop loop' : EventLoop C} → Step C p l loop p' l' loop' → List C
  taken_by (push c) = []
  taken_by notify = []
  taken_by wake = []
  taken_by wake_otherwise = []
  taken_by (swap {loop}) = (take_pending loop).0

-- The callbacks posted so far, and those taken, in their order.
pub data History (C : Type 0) : List C → List C → Phase → Lock → EventLoop C → Type 0 where
  start : (self : ℕ) (notify_fd : ℤ) → History C [] [] waiting unlocked (new self notify_fd).0
  next :
      {posted taken : List C} {p p' : Phase} {l l' : Lock} {loop loop' : EventLoop C}
      → History C posted taken p l loop
      → (s : Step C p l loop p' l' loop')
      → History C (posted ++ pushed_by s) (taken ++ taken_by s) p' l' loop'

module _ {C : Type 0} where
  kept_balance :
      {p p' : Phase} {l l' : Lock} {loop loop' : EventLoop C} (s : Step C p l loop p' l' loop')
      → taken_by s ++ loop'.pending_callbacks ≡ loop.pending_callbacks ++ pushed_by s
  unfolding take_pending notify_event read_notification push_pending
  kept_balance (push c) = refl
  kept_balance notify = sym (append-nil _)
  kept_balance wake = sym (append-nil _)
  kept_balance wake_otherwise = sym (append-nil _)
  kept_balance swap = refl

  -- In every interleaving of the posting threads with the thread of the loop: the callbacks that the
  -- loop has taken to run, followed by those that wait, are the callbacks that were posted, each
  -- once, in the order of their posts.
  pub taken_in_order :
      {posted taken : List C} {p : Phase} {l : Lock} {loop : EventLoop C}
      → History C posted taken p l loop
      → taken ++ loop.pending_callbacks ≡ posted
  unfolding new
  taken_in_order (start self notify_fd) = refl
  taken_in_order (next {posted} {taken} {loop = loop} {loop' = loop'} h s) =
      append_assoc taken (taken_by s) loop'.pending_callbacks
      ∙ ap (λ cs. taken ++ cs) (kept_balance s)
      ∙ sym (append_assoc taken loop.pending_callbacks (pushed_by s))
      ∙ ap (λ cs. cs ++ pushed_by s) (taken_in_order h)
