-- ===== src/EventLoop/Wakeup.antt =====
-- Callbacks that other threads post, in all interleavings with the thread of the loop.
use mutiplex.Base.{ℕ, ◌<◌, ◌≢◌, refl, [], arith}
use mutiplex.Base.Int.{ℤ}
use mutiplex.EventLoop.{EventLoop, new, notify_event, read_notification, push_pending, take_pending}

-- Where the thread of the loop is: at epoll_wait, or between it and the swap.
pub data Phase : Type 0 where
  waiting handling : Phase

-- Who holds `mutex_`: nobody, or a thread in post_callback.
pub data Lock : Type 0 where
  unlocked posting : Lock

-- The steps of the threads. A poster takes `mutex_`, pushes its callback, notifies and lets go. The
-- thread of the loop leaves epoll_wait with or without the notification among the events that it
-- handles, and swaps the callbacks out under `mutex_`.
pub data Step (C : Type 0) : Phase → Lock → EventLoop C → Phase → Lock → EventLoop C → Type 0 where
  push :
      {p : Phase} {loop : EventLoop C} (c : C)
      → Step C p unlocked loop p posting (push_pending loop c)
  notify : {p : Phase} {loop : EventLoop C} → Step C p posting loop p unlocked (notify_event loop)
  wake : {l : Lock} {loop : EventLoop C} → Step C waiting l loop handling l (read_notification loop)
  wake_otherwise : {l : Lock} {loop : EventLoop C} → Step C waiting l loop handling l loop
  swap : {loop : EventLoop C} → Step C handling unlocked loop waiting unlocked (take_pending loop).1

pub data Reachable (C : Type 0) : Phase → Lock → EventLoop C → Type 0 where
  start : (self : ℕ) (notify_fd : ℤ) → Reachable C waiting unlocked (new self notify_fd).0
  next :
      {p p' : Phase} {l l' : Lock} {loop loop' : EventLoop C}
      → Reachable C p l loop
      → Step C p l loop p' l' loop'
      → Reachable C p' l' loop'

-- A thread that waits has been woken up if there is something to do.
abbrev pub Awake : {C : Type 0} → Phase → Lock → EventLoop C → Type 0
Awake waiting unlocked loop = loop.pending_callbacks ≢ [] → 0 < loop.signals
Awake _ _ loop = Unit {0}

module _ {C : Type 0} where
  posting-Awake : (p : Phase) (loop : EventLoop C) → Awake p posting loop
  posting-Awake waiting loop = tt
  posting-Awake handling loop = tt

  notified-Awake : (p : Phase) (loop : EventLoop C) → Awake p unlocked (notify_event loop)
  unfolding notify_event
  notified-Awake waiting loop = λ h. omega arith
  notified-Awake handling loop = tt

  taken-Awake :
      {p p' : Phase} {l l' : Lock} {loop loop' : EventLoop C}
      → Step C p l loop p' l' loop'
      → Awake p l loop
      → Awake p' l' loop'
  unfolding take_pending
  taken-Awake (push c) a = posting-Awake _ _
  taken-Awake notify a = notified-Awake _ _
  taken-Awake wake a = tt
  taken-Awake wake_otherwise a = tt
  taken-Awake swap a = λ h. absurd (h refl)

  steps-Awake : {p : Phase} {l : Lock} {loop : EventLoop C} → Reachable C p l loop → Awake p l loop
  unfolding new
  steps-Awake (start self notify_fd) = λ h. absurd (h refl)
  steps-Awake (next r s) = taken-Awake s (steps-Awake r)

  -- In every interleaving of the posting threads with the thread of the loop: while that thread is
  -- at epoll_wait and no thread is in the middle of post_callback, a callback that waits to be run
  -- has its notification in the eventfd.
  pub waiting-Awake :
      {loop : EventLoop C}
      → Reachable C waiting unlocked loop
      → loop.pending_callbacks ≢ []
      → 0 < loop.signals
  waiting-Awake r = steps-Awake r
