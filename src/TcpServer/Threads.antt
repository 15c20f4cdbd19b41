-- ===== src/TcpServer/Threads.antt =====
-- TcpServer::run and TcpServer::shutdown: the threads of the loops, and the thread that waits for them
-- on the condition variable, in every interleaving.
pub mod Countdown
pub mod Ending
use mutiplex.Base.{ℕ, zero, suc, ◌-◌, ◌≡◌, Result, ok, err, null_pointer, ◌>>=◌, List, [], ◌∷◌}

-- A thread of a loop: before it has stored its loop in `io_loops_`; with its loop stored and
-- running; told to stop; behind its decrement, with its acceptor still to be destroyed; terminated.
pub data Thread : Type 0 where
  starting serving stopping leaving finished : Thread

-- The thread in `run`: it is about to test `count_down_`, in `cv_.wait`, or has returned.
pub data Waiter : Type 0 where
  testing waiting returned : Waiter

pub record Server : Type 0 where
  pub threads : List Thread
  pub count_down : ℕ
  pub waiter : Waiter

abbrev pub replicate : ℕ → List Thread
replicate zero = []
replicate (suc n) = starting ∷ replicate n

-- `run` up to its first test, for a number of threads that is not negative.
unfoldable pub start : ℕ → Server
start num_io_threads = record {
  threads = replicate num_io_threads;
  count_down = num_io_threads;
  waiter = testing;
}

-- The loop of `shutdown` over `io_loops_`, while no other thread takes a step: a loop that is not
-- stored yet is a null pointer.
pub shutdown : List Thread → Result (List Thread)
shutdown [] = ok []
shutdown (starting ∷ rest) = err null_pointer
shutdown (serving ∷ rest) = do rest' ← shutdown rest; ok (stopping ∷ rest')
shutdown (stopping ∷ rest) = do rest' ← shutdown rest; ok (stopping ∷ rest')
shutdown (leaving ∷ rest) = do rest' ← shutdown rest; ok (leaving ∷ rest')
shutdown (finished ∷ rest) = do rest' ← shutdown rest; ok (finished ∷ rest')

-- cv_.notify_one()
abbrev pub notify_one : Waiter → Waiter
notify_one waiting = testing
notify_one testing = testing
notify_one returned = returned

-- `while (count_down_ > 0) cv_.wait(lock);` from its test to the wait or to the end of `run`.
unfoldable pub test : ℕ → Waiter
test zero = returned
test (suc n) = waiting

-- One thread of the list takes a step.
pub data One (R : Thread → Thread → Type 0) : List Thread → List Thread → Type 0 where
  here : {t t' : Thread} {ts : List Thread} → R t t' → One R (t ∷ ts) (t' ∷ ts)
  there : {t : Thread} {ts ts' : List Thread} → One R ts ts' → One R (t ∷ ts) (t ∷ ts')

-- io_loops_[index] = loop
pub data Publishes : Thread → Thread → Type 0 where
  publishes : Publishes starting serving

-- `loop->run()` returns, after `stop` or because epoll_wait fails; then `--count_down_` under the
-- lock.
pub data Exits : Thread → Thread → Type 0 where
  exits : Exits stopping leaving
  fails : Exits serving leaving

-- ~Acceptor, and the end of the thread.
pub data Ends : Thread → Thread → Type 0 where
  ends : Ends leaving finished

-- A round of the loop of `shutdown`, on a loop that is stored.
pub data Told : Thread → Thread → Type 0 where
  tells : Told serving stopping
  tells_again : Told stopping stopping
  tells_leaving : Told leaving leaving
  tells_late : Told finished finished

-- The holder of `mutex_` runs to its release in one step. A wait may end without a notification.
pub data Step : Server → Server → Type 0 where
  publish :
      {s : Server} {ts : List Thread}
      → One Publishes s.threads ts
      → Step s (record s { threads = ts })
  exit :
      {s : Server} {ts : List Thread}
      → One Exits s.threads ts
      → Step s
          (record { threads = ts; count_down = s.count_down - 1; waiter = notify_one s.waiter })
  end_one :
      {s : Server} {ts : List Thread} → One Ends s.threads ts → Step s (record s { threads = ts })
  test_count : {s : Server} → s.waiter ≡ testing → Step s (record s { waiter = test s.count_down })
  wake : {s : Server} → s.waiter ≡ waiting → Step s (record s { waiter = testing })
  stop_one :
      {s : Server} {ts : List Thread} → One Told s.threads ts → Step s (record s { threads = ts })

pub data Reachable (n : ℕ) : Server → Type 0 where
  begin : Reachable n (start n)
  next : {s s' : Server} → Reachable n s → Step s s' → Reachable n s'
