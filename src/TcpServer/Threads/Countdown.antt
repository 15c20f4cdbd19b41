-- ===== src/TcpServer/Threads/Countdown.antt =====
-- What `count_down_` counts, and what the return of `run` and the calls of `shutdown` mean.
use mutiplex.Base.{
  ℕ, zero, suc, ◌+◌, ◌<◌, ◌≡◌, ◌≢◌, ◌⊎◌, inl, inr, refl, sym, ap, ◌∙◌, Result, ok, err,
  null_pointer, ◌>>=◌, List, [], ◌∷◌, length, arith,
}
use mutiplex.TcpServer.Threads.{
  Thread, starting, serving, stopping, leaving, finished, Ends, ends, end_one, tells_leaving,
  Waiter, testing, waiting, returned, Server, replicate, start, shutdown, notify_one, test, One,
  here, there, Publishes, publishes, Exits, exits, fails, Step, publish, exit, test_count, wake,
  stop_one, Told, tells, tells_again, tells_late, Reachable, begin, next,
}

abbrev pub left_one : Thread → ℕ
left_one leaving = 0
left_one finished = 0
left_one starting = 1
left_one serving = 1
left_one stopping = 1

-- The threads that have not decremented `count_down_` yet: behind the decrement a thread counts as
-- finished.
abbrev pub left : List Thread → ℕ
left [] = 0
left (t ∷ ts) = left_one t + left ts

-- The count is that of the threads left, and the waiter sleeps only while some are left, and has
-- returned only when none is.
pub record Counts (n : ℕ) (s : Server) : Type 0 where
  pub size : length s.threads ≡ n
  pub count : s.count_down ≡ left s.threads
  pub asleep : s.waiter ≡ waiting → 0 < s.count_down
  pub gone : s.waiter ≡ returned → s.count_down ≡ 0

left-replicate : (n : ℕ) → left (replicate n) ≡ n
left-replicate zero = refl
left-replicate (suc n) = omega (arith, left-replicate n)

length-replicate : (n : ℕ) → length (replicate n) ≡ n
length-replicate zero = refl
length-replicate (suc n) = omega (arith, length-replicate n)

publish_left :
    {ts ts' : List Thread} → One Publishes ts ts' → (left ts' ≡ left ts) × (length ts' ≡ length ts)
publish_left (here publishes) = (refl, refl)
publish_left (there o) = let (a, b) = publish_left o in (omega arith, omega arith)

exit_left :
    {ts ts' : List Thread}
    → One Exits ts ts'
    → (suc (left ts') ≡ left ts) × (length ts' ≡ length ts)
exit_left (here exits) = (omega arith, refl)
exit_left (here fails) = (omega arith, refl)
exit_left (there o) = let (a, b) = exit_left o in (omega arith, omega arith)

same_left :
    {ts ts' : List Thread} → One Told ts ts' → (left ts' ≡ left ts) × (length ts' ≡ length ts)
same_left (here tells) = (refl, refl)
same_left (here tells_again) = (refl, refl)
same_left (here tells_leaving) = (refl, refl)
same_left (here tells_late) = (refl, refl)
same_left (there o) = let (a, b) = same_left o in (omega arith, omega arith)

end_left :
    {ts ts' : List Thread} → One Ends ts ts' → (left ts' ≡ left ts) × (length ts' ≡ length ts)
end_left (here ends) = (refl, refl)
end_left (there o) = let (a, b) = end_left o in (omega arith, omega arith)

Counts-start : (n : ℕ) → Counts n (start n)
unfolding start
Counts-start n = record {
  size = length-replicate n;
  count = sym (left-replicate n);
  asleep = λ e. cc;
  gone = λ e. cc;
}

test_asleep : (c : ℕ) → test c ≡ waiting → 0 < c
unfolding test
test_asleep zero e = cc
test_asleep (suc c) e = omega arith

test_gone : (c : ℕ) → test c ≡ returned → c ≡ 0
unfolding test
test_gone zero e = refl
test_gone (suc c) e = cc

notified : (w : Waiter) → notify_one w ≢ waiting
notified testing e = cc
notified waiting e = cc
notified returned e = cc

notify_returned : (w : Waiter) → notify_one w ≡ returned → w ≡ returned
notify_returned testing e = cc
notify_returned waiting e = cc
notify_returned returned e = refl

-- What `shutdown` does with each thread is to keep it among those left or not.
abbrev pub one_starting : Thread → ℕ
one_starting starting = 1
one_starting serving = 0
one_starting stopping = 0
one_starting leaving = 0
one_starting finished = 0

abbrev pub one_serving : Thread → ℕ
one_serving serving = 1
one_serving starting = 0
one_serving stopping = 0
one_serving leaving = 0
one_serving finished = 0

abbrev pub count_of : (Thread → ℕ) → List Thread → ℕ
count_of one [] = 0
count_of one (t ∷ ts) = one t + count_of one ts

-- The outcome of `shutdown`: a null pointer where some loop is not stored yet; otherwise no thread
-- goes on serving, and the same number of threads is left.
pub data Stops (ts : List Thread) : Result (List Thread) → Type 0 where
  crashes : 0 < count_of one_starting ts → Stops ts (err null_pointer)
  stops :
      (ts' : List Thread)
      → count_of one_starting ts ≡ 0
      → count_of one_serving ts' ≡ 0
      → left ts' ≡ left ts
      → length ts' ≡ length ts
      → Stops ts (ok ts')

Stops-cons :
    (t t' : Thread) {ts : List Thread} {r : Result (List Thread)}
    → one_starting t ≡ 0
    → one_serving t' ≡ 0
    → left_one t' ≡ left_one t
    → Stops ts r
    → Stops (t ∷ ts) (r >>= λ ts'. ok (t' ∷ ts'))
Stops-cons t t' a b c (crashes h) = crashes (omega arith)
Stops-cons t t' a b c (stops ts' d e f g) =
    stops (t' ∷ ts') (omega arith) (omega arith) (omega arith) (omega arith)

-- In every state of the threads: `shutdown` meets a null pointer just where some thread has not stored
-- its loop yet; otherwise it returns, no thread goes on serving, and the threads that have not
-- decremented the count are as many as before.
pub shutdown-Stops : (ts : List Thread) → Stops ts (shutdown ts)
unfolding shutdown
shutdown-Stops [] = stops [] refl refl refl refl
shutdown-Stops (starting ∷ ts) = crashes (omega arith)
shutdown-Stops (serving ∷ ts) = Stops-cons serving stopping refl refl refl (shutdown-Stops ts)
shutdown-Stops (stopping ∷ ts) = Stops-cons stopping stopping refl refl refl (shutdown-Stops ts)
shutdown-Stops (leaving ∷ ts) = Stops-cons leaving leaving refl refl refl (shutdown-Stops ts)
shutdown-Stops (finished ∷ ts) = Stops-cons finished finished refl refl refl (shutdown-Stops ts)

Step-Counts : {n : ℕ} {s s' : Server} → Step s s' → Counts n s → Counts n s'
Step-Counts (publish o) c =
    let (a, b) = publish_left o in
    record { size = b ∙ c.size; count = c.count ∙ sym a; asleep = c.asleep; gone = c.gone }
Step-Counts (exit o) c =
    let (a, b) = exit_left o in
    record {
      size = b ∙ c.size;
      count = omega (arith, c.count);
      asleep = λ e. absurd (notified _ e);
      gone = λ e. omega (arith, c.gone (notify_returned _ e));
    }
Step-Counts (end_one o) c =
    let (a, b) = end_left o in
    record { size = b ∙ c.size; count = c.count ∙ sym a; asleep = c.asleep; gone = c.gone }
Step-Counts (test_count t) c = record {
  size = c.size;
  count = c.count;
  asleep = test_asleep _;
  gone = test_gone _;
}
Step-Counts (wake t) c = record { size = c.size; count = c.count; asleep = λ e. cc; gone = λ e. cc }
Step-Counts (stop_one o) c =
    let (a, b) = same_left o in
    record { size = b ∙ c.size; count = c.count ∙ sym a; asleep = c.asleep; gone = c.gone }

-- In every interleaving of the loops' threads, of the rounds of `shutdown` on loops that are stored,
-- and of the thread in `run`: `count_down_` is the number of threads that have not decremented it; the
-- thread in `run` sleeps only while that is not 0, and has returned only when it is 0.
pub reachable-Counts : {n : ℕ} {s : Server} → Reachable n s → Counts n s
reachable-Counts {n} begin = Counts-start n
reachable-Counts (next r step) = Step-Counts step (reachable-Counts r)

-- Once all threads have decremented the count, in every interleaving, the thread in `run` has returned
-- or is about to test `count_down_`, and the test lets it return: no notification was lost.
pub finished_returns :
    {n : ℕ} {s : Server}
    → Reachable n s
    → left s.threads ≡ 0
    → (s.waiter ≡ returned) ⊎ ((s.waiter ≡ testing) × (test s.count_down ≡ returned))
unfolding test
finished_returns {n} {s} r none_left = cases s.waiter refl
  where
    c : Counts n s
    c = reachable-Counts r

    zero_left : s.count_down ≡ 0
    zero_left = c.count ∙ none_left

    cases :
        (w : Waiter)
        → s.waiter ≡ w
        → (s.waiter ≡ returned) ⊎ ((s.waiter ≡ testing) × (test s.count_down ≡ returned))
    cases returned e = inl e
    cases testing e = inr (e, ap test zero_left)
    cases waiting e = absurd (omega (arith, c.asleep e, zero_left))
