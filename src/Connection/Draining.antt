-- ===== src/Connection/Draining.antt =====
-- The loop over the tasks of a connection: that it empties the queue.
use mathlib.Core.Path.{subst}
use mutiplex.Base.{
  ℕ, zero, suc, ◌+◌, ◌<◌, ◌≤◌, ◌≡◌, refl, sym, ap, ◌∙◌, Bool, true, false, ◌||◌, Bool-cases,
  dangling, if◌then◌else◌, Error, Result, err, ok, ◌>>=◌, List, [], ◌∷◌, ◌++◌, append-nil, length,
  inl, inr, ◌⊎◌, arith,
}
use mutiplex.Base.Memory.{Bytes, Allocator}
use mutiplex.ByteBuffer.{ByteBuffer}
use mutiplex.ByteBuffer.Transfer.{readable}
use mutiplex.CircularBuffer
use mutiplex.Connection.Context.{
  State, new_state, receiving, disconnecting, closed, Callback, closed_cb, Request, write_bytes,
  write_buffer, close_it, force_close_it, Task, close_task, force_close_task, write_raw,
  write_shared, called, World, emit, with_state, deref,
}
use mutiplex.Connection.{
  is_closed, is_closed_state, has_bytes_to_write, write, write_shared_buffer, perform, invoke,
  do_write, do_write_at, do_write_open, out_buffer, force_close, run_close, run_force_close,
}
use mutiplex.Connection.Tasks.{
  run_write, run_task, run_tasks, release, destroy, is_alive, pop_front,
}
use mutiplex.Connection.Closing.{run_tasks-step, run_tasks-done, popped}

-- How many tasks a task may post at most.
abbrev pub spare : Task → ℕ
spare close_task = 0
spare force_close_task = 0
spare (write_raw b) = 1
spare (write_shared b) = 1

abbrev pub rounds : List Task → ℕ
rounds [] = 0
rounds (t ∷ rest) = suc (spare t) + rounds rest

rounds-append : (ts us : List Task) → rounds (ts ++ us) ≡ rounds ts + rounds us
rounds-append [] us = omega arith
rounds-append (t ∷ ts) us = omega (arith, rounds-append ts us)

-- An answer that asks for writes only.
abbrev pub Meek : List Request → Type 0
Meek [] = Unit {0}
Meek (write_bytes xs ∷ rest) = Meek rest
Meek (write_buffer b ∷ rest) = Meek rest
Meek (_ ∷ rest) = ⊥

-- An error, or a return with at most `n` rounds more of tasks at the end of the queue.
abbrev Settles : ℕ → List Task → Result World → Type 0
Settles n q r =
    ((e : Error) × (r ≡ err e))
    ⊎ ((w' : World) × (extra : List Task) × (r ≡ ok w')
        × (w'.task_queue ≡ q ++ extra)
        × (rounds extra ≤ n))

-- An error, or a return with an empty queue.
abbrev pub Drains : Result (World × Bool) → Type 0
Drains r = ((e : Error) × (r ≡ err e)) ⊎ ((w' : World) × (r ≡ ok (w', true)) × (w'.task_queue ≡ []))

Settles-bind {ℓ} :
    {A : Type ℓ} (n : ℕ) (q : List Task) (r : Result A) (f : A → Result World)
    → ((a : A) → Settles n q (f a))
    → Settles n q (r >>= f)
Settles-bind n q (err e) f h = inl (e, refl)
Settles-bind n q (ok a) f h = h a

Settles-if :
    (n : ℕ) (q : List Task) {yes no : Result World} (b : Bool)
    → Settles n q yes
    → Settles n q no
    → Settles n q (if b then yes else no)
Settles-if n q true h k = h
Settles-if n q false h k = k

Settles-ok : (n : ℕ) (w : World) → Settles n w.task_queue (ok w)
Settles-ok n w = inr (w, [], refl, sym (append-nil w.task_queue), omega arith)

release-queue : (w : World) → (release w).task_queue ≡ w.task_queue
unfolding release destroy
release-queue w = elim (Bool-cases (is_alive w || w.destroyed)) [
  | inl e ↦ rw e refl
  | inr e ↦ rw e refl
]

module _ (heap : Allocator) (app : Callback → List Request) where
  -- A closed connection takes no write.
  write-closed : (w : World) (xs : Bytes) → is_closed w ≡ true → write heap app w xs ≡ ok w
  unfolding write
  write-closed w xs e = rw e refl

  write_shared-closed :
      (w : World) (b : ByteBuffer) → is_closed w ≡ true → write_shared_buffer heap app w b ≡ w
  unfolding write_shared_buffer
  write_shared-closed w b e = rw e refl

  perform-Meek :
      (w : World) (asked : List Request)
      → is_closed w ≡ true
      → Meek asked
      → perform heap app w asked ≡ ok w
  unfolding perform
  perform-Meek w [] gone meek = refl
  perform-Meek w (write_bytes xs ∷ rest) gone meek =
      rw (write-closed w xs gone) (perform-Meek w rest gone meek)
  perform-Meek w (write_buffer b ∷ rest) gone meek =
      rw (write_shared-closed w b gone) (perform-Meek w rest gone meek)
  perform-Meek w (close_it ∷ rest) gone meek = elim meek [ ]
  perform-Meek w (force_close_it ∷ rest) gone meek = elim meek [ ]

  erase-Settles :
      (set : Bool) (w : World)
      → w.conn.state ≡ closed
      → Meek (app closed_cb)
      → Settles 0 w.task_queue
          (invoke heap app set closed_cb w >>= λ w'. ok (record w' { listed = false }))
  unfolding invoke is_closed is_closed_state
  erase-Settles false w gone meek = Settles-ok 0 (record w { listed = false })
  erase-Settles true w gone meek =
      let w0 = emit w (called closed_cb ∷ []) in
      rw (perform-Meek w0 (app closed_cb) (ap is_closed_state gone) meek)
        (Settles-ok 0 (record w0 { listed = false }))

  run_close-Settles :
      (w : World) → Meek (app closed_cb) → Settles 0 w.task_queue (run_close heap app w)
  unfolding run_close
  run_close-Settles w meek =
      Settles-if 0 w.task_queue (has_bytes_to_write w) (Settles-ok 0 (with_state w disconnecting))
        (erase-Settles w.conn.closed_callback (with_state w closed) refl meek)

  run_force_close-Settles :
      (w : World) → Meek (app closed_cb) → Settles 0 w.task_queue (run_force_close heap app w)
  unfolding run_force_close
  run_force_close-Settles w meek =
      Settles-bind 0 w.task_queue (deref w.conn.buffer_out) _ (λ buffer.
        Settles-bind 0 w.task_queue (deref w.conn.event_source) _ (λ ev.
          Settles-if 0 w.task_queue w.listed (erase-Settles w.conn.closed_callback _ refl meek)
            (Settles-ok 0 _)))

  do_write_open-Settles :
      (w : World) (xs : Bytes) (n : ℕ) → Settles 1 w.task_queue (do_write_open heap app w xs n)
  unfolding do_write_open
  do_write_open-Settles w xs n =
      Settles-bind 1 w.task_queue
        (CircularBuffer.put heap (out_buffer heap w.conn.buffer_out n) xs n) _
        (λ b. Settles-bind 1 w.task_queue (deref w.conn.event_source) _ (λ ev. Settles-ok 1 _))

  do_write-Settles :
      (s : State) (w : World) (xs : Bytes) (n : ℕ)
      → Settles 1 w.task_queue (do_write_at heap app s w xs n)
  unfolding do_write_at force_close
  do_write-Settles closed w xs n =
      inr (force_close w, force_close_task ∷ [], refl, refl, omega arith)
  do_write-Settles new_state w xs n = do_write_open-Settles w xs n
  do_write-Settles receiving w xs n = do_write_open-Settles w xs n
  do_write-Settles disconnecting w xs n = do_write_open-Settles w xs n

  run_write-Settles : (w : World) (b : ByteBuffer) → Settles 1 w.task_queue (run_write heap app w b)
  unfolding run_write do_write
  run_write-Settles w b =
      Settles-if 1 w.task_queue w.destroyed (inl (dangling, refl))
        (do_write-Settles w.conn.state w (readable b) (length (readable b)))

  run_task-Settles :
      (t : Task) (w : World)
      → Meek (app closed_cb)
      → Settles (spare t) w.task_queue (run_task heap app t w)
  unfolding run_task
  run_task-Settles close_task w meek = run_close-Settles w meek
  run_task-Settles force_close_task w meek = run_force_close-Settles w meek
  run_task-Settles (write_raw b) w meek = run_write-Settles w b
  run_task-Settles (write_shared b) w meek = run_write-Settles w b

  run_tasks-fails :
      (fuel : ℕ) (t : Task) (rest : List Task) (w : World) (e : Error)
      → run_task heap app t (record w { task_queue = t ∷ rest }) ≡ err e
      → run_tasks heap app (suc fuel) (record w { task_queue = t ∷ rest }) ≡ err e
  unfolding run_tasks
  run_tasks-fails fuel t rest w e failed = rw failed refl

  drain :
      (fuel : ℕ) (q : List Task) (w : World)
      → Meek (app closed_cb)
      → rounds q < fuel
      → Drains (run_tasks heap app fuel (record w { task_queue = q }))
  drain zero q w meek h = absurd (omega (arith, h))
  drain (suc fuel) [] w meek h = inr (
    record w { task_queue = [] },
    run_tasks-done heap app fuel (record w { task_queue = [] }) refl,
    refl,
  )
  drain (suc fuel) (t ∷ rest) w meek h =
      elim (run_task-Settles t (record w { task_queue = t ∷ rest }) meek) [
        | inl (e, failed) ↦ inl (e, run_tasks-fails fuel t rest w e failed)
        | inr (w', extra, done, queue, few) ↦
            subst Drains (sym (run_tasks-step heap app fuel t rest w w' done))
              (drain fuel (popped w').task_queue (popped w') meek (shorter w' extra queue few))
      ]
    where
      shorter :
          (w' : World) (extra : List Task)
          → w'.task_queue ≡ t ∷ rest ++ extra
          → rounds extra ≤ spare t
          → rounds (popped w').task_queue < fuel
      shorter w' extra queue few = omega (
        arith,
        h,
        few,
        rounds-append rest extra,
        ap rounds (
            release-queue (record w' { task_queue = pop_front w'.task_queue })
            ∙ ap pop_front queue),
      )

  -- The loop over the tasks ends, whatever stands in the queue and whatever the state of the
  -- connection, when the answer to the closed callback asks for writes only: with fuel for one round
  -- more than the tasks and the force_close that each write may post, it returns with an empty queue,
  -- unless a task runs into an error.
  pub run_tasks-Drains :
      (fuel : ℕ) (w : World)
      → Meek (app closed_cb)
      → rounds w.task_queue < fuel
      → Drains (run_tasks heap app fuel w)
  run_tasks-Drains fuel w = drain fuel w.task_queue w
