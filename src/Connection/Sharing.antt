-- ===== src/Connection/Sharing.antt =====
-- Any number of connections on one loop (EventLoop.h: `connections_`, `task_queue_`,
-- `pending_callbacks_`, `recv_buffer_`). What a connection does is `Execution`'s; here its tasks stand
-- among those of the others, in the order in which they were posted, and all read into one buffer.
pub mod Queueing
pub mod Own
pub mod Isolation
pub mod Arrival
mod Tests
use mutiplex.Base.{
  ℕ, ◌≤◌, ◌≡◌, Bool, true, false, ok, ◌==◌, ◌&&◌, if◌then◌else◌, List, [], ◌∷◌, ◌++◌, drop, length,
  Option, none, some,
}
use mutiplex.Base.Int.{ℤ, leb_ℤ}
use mutiplex.Base.Memory.{Bytes, Allocator}
use mutiplex.ByteBuffer.{ByteBuffer}
use mutiplex.Connection.Context.{Callback, Request, Task, World}
use mutiplex.Connection.{on_new_connection, perform}
use mutiplex.Connection.Tasks.{run_task, release, pop_front}
use mutiplex.Connection.Events.{on_event}
use mutiplex.Connection.Execution.{accepted, configured, Fits}

-- A task, with the number of its connection.
abbrev pub Posted : Type 0
Posted = ℕ × Task

-- The connections by their numbers, in the order of their arrival or any other, with the bytes that
-- each has been handed; the tasks of the loop, and those that other threads have posted.
-- `entries` is `connections_`: under a descriptor, the number of the connection that was listed last.
pub record Loop : Type 0 where
  pub connections : ℕ → Option World
  pub entries : ℤ → Option ℕ
  pub handed : ℕ → Bytes
  pub task_queue : List Posted
  pub pending : List Posted
  pub recv_buffer : Option ByteBuffer

abbrev pub put_at {ℓ} : {A : Type ℓ} → A → ℕ → (ℕ → A) → ℕ → A
put_at a i f j = if j == i then a else f j

-- The tasks of one connection.
pub select : ℕ → List Posted → List Task
select i [] = []
select i ((j, t) ∷ rest) = if i == j then t ∷ select i rest else select i rest

pub tagged : ℕ → List Task → List Posted
tagged i [] = []
tagged i (t ∷ ts) = (i, t) ∷ tagged i ts

abbrev pub put_under : Option ℕ → ℤ → (ℤ → Option ℕ) → ℤ → Option ℕ
put_under entry fd entries fd' = if leb_ℤ fd fd' && leb_ℤ fd' fd then entry else entries fd'

-- connections_.find(fd) != connections_.end()
abbrev pub found : Option ℕ → Bool
found none = false
found (some i) = true

-- Whether an entry is that of connection `i`.
abbrev pub owns : Option ℕ → ℕ → Bool
owns none i = false
owns (some j) i = j == i

-- A connection as it sees the loop; it finds any entry under its descriptor.
abbrev pub view : Loop → ℕ → World → World
view s i w = record w {
  task_queue = select i s.task_queue;
  recv_buffer = s.recv_buffer;
  listed = found (s.entries w.conn.fd);
}

-- What was posted on the way from `u` to `v`.
abbrev pub posted : World → World → List Task
posted u v = drop (length u.task_queue) v.task_queue

-- The loop once connection `i` has become `v`, has been handed `xs` in all, and `queue` and `entries`
-- are left.
abbrev pub put_back : Loop → ℕ → World → Bytes → List Posted → (ℤ → Option ℕ) → Loop
put_back s i v xs queue entries = record s {
  connections = put_at (some v) i s.connections;
  entries = entries;
  handed = put_at xs i s.handed;
  task_queue = queue;
  recv_buffer = v.recv_buffer;
}

-- A step of connection `i`, which posts behind the tasks of all, and leaves `connections_` alone.
abbrev pub advance : Loop → ℕ → World → World → Loop
advance s i u v = put_back s i v (s.handed i) (s.task_queue ++ tagged i (posted u v)) s.entries

-- Another connection than `i` that had the entry loses it, and is destroyed where nothing else
-- keeps it.
abbrev pub displace_at : Loop → ℕ → Option World → Loop
displace_at s j none = s
displace_at s j (some u) =
    put_back s j (release (record (view s j u) { listed = false })) (s.handed j) s.task_queue
      s.entries

abbrev pub displace : Loop → ℕ → Option ℕ → Loop
displace s i none = s
displace s i (some j) = if j == i then s else displace_at s j (s.connections j)

-- connections_[conn->fd()] = conn, for a new connection `v` with the number `i`.
abbrev pub arrive : Loop → ℕ → World → List Posted → Loop
arrive s i v queue =
    displace (put_back s i v [] queue (put_under (some i) v.conn.fd s.entries)) i
      (s.entries v.conn.fd)

-- The loop behind a task of connection `i` that has left it as `v`, with connections_.erase(fd) if
-- `v` is not listed any more.
abbrev pub finish : Loop → ℕ → World → Bytes → List Posted → Loop
finish s i v xs queue =
    displace
      (put_back s i (release (record v { listed = v.listed && owns (s.entries v.conn.fd) i })) xs
        queue (if v.listed then s.entries else put_under none v.conn.fd s.entries))
      i (if v.listed then none else s.entries v.conn.fd)

-- What one connection does in the loop. An application may call other connections in a callback; such a
-- call is a step of its own.
pub data Turn (heap : Allocator) : Loop → Loop → Type 0 where
  accept :
      {s : Loop} (w0 w : World) (i : ℕ) (app : Callback → List Request)
      → s.connections i ≡ none
      → w0.conn.buffer_out ≡ none
      → w0.events ≡ []
      → on_new_connection heap app (view s i w0) ≡ ok w
      → Turn heap s (arrive s i w (s.task_queue ++ tagged i (posted (view s i w0) w)))
  event :
      {s : Loop} (w w' : World) (i : ℕ) (app : Callback → List Request) (answer : Option Bytes)
      (kernel : Bytes → Option ℕ) (ready : ℕ)
      → s.connections i ≡ some w
      → ((ys : Bytes) (n : ℕ) → kernel ys ≡ some n → n ≤ length ys)
      → w.destroyed ≡ false
      → on_event heap app answer kernel ready (view s i w) ≡ ok w'
      → Turn heap s (advance s i (view s i w) w')
  call :
      {s : Loop} (w w' : World) (i : ℕ) (app : Callback → List Request) (asked : List Request)
      → s.connections i ≡ some w
      → w.destroyed ≡ false
      → perform heap app (view s i w) asked ≡ ok w'
      → Turn heap s (advance s i (view s i w) w')
  -- The task at the front runs, and leaves the queue.
  task :
      {s : Loop} (w w' : World) (i : ℕ) (app : Callback → List Request) (t : Task)
      (rest : List Posted)
      → s.task_queue ≡ (i, t) ∷ rest
      → s.connections i ≡ some w
      → Fits t (view s i w)
      → run_task heap app t (view s i w) ≡ ok w'
      → Turn heap s (
          finish s i
            (record w' { task_queue = pop_front w'.task_queue })
            (s.handed i ++ accepted w.conn.state t)
            (rest ++ tagged i (posted (view s i w) w')))
  -- A call on another thread leaves its task, and the loop takes the first of these.
  elsewhere :
      {s : Loop} (i : ℕ) (t : Task) → Turn heap s (record s { pending = s.pending ++ (i, t) ∷ [] })
  foreign :
      {s : Loop} (w w' : World) (i : ℕ) (app : Callback → List Request) (t : Task)
      (rest : List Posted)
      → s.pending ≡ (i, t) ∷ rest
      → s.connections i ≡ some w
      → w.destroyed ≡ false
      → Fits t (view s i w)
      → run_task heap app t (view s i w) ≡ ok w'
      → Turn heap s (
          finish
            (record s { pending = rest })
            i
            w'
            (s.handed i ++ accepted w.conn.state t)
            (s.task_queue ++ tagged i (posted (view s i w) w')))
  hold :
      {s : Loop} (w : World) (i : ℕ)
      → s.connections i ≡ some w
      → w.destroyed ≡ false
      → Turn heap s
          (put_back s i (record (view s i w) { held = true }) (s.handed i) s.task_queue s.entries)
  configure :
      {s : Loop} (w : World) (i : ℕ) (at_open at_read at_close at_error : Bool)
      → s.connections i ≡ some w
      → w.destroyed ≡ false
      → Turn heap s (
          put_back s i
            (configured (view s i w) at_open at_read at_close at_error)
            (s.handed i)
            s.task_queue
            s.entries)
  let_go :
      {s : Loop} (w : World) (i : ℕ)
      → s.connections i ≡ some w
      → Turn heap s (
          put_back s i
            (release (record (view s i w) { held = false; listed = owns (s.entries w.conn.fd) i }))
            (s.handed i)
            s.task_queue
            s.entries)

-- From a loop that has no connection and no task yet.
pub data Served (heap : Allocator) : Loop → Type 0 where
  idle :
      {s : Loop}
      → ((i : ℕ) → s.connections i ≡ none)
      → ((fd : ℤ) → s.entries fd ≡ none)
      → s.task_queue ≡ []
      → Served heap s
  turn : {s s' : Loop} → Served heap s → Turn heap s s' → Served heap s'
