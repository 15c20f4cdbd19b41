-- ===== src/TcpServer/Threads/Ending.antt =====
-- TcpServer::~TcpServer: the threads are joined, and then their loops are deleted.
use mutiplex.Base.{
  Bool, true, false, Result, ok, err, dangling, List, [], ◌∷◌, if◌then◌else◌, Option, some, none,
}
use mutiplex.TcpServer.Threads.{Thread, finished, One, Ends}

-- Whether every `threads_[i].join()` returns at once: that of a thread that has not terminated waits
-- for it.
pub join_all : List Thread → Bool
join_all [] = true
join_all (finished ∷ rest) = join_all rest
join_all (_ ∷ rest) = false

-- delete of the loops; a loop that its thread, or the acceptor of its thread, still uses would be gone
-- under it.
pub delete_loops : List Thread → Result (Unit {0})
delete_loops [] = ok tt
delete_loops (finished ∷ rest) = delete_loops rest
delete_loops (_ ∷ rest) = err dangling

-- `none` where the destructor has to wait.
pub destroy : List Thread → Option (Result (Unit {0}))
unfolding join_all delete_loops
destroy threads = if join_all threads then some (delete_loops threads) else none

-- Steps of which each is the end of a thread that has decremented the count.
pub data Winding (ts : List Thread) : List Thread → Type 0 where
  wound : Winding ts ts
  winds : {us vs : List Thread} → Winding ts us → One Ends us vs → Winding ts vs
