-- ===== src/EventSource/Fresh.antt =====
-- The first changes of a new source, and taking back the only event that it asks for.
use mutiplex.Base.{ℕ, ◌≡◌, refl, [], ◌∷◌}
use mutiplex.Base.Int.{ℤ}
use mutiplex.EventSource.{
  EventSource, registered, no_event, add, delete, epollin, epollout, new, enable_ops, disable_ops,
  enable_reading, enable_writing, disable_writing, disable_all,
}

-- A source that asks for `ops`, and epoll knows it.
abbrev pub watching : ℤ → ℕ → EventSource
watching fd ops = record { state = registered; fd = fd; interest_ops = ops; ready_ops = 0 }

abbrev pub idle : ℤ → EventSource
idle fd = record { state = no_event; fd = fd; interest_ops = 0; ready_ops = 0 }

pub enable_reading-new :
    (fd : ℤ) → enable_reading (new fd) ≡ (watching fd epollin, add fd epollin ∷ [])
unfolding enable_reading enable_ops new
enable_reading-new fd = refl

pub enable_writing-new :
    (fd : ℤ) → enable_writing (new fd) ≡ (watching fd epollout, add fd epollout ∷ [])
unfolding enable_writing enable_ops new
enable_writing-new fd = refl

pub disable_writing-watching :
    (fd : ℤ) → disable_writing (watching fd epollout) ≡ (idle fd, delete fd 0 ∷ [])
unfolding disable_writing disable_ops
disable_writing-watching fd = refl

pub disable_all-watching :
    (fd : ℤ) (ops : ℕ) → disable_all (watching fd ops) ≡ (idle fd, delete fd 0 ∷ [])
unfolding disable_all
disable_all-watching fd ops = refl

pub disable_all-idle : (fd : ℤ) → disable_all (idle fd) ≡ (idle fd, [])
unfolding disable_all
disable_all-idle fd = refl
