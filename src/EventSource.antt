-- ===== src/EventSource.antt =====
-- src/EventSource.h and src/EventSource.cpp: what a file descriptor is watched for. `epoll_ctl` is
-- outside: a call returns the requests it makes of it, in order.
pub mod Protocol
pub mod Fresh
pub mod Dispatch
mod Tests
use mutiplex.Base.{
  ℕ, ◌-◌, ◌^◌, Bool, true, false, not, ◌==◌, if◌then◌else◌, List, [], ◌∷◌, bit_and, bit_or, Option,
  none, some,
}
use mutiplex.Base.Int.{ℤ}

pub data SourceState : Type 0 where
  no_event registered : SourceState

pub record EventSource : Type 0 where
  pub state : SourceState
  pub fd : ℤ
  pub interest_ops : ℕ
  pub ready_ops : ℕ

-- The requests of EventLoop::register_event, modify_event and unregister_event.
pub data EpollCall : Type 0 where
  add : ℤ → ℕ → EpollCall
  modify : ℤ → ℕ → EpollCall
  delete : ℤ → ℕ → EpollCall

abbrev pub epollin : ℕ
epollin = 0x001

abbrev pub epollout : ℕ
epollout = 0x004

abbrev pub epollerr : ℕ
epollerr = 0x008

abbrev pub epollhup : ℕ
epollhup = 0x010

abbrev pub has_ops : ℕ → ℕ → Bool
has_ops ops op = not (bit_and ops op == 0)

-- loop_->register_event(this), and so on.
register_event : EventSource → List EpollCall
register_event ev = add ev.fd ev.interest_ops ∷ []

modify_event : EventSource → List EpollCall
modify_event ev = modify ev.fd ev.interest_ops ∷ []

unregister_event : EventSource → List EpollCall
unregister_event ev = delete ev.fd ev.interest_ops ∷ []

pub new : ℤ → EventSource
new fd = record { state = no_event; fd = fd; interest_ops = 0; ready_ops = 0 }

register_or_modify : SourceState → EventSource → EventSource × List EpollCall
unfolding register_event modify_event
register_or_modify no_event ev =
    let ev' = record ev { state = registered } in (ev', register_event ev')
register_or_modify registered ev = (ev, modify_event ev)

pub enable_ops : EventSource → ℕ → EventSource × List EpollCall
unfolding register_or_modify
enable_ops ev op =
    let ev' = record ev { interest_ops = bit_or ev.interest_ops op } in
    if ev'.interest_ops == 0 then (ev', []) else register_or_modify ev'.state ev'

pub disable_ops : EventSource → ℕ → EventSource × List EpollCall
unfolding unregister_event modify_event
disable_ops ev op =
    let ev' = record ev { interest_ops = bit_and ev.interest_ops (2 ^ 32 - 1 - op) } in
    if ev'.interest_ops == 0
    then (record ev' { state = no_event }, unregister_event ev')
    else (ev', modify_event ev')

disable_all_at : SourceState → EventSource → EventSource × List EpollCall
unfolding unregister_event
disable_all_at registered ev = (record ev { state = no_event }, unregister_event ev)
disable_all_at no_event ev = (ev, [])

pub disable_all : EventSource → EventSource × List EpollCall
unfolding disable_all_at
disable_all ev = disable_all_at ev.state (record ev { interest_ops = 0 })

pub enable_reading : EventSource → EventSource × List EpollCall
unfolding enable_ops
enable_reading ev = enable_ops ev epollin

pub disable_reading : EventSource → EventSource × List EpollCall
unfolding disable_ops
disable_reading ev = disable_ops ev epollin

pub enable_writing : EventSource → EventSource × List EpollCall
unfolding enable_ops
enable_writing ev = enable_ops ev epollout

pub disable_writing : EventSource → EventSource × List EpollCall
unfolding disable_ops
disable_writing ev = disable_ops ev epollout

pub set_ready_ops : EventSource → ℕ → EventSource
set_ready_ops ev ops = record ev { ready_ops = ops }

pub set_interest_ops : EventSource → ℕ → EventSource
set_interest_ops ev ops = record ev { interest_ops = ops }

-- The callbacks of a source; `none` is an empty std::function. A callback changes the state `S` of
-- the program, and so does `disable_all` of the source.
pub record Callbacks (S : Type 0) : Type 0 where
  pub read_callback : Option (S → S)
  pub write_callback : Option (S → S)
  pub close_callback : Option (S → S)
  pub error_callback : Option (S → S)

module _ {S : Type 0} where
  -- The callback, if its event is ready and it is set.
  abbrev pub on_event : Bool → Option (S → S) → Option (S → S)
  on_event true callback = callback
  on_event false callback = none

  abbrev pub run_if_set : Option (S → S) → S → S
  run_if_set none s = s
  run_if_set (some handle) s = handle s

  read_then_write : Callbacks S → ℕ → S → S
  read_then_write cb ready s =
      run_if_set (on_event (has_ops ready epollout) cb.write_callback)
        (run_if_set (on_event (has_ops ready epollin) cb.read_callback) s)

  -- A callback that is run is followed by disable_all() and a return.
  abbrev pub or_else : Option (S → S) → (S → S) → S → S → S
  or_else (some handle) disable s rest = disable (handle s)
  or_else none disable s rest = rest

  closed_or_ready : (S → S) → Callbacks S → ℕ → S → S
  unfolding read_then_write
  closed_or_ready disable cb ready s =
      or_else (on_event (has_ops ready epollhup) cb.close_callback) disable s
        (read_then_write cb ready s)

  pub handle_events : (S → S) → Callbacks S → ℕ → S → S
  unfolding closed_or_ready
  handle_events disable cb ready s =
      or_else (on_event (has_ops ready epollerr) cb.error_callback) disable s
        (closed_or_ready disable cb ready s)
