-- ===== src/Connection/Execution/Delivery.antt =====
-- A connection over its whole life: what it sends is what it was handed.
use mathlib.Core.Path.{subst}
use mutiplex.Base.{
  ◌≡◌, refl, sym, ap, ap₂, ◌∙◌, Bool, true, false, ok, Always-map, Always-ok, List, [], ◌++◌,
  append-nil, none,
}
use mutiplex.Base.Memory.{Bytes, Allocator}
use mutiplex.EventSource
use mutiplex.Connection.Context.{closed, Callback, established, Request, World}
use mutiplex.Connection.{on_new_connection, register_event}
use mutiplex.Connection.Tasks.{release, pop_front}
use mutiplex.Connection.Stream.{sent_bytes, held_bytes, with_source-Keeps}
use mutiplex.Connection.Steady.{
  same-Steady, IsSound, Steady, perform-Steady, invoke-Steady, then-Steady,
}
use mutiplex.Connection.Steady.{on_event-Steady}
use mutiplex.Connection.Execution.{
  accepted, Step, event, call, task, hold, let_go, entry, displaced, refill, configure, foreign,
  configure, Steps, here, next, Reachable, reached,
}
use mutiplex.Connection.Execution.Soundness.{
  configured-Steady, Sound, Follows, Steady-Follows, then-Follows,
}
use mutiplex.Connection.Execution.TaskSteps.{run_task-Follows}
use mutiplex.Connection.Steady.Release.{release-Steady}

same-Follows : {w : World} {xs : Bytes} → Sound w xs → Follows w xs w xs
same-Follows s = record { sound = s; final = λ c. (c, refl, refl) }

-- What the release of a pointer, behind a step, does.
released-Follows :
    {w u : World} {xs ys : Bytes} (v : World)
    → Follows w xs u ys
    → Steady u v
    → Follows w xs (release v) ys
released-Follows v a b =
    then-Follows a (Steady-Follows a.sound (then-Steady b (release-Steady v b.ready b.sound)))

-- The connection after register_event.
begun-Sound :
    (w : World) (listed : Bool)
    → w.conn.buffer_out ≡ none
    → w.events ≡ []
    → Sound (record (register_event w) { listed = listed }) []
unfolding register_event sent_bytes
begun-Sound w listed bare fresh = record {
  ready = tt;
  valid = subst IsSound (sym bare) tt;
  hollow = λ c. cc;
  lost = [];
  split =
      append-nil _
      ∙ ap₂ (λ xs o. xs ++ held_bytes o)
          (with_source-Keeps w (EventSource.enable_reading (EventSource.new w.conn.fd))
            ∙ ap sent_bytes fresh)
          bare;
  exact = λ n. refl;
}

module _ (heap : Allocator) where
  Step-Follows :
      {w : World} {xs : Bytes} {w' : World} {ys : Bytes}
      → Sound w xs
      → Step heap w xs w' ys
      → Follows w xs w' ys
  Step-Follows {w} s (event app answer kernel ready honest alive e) = Steady-Follows s (
      Always-ok (Steady w) e
        (on_event-Steady heap app kernel honest answer ready w s.ready s.valid))
  Step-Follows {w} s (call app asked alive e) =
      Steady-Follows s (Always-ok (Steady w) e (perform-Steady heap app asked w s.ready s.valid))
  Step-Follows {w} {xs} s (task {w' = w'} app t rest queue fits e) =
      let a =
        Always-ok (λ v. Follows w xs v (xs ++ accepted w.conn.state t)) e
          (run_task-Follows heap app t w xs s fits) in
      released-Follows (record w' { task_queue = pop_front w'.task_queue }) a
        (record {
          ready = a.sound.ready;
          sound = a.sound.valid;
          streams = refl;
          hollow = λ h. h;
          state = refl;
        })
  Step-Follows {w} {xs} s (foreign {w' = w'} app t alive fits e) =
      let a =
        Always-ok (λ v. Follows w xs v (xs ++ accepted w.conn.state t)) e
          (run_task-Follows heap app t w xs s fits) in
      released-Follows w' a (same-Steady w' a.sound.ready a.sound.valid)
  Step-Follows {w} s (hold alive) =
      Steady-Follows s
        (record { ready = s.ready; sound = s.valid; streams = refl; hollow = λ h. h; state = refl })
  Step-Follows {w} s let_go =
      released-Follows (record w { held = false }) (same-Follows s)
        (record { ready = s.ready; sound = s.valid; streams = refl; hollow = λ h. h; state = refl })
  Step-Follows {w} s (entry listed) =
      Steady-Follows s
        (record { ready = s.ready; sound = s.valid; streams = refl; hollow = λ h. h; state = refl })
  Step-Follows {w} s displaced =
      released-Follows (record w { listed = false }) (same-Follows s)
        (record { ready = s.ready; sound = s.valid; streams = refl; hollow = λ h. h; state = refl })
  Step-Follows {w} s (configure at_open at_read at_close at_error alive) =
      Steady-Follows s (configured-Steady w at_open at_read at_close at_error s.ready s.valid)
  Step-Follows {w} s (refill buffer) =
      Steady-Follows s
        (record { ready = s.ready; sound = s.valid; streams = refl; hollow = λ h. h; state = refl })

  Steps-Follows :
      {w : World} {xs : Bytes} {w' : World} {ys : Bytes}
      → Sound w xs
      → Steps heap w xs w' ys
      → Follows w xs w' ys
  Steps-Follows s here = same-Follows s
  Steps-Follows s (next before step) =
      let a = Steps-Follows s before in then-Follows a (Step-Follows a.sound step)

  started-Sound :
      (w0 w1 : World) (app : Callback → List Request)
      → w0.conn.buffer_out ≡ none
      → w0.events ≡ []
      → on_new_connection heap app w0 ≡ ok w1
      → Sound w1 []
  unfolding on_new_connection
  started-Sound w0 w1 app bare fresh e =
      let w = record (register_event w0) { listed = true } in
      let s = begun-Sound w0 true bare fresh in
      Always-ok (λ v. Sound v []) e
        (Always-map (Steady w) (λ v. Sound v []) _ (λ v a. (Steady-Follows s a).sound)
          (invoke-Steady heap app w.conn.established_callback established w s.ready s.valid))

  -- Whatever happened to a connection since its loop took it on, in any order of events, calls,
  -- tasks, tasks of other threads, pointers that come and go, and changes of its entry in
  -- `connections_` by others, as long as every step returned, and every write that ran fitted: into
  -- a new buffer, or into the one there was, as it was, or grown to at most 2^31 bytes unless it
  -- was full with `in_` at index 0: its event source is there, its buffer is valid if there is one,
  -- and the bytes that it sent, followed by those that it holds, are the bytes that it was handed,
  -- in their order, none twice and none left out. Only when it is closed may bytes at the end have
  -- been thrown away, and then it holds none.
  pub reachable-Sound : {w : World} {xs : Bytes} → Reachable heap w xs → Sound w xs
  reachable-Sound (reached w0 w1 app bare fresh e steps) =
      (Steps-Follows (started-Sound w0 w1 app bare fresh e) steps).sound

  -- A connection that is closed, after any steps since its loop took it on in which every write that
  -- ran fitted: into a new buffer, or into the one there was, as it was, or grown to at most 2^31 bytes
  -- unless it was full with `in_` at index 0. In all further steps of this kind it stays closed, sends
  -- no byte more, whatever is written to it, and holds none.
  pub closed-silent :
      {w : World} {xs : Bytes} {w' : World} {ys : Bytes}
      → Reachable heap w xs
      → w.conn.state ≡ closed
      → Steps heap w xs w' ys
      → (w'.conn.state ≡ closed)
        × (sent_bytes w'.events ≡ sent_bytes w.events)
        × (held_bytes w'.conn.buffer_out ≡ [])
  closed-silent r c steps =
      let a = Steps-Follows (reachable-Sound r) steps in
      let (still, sent, same) = a.final c in (still, sent, a.sound.hollow still)
