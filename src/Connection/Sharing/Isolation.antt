-- ===== src/Connection/Sharing/Isolation.antt =====
-- Each connection of a loop lives as if it were alone.
use mathlib.Core.Path.{subst, subst₂}
use mathlib.Core.Option.{some_inj}
use mutiplex.Base.{
  ℕ, ◌≡◌, refl, sym, ap, ap₂, ◌∙◌, inl, inr, true, false, Bool-cases, ◌==◌, ==_iff, if◌then◌else◌,
  Always-ok, Bool, Option, ◌&&◌, List, [], ◌++◌, none, some,
}
use mutiplex.Base.Int.{ℤ}
use mutiplex.Base.Memory.{Bytes, Allocator}
use mutiplex.Connection.Context.{World}
use mutiplex.Connection.Tasks.{release, pop_front}
use mutiplex.Connection.Kept.{perform_kept}
use mutiplex.Connection.Kept.Events.{on_event_kept}
use mutiplex.Connection.Posting.{
  Grows, Grows-Laws, Writes-Grows, on_new_connection-Grows, run_task-Grows,
}
use mutiplex.Connection.Execution.{
  configured, refill, accepted, Step, Reachable, reached, next, here,
}
use mutiplex.Connection.Execution as Execution
use mutiplex.Connection.Execution.Soundness.{Sound}
use mutiplex.Connection.Execution.Delivery.{reachable-Sound}
use mutiplex.Connection.Sharing.Queueing.{
  others_queue, own_queue, popped_queue, own_first, others_first, release-queue, release-listed,
  configured-queue,
}
use mutiplex.Connection.Sharing.{
  Posted, Loop, select, tagged, view, posted, put_back, Turn, accept, event, call, task, elsewhere,
  foreign, hold, configure, let_go, put_at, put_under, found, owns, displace_at, displace, finish,
  Served, idle, turn,
}

known : {w : World} → some w ≡ none → ⊥
known e = cc

module _ (heap : Allocator) where
  extend :
      {w v : World} {xs ys : Bytes}
      → Reachable heap w xs
      → Step heap w xs v ys
      → Reachable heap v ys
  extend (reached w0 w1 app bare fresh e steps) step =
      reached w0 w1 app bare fresh e (next steps step)

  -- Each connection is one that steps of its own lead to, and no other one has tasks.
  pub record IsAlone (s : Loop) : Type 0 where
    pub lives :
        (j : ℕ) (w : World) → s.connections j ≡ some w → Reachable heap (view s j w) (s.handed j)
    pub quiet : (j : ℕ) → s.connections j ≡ none → select j s.task_queue ≡ []

  put_back-IsAlone :
      (s : Loop) (i : ℕ) (v : World) (xs : Bytes) (queue : List Posted) (entries : ℤ → Option ℕ)
      → IsAlone s
      → Reachable heap v xs
      → select i queue ≡ v.task_queue
      → ((j : ℕ) → (j == i) ≡ false → select j queue ≡ select j s.task_queue)
      → IsAlone (put_back s i v xs queue entries)
  put_back-IsAlone s i v xs queue entries alone r own others = record {
    lives = lives;
    quiet = quiet;
  }
    where
      after : Loop
      after = put_back s i v xs queue entries

      shown : ℕ → World → World
      shown k u = record u {
        task_queue = select k queue;
        recv_buffer = v.recv_buffer;
        listed = found (entries u.conn.fd);
      }

      quiet : (j : ℕ) → put_at (some v) i s.connections j ≡ none → select j queue ≡ []
      quiet j e = elim (Bool-cases (j == i)) [
        | inl y ↦ absurd (known (ap (λ t. if t then some v else s.connections j) (sym y) ∙ e))
        | inr n ↦
            others j n ∙ alone.quiet j (sym (ap (λ t. if t then some v else s.connections j) n) ∙ e)
      ]

      lives :
          (j : ℕ) (w : World)
          → put_at (some v) i s.connections j ≡ some w
          → Reachable heap (shown j w) (put_at xs i s.handed j)
      lives j w e = elim (Bool-cases (j == i)) [
        | inl y ↦
            let same : v ≡ w =
              some_inj.0 (sym (ap (λ t. if t then some v else s.connections j) y) ∙ e) in
            subst₂ (Reachable heap)
              (ap (λ q. record v { task_queue = q; listed = found (entries v.conn.fd) }) (sym own)
                ∙ ap₂ shown (sym ((==_iff j i).0 y)) same)
              (ap (λ t. if t then xs else s.handed j) (sym y))
              (extend r (Execution.entry (found (entries v.conn.fd))))
        | inr n ↦
            subst₂ (Reachable heap)
              (ap
                (λ q. record w {
                  task_queue = q;
                  recv_buffer = v.recv_buffer;
                  listed = found (entries w.conn.fd);
                })
                (sym (others j n)))
              (ap (λ t. if t then xs else s.handed j) (sym n))
              (extend
                (extend
                  (alone.lives j w (sym (ap (λ t. if t then some v else s.connections j) n) ∙ e))
                  (refill v.recv_buffer))
                (Execution.entry (found (entries w.conn.fd))))
      ]

  -- The one that loses its entry.
  displace_at-IsAlone :
      (s : Loop) (j : ℕ) (o : Option World)
      → s.connections j ≡ o
      → IsAlone s
      → IsAlone (displace_at s j o)
  displace_at-IsAlone s j none has alone = alone
  displace_at-IsAlone s j (some u) has alone =
      let v = record (view s j u) { listed = false } in
      put_back-IsAlone s j (release v) (s.handed j) s.task_queue s.entries alone
        (extend (alone.lives j u has) Execution.displaced) (sym (release-queue v)) (λ k n. refl)

  displace-IsAlone : (s : Loop) (i : ℕ) (o : Option ℕ) → IsAlone s → IsAlone (displace s i o)
  displace-IsAlone s i none alone = alone
  displace-IsAlone s i (some j) alone = elim (Bool-cases (j == i)) [
    | inl y ↦ rw y alone
    | inr n ↦ rw n (displace_at-IsAlone s j (s.connections j) refl alone)
  ]

  -- A connection behind its task goes by its own entry alone.
  settled :
      (x : World) (ys : Bytes) (b : Bool)
      → Reachable heap (release x) ys
      → Reachable heap (release (record x { listed = x.listed && b })) ys
  settled x ys b r = elim (Bool-cases x.listed) [
    | inl y ↦ elim (Bool-cases b) [
      | inl kept ↦
          subst (λ t. Reachable heap (release (record x { listed = t })) ys)
            (y ∙ ap₂ ◌&&◌ (sym y) (sym kept)) r
      | inr lost ↦
          subst (λ t. Reachable heap (release (record x { listed = t })) ys)
            (ap₂ ◌&&◌ (sym y) (sym lost))
            (extend (subst (λ u. Reachable heap u ys) (release-listed x y) r) Execution.displaced)
    ]
    | inr n ↦
        subst (λ t. Reachable heap (release (record x { listed = t })) ys)
          (n ∙ ap (λ t. t && b) (sym n)) r
  ]

  finish-IsAlone :
      (s : Loop) (i : ℕ) (v : World) (ys : Bytes) (queue : List Posted)
      → IsAlone s
      → Reachable heap (release v) ys
      → select i queue ≡ v.task_queue
      → ((j : ℕ) → (j == i) ≡ false → select j queue ≡ select j s.task_queue)
      → IsAlone (finish s i v ys queue)
  finish-IsAlone s i v ys queue alone r own others =
      let own_entry = v.listed && owns (s.entries v.conn.fd) i in
      displace-IsAlone _ i (if v.listed then none else s.entries v.conn.fd) (
        put_back-IsAlone s i (release (record v { listed = own_entry })) ys queue
          (if v.listed then s.entries else put_under none v.conn.fd s.entries) alone
          (settled v ys (owns (s.entries v.conn.fd) i) r)
          (own ∙ sym (release-queue (record v { listed = own_entry }))) others)

  -- A step of connection `i` whose lambdas go behind all tasks.
  behind :
      (s : Loop) (i : ℕ) (w v : World) (ys : Bytes) (entries : ℤ → Option ℕ)
      → IsAlone s
      → Grows (view s i w) v
      → Reachable heap v ys
      → IsAlone (put_back s i v ys (s.task_queue ++ tagged i (posted (view s i w) v)) entries)
  behind s i w v ys entries alone g r =
      put_back-IsAlone s i v ys (s.task_queue ++ tagged i (posted (view s i w) v)) entries alone r
        (own_queue i s.task_queue (view s i w) v refl g)
        (λ j n. others_queue i j s.task_queue (posted (view s i w) v) n)

  Turn-IsAlone : {s s' : Loop} → IsAlone s → Turn heap s s' → IsAlone s'
  Turn-IsAlone {s} alone (accept w0 w i app new bare fresh e) =
      displace-IsAlone _ i (s.entries w.conn.fd) (
        behind s i w0 w [] (put_under (some i) w.conn.fd s.entries) alone
          (Always-ok (Grows (view s i w0)) e (on_new_connection-Grows heap app (view s i w0)))
          (reached (view s i w0) w app bare fresh e here))
  Turn-IsAlone {s} alone (event w w' i app answer kernel ready has honest alive e) =
      behind s i w w' (s.handed i) s.entries alone
        (Always-ok (Grows (view s i w)) e (
          on_event_kept Grows-Laws heap app kernel (Writes-Grows kernel) answer ready (view s i w)))
        (extend (alone.lives i w has) (Execution.event app answer kernel ready honest alive e))
  Turn-IsAlone {s} alone (call w w' i app asked has alive e) =
      behind s i w w' (s.handed i) s.entries alone
        (Always-ok (Grows (view s i w)) e (perform_kept Grows-Laws heap app asked (view s i w)))
        (extend (alone.lives i w has) (Execution.call app asked alive e))
  Turn-IsAlone {s} alone (task w w' i app t rest front has fits e) =
      let u = view s i w in
      let left = record w' { task_queue = pop_front w'.task_queue } in
      let g = Always-ok (Grows u) e (run_task-Grows heap app t u) in
      let first = ap (select i) front ∙ own_first i t rest in
      finish-IsAlone s i left (s.handed i ++ accepted w.conn.state t)
        (rest ++ tagged i (posted u w')) alone
        (extend (alone.lives i w has) (Execution.task app t (select i rest) first fits e))
        (popped_queue i t rest u w' first g)
        (λ j n.
          others_queue i j rest (posted u w') n
          ∙ sym (ap (select j) front ∙ others_first i j t rest n))
  Turn-IsAlone alone (elsewhere i t) = record { lives = alone.lives; quiet = alone.quiet }
  Turn-IsAlone {s} alone (foreign w w' i app t rest front has alive fits e) =
      let u = view s i w in
      let g = Always-ok (Grows u) e (run_task-Grows heap app t u) in
      finish-IsAlone (record s { pending = rest }) i w' (s.handed i ++ accepted w.conn.state t)
        (s.task_queue ++ tagged i (posted u w'))
        (record { lives = alone.lives; quiet = alone.quiet })
        (extend (alone.lives i w has) (Execution.foreign app t alive fits e))
        (own_queue i s.task_queue u w' refl g)
        (λ j n. others_queue i j s.task_queue (posted u w') n)
  Turn-IsAlone {s} alone (hold w i has alive) =
      put_back-IsAlone s i (record (view s i w) { held = true }) (s.handed i) s.task_queue s.entries
        alone (extend (alone.lives i w has) (Execution.hold alive)) refl (λ j n. refl)
  Turn-IsAlone {s} alone (configure w i at_open at_read at_close at_error has alive) =
      put_back-IsAlone s i (configured (view s i w) at_open at_read at_close at_error) (s.handed i)
        s.task_queue s.entries alone
        (extend (alone.lives i w has) (Execution.configure at_open at_read at_close at_error alive))
        (configured-queue (view s i w) at_open at_read at_close at_error) (λ j n. refl)
  Turn-IsAlone {s} alone (let_go w i has) =
      let mine = owns (s.entries w.conn.fd) i in
      let v = record (view s i w) { held = false; listed = mine } in
      put_back-IsAlone s i (release v) (s.handed i) s.task_queue s.entries alone
        (extend (extend (alone.lives i w has) (Execution.entry mine)) Execution.let_go)
        (sym (release-queue v)) (λ j n. refl)

  pub Served-IsAlone : {s : Loop} → Served heap s → IsAlone s
  unfolding select
  Served-IsAlone (idle bare unlisted none_left) = record {
    lives = λ j w e. absurd (known (sym e ∙ bare j));
    quiet = λ j e. ap (select j) none_left;
  }
  Served-IsAlone (turn before step) = Turn-IsAlone (Served-IsAlone before) step

  -- On a loop that started without connections and tasks and has taken on any number of them,
  -- whatever happened to them, in any order of arrivals, events, calls, tasks, tasks of other
  -- threads, and pointers, in which a connection may take or erase the entry of another one of the
  -- same descriptor in `connections_`, which destroys it where nothing else keeps it, as long as
  -- every step returned, and every write that ran fitted: into a new buffer, or into the one there
  -- was, as it was, or grown to at most 2^31 bytes unless it was full with `in_` at index 0: of
  -- each connection the event source is there, the buffer is valid if there is one, and the bytes
  -- that it sent, followed by those that it holds, are the bytes that this connection was handed,
  -- in their order, none of another one's among them. Only when it is closed may bytes at the end
  -- have been thrown away, and then it holds none.
  pub served-Sound :
      {s : Loop} {w : World} (i : ℕ)
      → Served heap s
      → s.connections i ≡ some w
      → Sound (view s i w) (s.handed i)
  served-Sound {w = w} i served has = reachable-Sound heap ((Served-IsAlone served).lives i w has)
