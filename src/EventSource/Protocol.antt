-- ===== src/EventSource/Protocol.antt =====
-- The requests that a source makes of epoll, against what epoll accepts: ADD for a descriptor that is
-- not watched, MOD and DEL for one that is.
use mathlib.Core.Path.{subst}
use mutiplex.Base.{
  ℕ, ◌≡◌, ◌⊎◌, inl, inr, sym, refl, ap, ◌∙◌, ◌++◌, Option-cases, List, [], ◌∷◌, Option, none, some,
  arith,
}
use mutiplex.Base.Int.{ℤ}
use mutiplex.EventSource.{
  EventSource, SourceState, no_event, registered, EpollCall, add, modify, delete, disable_all,
  enable_reading, disable_reading, enable_writing, disable_writing, set_interest_ops,
}

-- What epoll watches a descriptor for: `none` if it does not watch it.
abbrev pub Watch : Type 0
Watch = Option ℕ

-- The watch after a request, or `none` where epoll_ctl answers EEXIST or ENOENT.
pub accept : Watch → EpollCall → Option Watch
accept none (add fd ops) = some (some ops)
accept (some old) (modify fd ops) = some (some ops)
accept (some old) (delete fd ops) = some none
accept _ _ = none

pub replay : Watch → List EpollCall → Option Watch
unfolding accept
replay w [] = some w
replay w (call ∷ calls) = elim (accept w call) [ none ↦ none | some w' ↦ replay w' calls ]

-- The six ways in which the library changes a source; the last is interest_ops(0).
pub data Change : Type 0 where
  read_on write_on read_off write_off all_off silenced : Change

unfoldable pub apply : EventSource → Change → EventSource × List EpollCall
unfolding enable_reading enable_writing disable_reading disable_writing disable_all set_interest_ops
apply ev read_on = enable_reading ev
apply ev write_on = enable_writing ev
apply ev read_off = disable_reading ev
apply ev write_off = disable_writing ev
apply ev all_off = disable_all ev
apply ev silenced = (set_interest_ops ev 0, [])

-- EPOLLIN, EPOLLOUT or both.
abbrev pub Interest : ℕ → Type 0
Interest ops = (ops ≡ 1) ⊎ (ops ≡ 4) ⊎ (ops ≡ 5)

-- What epoll watches, for a source in that state and with that interest: nothing; what the source is
-- interested in; or, where interest_ops(0) has left it none, still some events.
abbrev pub Tracks : SourceState → ℕ → Watch → Type 0
Tracks no_event ops w = (w ≡ none) × (ops ≡ 0)
Tracks registered ops w =
    ((w ≡ some ops) × Interest ops) ⊎ ((ops ≡ 0) × (old : ℕ) × (w ≡ some old) × Interest old)

-- Reading or writing is switched off only on a source that is registered.
abbrev pub Allowed : SourceState → Change → Type 0
Allowed no_event read_off = ⊥
Allowed no_event write_off = ⊥
Allowed _ _ = Unit {0}

abbrev pub Accepted : Watch → EventSource × List EpollCall → Type 0
Accepted w (ev, calls) =
    (w' : Watch) × (replay w calls ≡ some w') × Tracks ev.state ev.interest_ops w'

interest_cases {ℓ} :
    (P : ℕ → Type ℓ) → P 1 → P 4 → P 5 → (ops : ℕ) → (ops ≡ 1) ⊎ (ops ≡ 4) ⊎ (ops ≡ 5) → P ops
interest_cases P a b c ops (inl e) = subst P (sym e) a
interest_cases P a b c ops (inr (inl e)) = subst P (sym e) b
interest_cases P a b c ops (inr (inr e)) = subst P (sym e) c

abbrev source : SourceState → ℤ → ℕ → ℕ → EventSource
source s fd ready ops = record { state = s; fd = fd; interest_ops = ops; ready_ops = ready }

apply-Accepted_at :
    (s : SourceState) (fd : ℤ) (ready ops : ℕ) (w : Watch) (change : Change)
    → Tracks s ops w
    → Allowed s change
    → Accepted w (apply (source s fd ready ops) change)
unfolding apply replay
apply-Accepted_at no_event fd ready ops w read_on (e, z) a =
    rw (e, z) (some 1, refl, inl (refl, inl refl))
apply-Accepted_at no_event fd ready ops w write_on (e, z) a =
    rw (e, z) (some 4, refl, inl (refl, inr (inl refl)))
apply-Accepted_at no_event fd ready ops w read_off (e, z) a = absurd a
apply-Accepted_at no_event fd ready ops w write_off (e, z) a = absurd a
apply-Accepted_at no_event fd ready ops w all_off (e, z) a = rw e (none, refl, (refl, refl))
apply-Accepted_at no_event fd ready ops w silenced (e, z) a = (w, refl, (e, refl))
apply-Accepted_at registered fd ready ops w read_on (inl (e, i)) a = rw e (
    interest_cases (λ o. Accepted (some o) (apply (source registered fd ready o) read_on))
      (some 1, refl, inl (refl, inl refl)) (some 5, refl, inl (refl, inr (inr refl)))
      (some 5, refl, inl (refl, inr (inr refl))) ops i)
apply-Accepted_at registered fd ready ops w write_on (inl (e, i)) a = rw e (
    interest_cases (λ o. Accepted (some o) (apply (source registered fd ready o) write_on))
      (some 5, refl, inl (refl, inr (inr refl))) (some 4, refl, inl (refl, inr (inl refl)))
      (some 5, refl, inl (refl, inr (inr refl))) ops i)
apply-Accepted_at registered fd ready ops w read_off (inl (e, i)) a = rw e (
    interest_cases (λ o. Accepted (some o) (apply (source registered fd ready o) read_off))
      (none, refl, (refl, refl)) (some 4, refl, inl (refl, inr (inl refl)))
      (some 4, refl, inl (refl, inr (inl refl))) ops i)
apply-Accepted_at registered fd ready ops w write_off (inl (e, i)) a = rw e (
    interest_cases (λ o. Accepted (some o) (apply (source registered fd ready o) write_off))
      (some 1, refl, inl (refl, inl refl)) (none, refl, (refl, refl))
      (some 1, refl, inl (refl, inl refl)) ops i)
apply-Accepted_at registered fd ready ops w all_off (inl (e, i)) a = rw e (none, refl, (refl, refl))
apply-Accepted_at registered fd ready ops w silenced (inl (e, i)) a =
    (w, refl, inr (refl, ops, e, i))
apply-Accepted_at registered fd ready ops w read_on (inr (z, old, e, i)) a =
    rw (e, z) (some 1, refl, inl (refl, inl refl))
apply-Accepted_at registered fd ready ops w write_on (inr (z, old, e, i)) a =
    rw (e, z) (some 4, refl, inl (refl, inr (inl refl)))
apply-Accepted_at registered fd ready ops w read_off (inr (z, old, e, i)) a =
    rw (e, z) (none, refl, (refl, refl))
apply-Accepted_at registered fd ready ops w write_off (inr (z, old, e, i)) a =
    rw (e, z) (none, refl, (refl, refl))
apply-Accepted_at registered fd ready ops w all_off (inr (z, old, e, i)) a =
    rw e (none, refl, (refl, refl))
apply-Accepted_at registered fd ready ops w silenced (inr (z, old, e, i)) a =
    (w, refl, inr (refl, old, e, i))

-- Every allowed change makes only requests that epoll accepts.
pub apply-Accepted :
    (ev : EventSource) (w : Watch) (change : Change)
    → Tracks ev.state ev.interest_ops w
    → Allowed ev.state change
    → Accepted w (apply ev change)
apply-Accepted ev w change = apply-Accepted_at ev.state ev.fd ev.ready_ops ev.interest_ops w change

refused_at :
    (s : SourceState) (fd : ℤ) (ready ops : ℕ) (change : Change)
    → Tracks s ops none
    → (change ≡ read_off) ⊎ (change ≡ write_off)
    → replay none (apply (source s fd ready ops) change).1 ≡ none
unfolding apply replay
refused_at registered fd ready ops change (inl (e, i)) o = cc
refused_at registered fd ready ops change (inr (z, old, e, i)) o = cc
refused_at no_event fd ready ops change (e, z) (inl o) = rw (o, z) refl
refused_at no_event fd ready ops change (e, z) (inr o) = rw (o, z) refl

-- Switching reading or writing off on a source that epoll does not watch, and that knows this, makes
-- a request that epoll refuses.
pub disable_unregistered :
    (ev : EventSource) (change : Change)
    → Tracks ev.state ev.interest_ops none
    → (change ≡ read_off) ⊎ (change ≡ write_off)
    → replay none (apply ev change).1 ≡ none
disable_unregistered ev change = refused_at ev.state ev.fd ev.ready_ops ev.interest_ops change

-- A life of a source.
pub run : EventSource → List Change → EventSource × List EpollCall
run ev [] = (ev, [])
run ev (change ∷ changes) =
    let (ev', calls) = apply ev change in
    let (ev'', more) = run ev' changes in (ev'', calls ++ more)

abbrev pub AllAllowed : EventSource → List Change → Type 0
AllAllowed ev [] = Unit {0}
AllAllowed ev (change ∷ changes) = Allowed ev.state change × AllAllowed (apply ev change).0 changes

replay-append :
    (w w' : Watch) (calls more : List EpollCall)
    → replay w calls ≡ some w'
    → replay w (calls ++ more) ≡ replay w' more
unfolding replay
replay-append w w' [] more e = ap (λ t. replay t more) (cc)
replay-append w w' (call ∷ calls) more e = elim (Option-cases (accept w call)) [
  | inl refused ↦ ground arith
  | inr (w'', taken) ↦
      rw (taken, replay) (replay-append w'' w' calls more (rw (taken, replay) at e))
]

-- For a source that knows what epoll watches, and a sequence of changes, interest_ops(0) among them,
-- that switches reading or writing off only while the source is registered: epoll accepts every
-- request that the changes make, in their order, and afterwards watches nothing if the source is not
-- registered, and exactly the events that it asks for if it is; only where interest_ops(0) has left
-- a registered source with none, epoll still watches reading, writing or both.
pub run-Accepted :
    (changes : List Change) (ev : EventSource) (w : Watch)
    → Tracks ev.state ev.interest_ops w
    → AllAllowed ev changes
    → Accepted w (run ev changes)
unfolding run replay
run-Accepted [] ev w t a = (w, refl, t)
run-Accepted (change ∷ changes) ev w t (a, as_) =
    let (w', e, t') = apply-Accepted ev w change t a in
    let (w'', e', t'') = run-Accepted changes (apply ev change).0 w' t' as_ in
    (w'', replay-append w w' (apply ev change).1 (run (apply ev change).0 changes).1 e ∙ e', t'')
