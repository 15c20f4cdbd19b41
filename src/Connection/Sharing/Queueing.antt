-- ===== src/Connection/Sharing/Queueing.antt =====
-- The tasks of one connection in the queue of the loop.
use mutiplex.Base.{
  ◌||◌, append-nil, ℕ, ◌≡◌, refl, sym, ap, ap₂, ◌∙◌, inl, inr, Bool, true, false, Bool-cases, ◌==◌,
  ==_refl, List, [], ◌∷◌, ◌++◌, drop, length,
}
use mutiplex.Connection.Context.{Task, World}
use mutiplex.Connection.Tasks.{is_alive, release, pop_front, destroy}
use mutiplex.Connection.Posting.{Grows}
use mutiplex.Connection.Execution.{configured}
use mutiplex.Connection.Sharing.{Posted, select, tagged, posted}

pub select-append : (i : ℕ) (p q : List Posted) → select i (p ++ q) ≡ select i p ++ select i q
unfolding select
select-append i [] q = refl
select-append i ((j, t) ∷ p) q = elim (Bool-cases (i == j)) [
  | inl y ↦ rw y (ap (◌∷◌ t) (select-append i p q))
  | inr n ↦ rw n (select-append i p q)
]

select-tagged : (i : ℕ) (ts : List Task) → select i (tagged i ts) ≡ ts
unfolding select tagged
select-tagged i [] = refl
select-tagged i (t ∷ ts) = rw (==_refl i) (ap (◌∷◌ t) (select-tagged i ts))

select-others : (i j : ℕ) (ts : List Task) → (j == i) ≡ false → select j (tagged i ts) ≡ []
unfolding select tagged
select-others i j [] n = refl
select-others i j (t ∷ ts) n = rw n (select-others i j ts n)

drop-longer : (xs ys : List Task) → drop (length xs) (xs ++ ys) ≡ ys
drop-longer [] ys = refl
drop-longer (x ∷ xs) ys = drop-longer xs ys

pub others_queue :
    (i j : ℕ) (q : List Posted) (ts : List Task)
    → (j == i) ≡ false
    → select j (q ++ tagged i ts) ≡ select j q
others_queue i j q ts n =
    select-append j q (tagged i ts)
    ∙ ap (◌++◌ (select j q)) (select-others i j ts n)
    ∙ append-nil (select j q)

pub own_queue :
    (i : ℕ) (q : List Posted) (u v : World)
    → select i q ≡ u.task_queue
    → Grows u v
    → select i (q ++ tagged i (posted u v)) ≡ v.task_queue
own_queue i q u v same g =
    select-append i q (tagged i (posted u v))
    ∙ ap₂ ◌++◌ same (
        select-tagged i (posted u v)
        ∙ ap (drop (length u.task_queue)) g.longer
        ∙ drop-longer u.task_queue g.added)
    ∙ sym g.longer

-- Behind the task `t` at the front, which leaves.
pub popped_queue :
    (i : ℕ) (t : Task) (q : List Posted) (u v : World)
    → u.task_queue ≡ t ∷ select i q
    → Grows u v
    → select i (q ++ tagged i (posted u v)) ≡ pop_front v.task_queue
popped_queue i t q u v front g =
    select-append i q (tagged i (posted u v))
    ∙ ap (◌++◌ (select i q)) (
        select-tagged i (posted u v)
        ∙ ap (drop (length u.task_queue)) g.longer
        ∙ drop-longer u.task_queue g.added)
    ∙ ap (λ p. pop_front (p ++ g.added)) (sym front)
    ∙ ap pop_front (sym g.longer)

pub own_first : (i : ℕ) (t : Task) (q : List Posted) → select i ((i, t) ∷ q) ≡ t ∷ select i q
unfolding select
own_first i t q = rw (==_refl i) refl

pub others_first :
    (i j : ℕ) (t : Task) (q : List Posted) → (j == i) ≡ false → select j ((i, t) ∷ q) ≡ select j q
unfolding select
others_first i j t q n = rw n refl

pub release-queue : (w : World) → (release w).task_queue ≡ w.task_queue
unfolding release destroy
release-queue w = elim (Bool-cases (is_alive w || w.destroyed)) [
  | inl e ↦ rw e refl
  | inr e ↦ rw e refl
]

pub release-listed : (w : World) → w.listed ≡ true → release w ≡ w
unfolding release is_alive
release-listed w e = rw e refl

pub configured-queue :
    (w : World) (at_open at_read at_close at_error : Bool)
    → w.task_queue ≡ (configured w at_open at_read at_close at_error).task_queue
unfolding configured
configured-queue w at_open at_read at_close at_error = refl
