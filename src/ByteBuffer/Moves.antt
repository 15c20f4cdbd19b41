-- ===== src/ByteBuffer/Moves.antt =====
-- Sequences of the calls that move the indices of a ByteBuffer.
use mutiplex.Base.{
  Bool, true, false, assert, ◌>>◌, ◌⊎◌, inl, inr, assertion, ℕ, ◌≡◌, refl, ap, arith, Result, ok,
  err, ◌>>=◌, List, [], ◌∷◌,
}
use mutiplex.Base.Int.{ℤ, pos, negsuc, ◌+ℤ◌}
use mutiplex.ByteBuffer.{
  ByteBuffer, set_position, set_limit, set_mark, reset, clear, flip, rewind, skip, remaining,
}
use mutiplex.ByteBuffer.Invariant.{
  IsValid, capacity-eq, clear-IsValid, flip-IsValid, rewind-IsValid, set_mark-IsValid,
  set_position-IsValid, set_limit-IsValid, reset-IsValid, skip-IsValid,
}

pub data Move : Type 0 where
  to_position to_limit : ℤ → Move
  to_mark back_to_mark clearing flipping rewinding : Move
  skipping : ℤ → Move

pub move : ByteBuffer → Move → Result ByteBuffer
move b (to_position p) = set_position b p
move b (to_limit l) = set_limit b l
move b to_mark = ok (set_mark b)
move b back_to_mark = reset b
move b clearing = clear b
move b flipping = ok (flip b)
move b rewinding = ok (rewind b)
move b (skipping n) = skip b n

-- Every call but a `skip` by a negative number, which the assertion of `skip` lets through.
abbrev pub IsOnward : Move → Type 0
IsOnward (skipping (negsuc n)) = ⊥
IsOnward _ = Unit {0}

abbrev pub AllOnward : List Move → Type 0
AllOnward [] = Unit {0}
AllOnward (m ∷ ms) = IsOnward m × AllOnward ms

pub moves : ByteBuffer → List Move → Result ByteBuffer
unfolding move
moves b [] = ok b
moves b (m ∷ ms) = move b m >>= λ b'. moves b' ms

-- A call that returns a valid buffer, or fails an assertion.
abbrev pub Safe : ℕ → Result ByteBuffer → Type 0
Safe c r = (r ≡ err assertion) ⊎ ((b' : ByteBuffer) × (r ≡ ok b') × IsValid c b')

assert-Safe :
    {c : ℕ} (t : Bool) (b' : ByteBuffer) → (t ≡ true → IsValid c b') → Safe c (assert t >> ok b')
assert-Safe true b' v = inr (b', refl, v refl)
assert-Safe false b' v = inl refl

move-Safe : {c : ℕ} {b : ByteBuffer} (m : Move) → IsOnward m → IsValid c b → Safe c (move b m)
unfolding move set_position set_limit reset skip
move-Safe (to_position p) o v = assert-Safe _ _ (λ e. set_position-IsValid p v (rw e refl))
move-Safe (to_limit l) o v =
    rw (capacity-eq v) (assert-Safe _ _ (λ e. set_limit-IsValid l v (rw (capacity-eq v, e) refl)))
move-Safe to_mark o v = inr (_, refl, set_mark-IsValid v)
move-Safe back_to_mark o v = assert-Safe _ _ (λ e. reset-IsValid v (rw e refl))
move-Safe clearing o v = let (b', e, v', _, _, _) = clear-IsValid v in inr (b', e, v')
move-Safe flipping o v = inr (_, refl, flip-IsValid v)
move-Safe rewinding o v = inr (_, refl, rewind-IsValid v)
move-Safe (skipping (negsuc n)) o v = absurd o
move-Safe (skipping (pos n)) o v = assert-Safe _ _ (λ e. skip-IsValid n v (rw e refl))

-- `skip` by the position and one more, as a negative number, returns a buffer that is not valid: its
-- position is before the block's start.
skip-back :
    {c : ℕ} {b : ByteBuffer} (n : ℕ)
    → IsValid c b
    → b.position ≡ pos n
    → (b' : ByteBuffer) × (skip b (negsuc n) ≡ ok b') × ¬ IsValid c b'
unfolding skip remaining
skip-back {b = b} n v at = (
  record b { position = b.position +ℤ negsuc n },
  ap (λ t. assert t >> ok (record b { position = b.position +ℤ negsuc n })) {y = true}
      (ground (arith, v)),
  λ w. ground (arith, w, at),
)

-- From a valid buffer of capacity `c`, every sequence of these calls, with any arguments but a
-- negative number for `skip`, fails an assertion or returns a valid buffer of that capacity: no call
-- reads outside the block.
pub moves-Safe :
    {c : ℕ} {b : ByteBuffer} (ms : List Move) → AllOnward ms → IsValid c b → Safe c (moves b ms)
unfolding moves
moves-Safe {c} {b} [] o v = inr (b, refl, v)
moves-Safe {c} {b} (m ∷ ms) (o, os) v = elim (move-Safe m o v) [
  | inl e ↦ inl (rw e refl)
  | inr (b', e, v') ↦ rw e (moves-Safe ms os v')
]
