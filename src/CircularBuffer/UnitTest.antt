-- ===== src/CircularBuffer/UnitTest.antt =====
-- tests/CircularBuffer.cpp: the first three tests, with any bytes in place of theirs, and the first one
-- with any number of rounds.
pub mod Moving
pub mod Rounds
pub mod Passing
mod Tests
use mutiplex.Base.{
  ℕ, zero, suc, ◌+◌, ◌-◌, Bool, true, false, ◌&&◌, ◌==◌, not, if◌then◌else◌, Result, ok, ◌>>=◌, [],
  ◌∷◌, ◌++◌, take, drop,
}
use mutiplex.Base.Memory.{Bytes, Allocator}
use mutiplex.CircularBuffer.{CircularBuffer, new, put, get, full}

-- memcmp(xs, ys, n) == 0, of two blocks of `n` bytes.
pub same_bytes : Bytes → Bytes → Bool
same_bytes [] [] = true
same_bytes (x ∷ xs) (y ∷ ys) = x == y && same_bytes xs ys
same_bytes xs ys = false

module _ (heap : Allocator) where
  -- A round of the loop, with the block `buf_out` behind it; the result says whether both assertions
  -- hold.
  pub round : Bytes → Bytes → CircularBuffer → Result (Bool × Bytes × CircularBuffer)
  unfolding same_bytes
  round buf_src buf_out b = do
    b1 ← put heap b buf_src 40
    b2 ← put heap b1 (drop 40 buf_src) 60
    (n, out, b3) ← get b2 buf_out 60
    (m, out', b4) ← get b3 (drop 40 out) 40
    ok (
      same_bytes (take 60 buf_src) (take 60 out)
          && same_bytes (take 40 (drop 60 buf_src)) (take 40 out'),
      take 40 out ++ out',
      b4,
    )

  -- The loop; an assertion that fails ends the test.
  pub rounds : ℕ → Bytes → Bytes → CircularBuffer → Result Bool
  unfolding round
  rounds zero buf_src buf_out b = ok true
  rounds (suc n) buf_src buf_out b = do
    (holds, out, b') ← round buf_src buf_out b
    let rest = rounds n buf_src out b'
    if holds then rest else ok false

  -- The first test, with `n` rounds in place of 10000.
  pub test_circular_buffer : ℕ → Bytes → Bytes → Result Bool
  unfolding rounds
  test_circular_buffer n buf_src buf_out =
      let buffer = new heap 30 in
      if buffer.capacity == 32 then rounds n buf_src buf_out buffer else ok false

  -- resize_0
  pub test_resize_0 : Bytes → Bytes → Result Bool
  unfolding same_bytes
  test_resize_0 buf_src buf_dest = do
    b1 ← put heap (new heap 2) buf_src 100
    (n1, dest1, b2) ← get b1 buf_dest 100
    b3 ← put heap b2 buf_src 100
    (n2, dest2, b4) ← get b3 dest1 100
    ok (same_bytes buf_src dest2)

  -- resize_1
  pub test_resize_1 : Bytes → Bytes → Result Bool
  unfolding same_bytes
  test_resize_1 buf_src buf_dest = do
    b1 ← put heap (new heap 128) buf_src 128
    (n1, dest, b2) ← get b1 buf_dest 64
    (n2, dest', b3) ← get b2 (drop 64 dest) 64
    ok (full b1 && not (full b2) && same_bytes buf_src (take 64 dest ++ dest'))
