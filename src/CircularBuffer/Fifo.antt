-- ===== src/CircularBuffer/Fifo.antt =====
-- CircularBuffer as a queue of bytes: `put` on all its branches but the one that loses bytes.
use mutiplex.Base.{
  ℕ, ◌+◌, ◌^◌, ◌≤◌, ◌≡◌, ◌⊎◌, inl, inr, false, ◌&&◌, ◌==◌, length, take, ◌++◌, ok, arith,
}
use native.Mathlib.Decide.{dec_le}
use mutiplex.Base.Memory.{Bytes, Allocator}
use mutiplex.CircularBuffer.{CircularBuffer, buffer_remaining, full, in_index, put}
use mutiplex.CircularBuffer.Invariant.{IsValid, contents}
use mutiplex.CircularBuffer.Put.{put-fits}
use mutiplex.CircularBuffer.Resize.{put-grows}

-- Room for `n` more bytes, as they are or after a `resize` that does not start at index 0 of a full
-- ring; the capacities stay within 2^31.
abbrev pub Roomy : CircularBuffer → ℕ → Type 0
Roomy b n =
    (n ≤ buffer_remaining b) ⊎ ((n + b.capacity ≤ 2 ^ 31) × ((full b && in_index b == 0) ≡ false))

-- On a valid ring, for `n` bytes that the caller's block has, where they fit, or where they and the
-- capacity together are at most 2^31 and the ring is not full with `in_` at index 0: `put` returns,
-- keeps the invariant, and appends exactly the first `n` bytes of the caller's block, whether they fit
-- or the ring has to grow; the capacity is as it was, or has room for as many bytes and `n` more.
pub put-appends :
    (heap : Allocator) {b : CircularBuffer} (buffer : Bytes) (n : ℕ)
    → IsValid b
    → n ≤ length buffer
    → Roomy b n
    → (b' : CircularBuffer) × (put heap b buffer n ≡ ok b')
      × IsValid b'
      × (contents b' ≡ contents b ++ take n buffer)
      × ((b'.capacity ≡ b.capacity) ⊎ (n + b.capacity ≤ b'.capacity))
put-appends heap {b} buffer n v given (inl fits) =
    let (b', e, (v', same, cap)) = put-fits heap buffer n v given fits in (b', e, v', same, inl cap)
put-appends heap {b} buffer n v given (inr (bounded, parted)) =
    elim (dec_le n (buffer_remaining b)) [
      | yes fits ↦
          let (b', e, (v', same, cap)) = put-fits heap buffer n v given fits in
          (b', e, v', same, inl cap)
      | no short ↦
          let (b', e, (v', same, wide, _)) =
            put-grows heap buffer n v (omega arith) bounded given parted in
          (b', e, v', same, inr wide)
    ]
