-- ===== src/CircularBuffer/Hollow.antt =====
-- Rings that hold no byte, or fewer than they can, and what `put` makes of them.
use native.Mathlib.Decide.{dec_le}
use mutiplex.Base.{
  ◌<◌, ◌&&◌, ◌==◌, refl, inr, false, Bool-cases, ℕ, ◌^◌, ◌≤◌, ◌≡◌, sym, ap, ap₂, ◌∙◌, inl, ok, [],
  ◌++◌, length, take-of_length_le, arith,
}
use mutiplex.Base.Memory.{Bytes, Allocator}
use mutiplex.CircularBuffer.{CircularBuffer, new, put, buffer_len, buffer_remaining, full, in_index}
use mutiplex.CircularBuffer.Invariant.{
  length-contents, full_iff, valid-Layout, IsValid, contents, new-IsValid,
}
use mutiplex.CircularBuffer.Fifo.{Roomy, put-appends}

pub hollow_roomy :
    {b : CircularBuffer} → IsValid b → contents b ≡ [] → buffer_remaining b ≡ b.capacity
hollow_roomy {b} v bare = omega (arith, (valid-Layout v).remaining, hollow)
  where
    hollow : buffer_len b ≡ 0
    hollow = sym (length-contents b) ∙ ap length bare

-- Where the ring is not full, `put` may grow it.
pub unfilled-parted :
    {b : CircularBuffer}
    → IsValid b
    → length (contents b) < b.capacity
    → (full b && in_index b == 0) ≡ false
unfilled-parted {b} v less = elim (Bool-cases (full b)) [
  | inl f ↦ absurd (omega (arith, (full_iff b).0 f, less, length-contents b))
  | inr n ↦ rw n refl
]

-- An empty ring has room for any block that is not larger than half of the largest one.
pub hollow-Roomy :
    {b : CircularBuffer} (n : ℕ) → IsValid b → contents b ≡ [] → n ≤ 2 ^ 30 → Roomy b n
hollow-Roomy {b} n v bare small = elim (dec_le n (buffer_remaining b)) [
  | yes fits ↦ inl fits
  | no short ↦ inr (
    omega (arith, short, hollow_roomy v bare),
    unfilled-parted v (omega (arith, ap length bare, (valid-Layout v).out_lt)),
  )
]

-- A new ring of the size of a block of bytes, with the block put into it.
pub put-new :
    (heap : Allocator) (xs : Bytes)
    → length xs ≤ 2 ^ 31
    → (b : CircularBuffer) × (put heap (new heap (length xs)) xs (length xs) ≡ ok b)
      × IsValid b
      × (contents b ≡ xs)
put-new heap xs room =
    let (v, bare, wide) = new-IsValid heap (length xs) (omega arith) in
    let (b, e, v', same, _) =
      put-appends heap xs (length xs) v (omega arith)
        (inl (omega (arith, hollow_roomy v bare, wide room))) in
    (
      b,
      e,
      v',
      same
          ∙ ap₂ (λ front back. front ++ back) bare (take-of_length_le (length xs) xs (omega arith)),
    )
