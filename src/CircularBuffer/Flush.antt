-- ===== src/CircularBuffer/Flush.antt =====
-- CircularBuffer::write_to_fd: what the kernel is offered, and what is kept.
use mathlib.Core.Bool.{false}
use native.Mathlib.Nat.{zero-add, mod-eq_of_lt}
use mutiplex.Base.{
  ℕ, ◌-◌, ◌%◌, ◌≤◌, ◌≡◌, ◌≢◌, inl, inr, refl, sym, ap, ◌∙◌, ◌&&◌, ◌==◌, Bool-cases, length, take,
  drop, [], ◌++◌, Option, none, some, ok, tabulate_ext, take-append-drop, arith, true,
}
use mutiplex.Base.Int.{ℤ, negsuc}
use mutiplex.Base.Word.{u32, u32_sub, int32}
use mutiplex.Base.Memory.{Bytes, byte, read_block-ok, tabulate-byte}
use mutiplex.CircularBuffer.{
  CircularBuffer, buffer_len, in_index, out_index, full, empty, pending, write_to_fd, answer,
}
use mutiplex.CircularBuffer.Invariant.{
  length-contents, IsValid, Layout, contents, valid-Layout, empty_iff, full_iff,
}
use mutiplex.CircularBuffer.Window.{head_len, window-parts}
use mutiplex.CircularBuffer.Get.{advanced, advanced-IsValid, contents-advanced}

-- A full ring whose two indices are 0 holds its block as it lies.
pub contents-aligned :
    {b : CircularBuffer}
    → IsValid b
    → (full b && in_index b == 0) ≡ true
    → contents b ≡ take b.capacity b.bytes
contents-aligned {b} v e =
    rw (all_held, at_start)
      (tabulate_ext b.capacity _ _
          (λ i h. ap (byte b.bytes) (ap (λ t. t % b.capacity) (zero-add i) ∙ mod-eq_of_lt h))
        ∙ tabulate-byte b.capacity b.bytes (omega (arith, v.block)))
  where
    all_held : buffer_len b ≡ b.capacity
    all_held = (full_iff b).0 (ground arith)

    in_start : in_index b ≡ 0
    in_start = ground arith

    at_start : out_index b ≡ 0
    at_start = omega (arith, valid-Layout v, all_held, in_start)

-- The blocks that ::write or ::writev is given are the bytes held, oldest first, on every path.
pub pending-contents : {b : CircularBuffer} → IsValid b → pending b ≡ ok (contents b)
unfolding pending
pending-contents {b} v = elim (Bool-cases (full b && in_index b == 0)) [
  | inl aligned ↦ rw (aligned) (
      read_block-ok b.bytes 0 b.capacity (omega (arith, v.block))
      ∙ ap ok (sym (contents-aligned v aligned)))
  | inr parted ↦
      rw
        (
          parted,
          to_end,
          read_block-ok b.bytes (out_index b) len (omega (arith, v.block, layout.out_lt)),
          wrapped,
          read_block-ok b.bytes 0 (buffer_len b - len) (omega (arith, v.block, layout.len_le)),
        )
        (ap ok (
          sym (
            window-parts b.bytes b.capacity (out_index b) (buffer_len b) v.block layout.out_lt
              layout.len_le)))
]
  where
    layout : Layout b
    layout = valid-Layout v

    len : ℕ
    len = head_len b.bytes b.capacity (out_index b) (buffer_len b)

    to_end : u32_sub b.capacity (out_index b) ≡ b.capacity - out_index b
    to_end = omega (arith, layout.out_lt, layout.cap_small)

    wrapped : u32_sub (buffer_len b) len ≡ buffer_len b - len
    wrapped = omega (arith, layout.len_le, layout.cap_small)

-- What `write_to_fd` returns for an answer of the kernel to an offer of all bytes held: -1 and an
-- unchanged buffer, or the count, with the bytes taken dropped from the front.
pub data Flushed (b : CircularBuffer) (r : ℤ) (sent : Bytes) (b' : CircularBuffer)
    : Option ℕ → Type 0 where
  refused : r ≡ negsuc 0 → sent ≡ [] → b' ≡ b → Flushed b r sent b' none
  taken :
      (n : ℕ)
      → r ≡ int32 n
      → sent ≡ take n (contents b)
      → contents b' ≡ drop n (contents b)
      → Flushed b r sent b' (some n)

abbrev pub FlushedWell : CircularBuffer → Option ℕ → ℤ × Bytes × CircularBuffer → Type 0
FlushedWell b o (r, sent, b') =
    IsValid b' × (sent ++ contents b' ≡ contents b) × Flushed b r sent b' o

answer-FlushedWell :
    {b : CircularBuffer} (o : Option ℕ)
    → IsValid b
    → ((n : ℕ) → o ≡ some n → n ≤ length (contents b))
    → FlushedWell b o (answer b (contents b) o)
unfolding answer
answer-FlushedWell {b} none v honest = (v, refl, refused refl refl refl)
answer-FlushedWell {b} (some n) v honest = rw word (
  advanced-IsValid n v held,
  ap (◌++◌ (take n (contents b))) dropped ∙ take-append-drop n (contents b),
  taken n (rw word) refl dropped,
)
  where
    held : n ≤ buffer_len b
    held = omega (arith, honest n refl, length-contents b)

    word : u32 n ≡ n
    word = omega (arith, held, (valid-Layout v).len_le, (valid-Layout v).cap_small)

    dropped : contents (advanced b n) ≡ drop n (contents b)
    dropped = contents-advanced n v held

module _ (kernel : Bytes → Option ℕ)
    (honest : (xs : Bytes) (n : ℕ) → kernel xs ≡ some n → n ≤ length xs) where
  -- On a valid buffer that holds bytes, with a kernel that takes no more than it is offered,
  -- `write_to_fd` returns and keeps the invariant; it offers the kernel all bytes held and loses
  -- none: what was sent, followed by what is still held, is what was held. For -1 the result is -1
  -- and the buffer is unchanged; for a count `n` the result is `n` as an `int`, the first `n` bytes
  -- were sent, and the others are still held.
  pub write_to_fd-refines :
      {b : CircularBuffer}
      → IsValid b
      → contents b ≢ []
      → (r : ℤ) × (sent : Bytes) × (b' : CircularBuffer) × (write_to_fd kernel b ≡ ok (r, sent, b'))
        × FlushedWell b (kernel (contents b)) (r, sent, b')
  unfolding write_to_fd
  write_to_fd-refines {b} v some_held =
      let (r, sent, b') = answer b (contents b) (kernel (contents b)) in
      (
        r,
        sent,
        b',
        rw (nonempty, pending-contents v),
        answer-FlushedWell (kernel (contents b)) v (honest (contents b)),
      )
    where
      nonempty : empty b ≡ false
      nonempty = elim (Bool-cases (empty b)) [
        | inl e ↦ absurd (some_held ((empty_iff v).0 e))
        | inr e ↦ e
      ]
