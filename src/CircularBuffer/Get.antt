-- ===== src/CircularBuffer/Get.antt =====
-- CircularBuffer::get: it hands out the oldest bytes and drops them.
use native.Mathlib.Nat.{mod-add-mod}
use mutiplex.Base.{
  ℕ, ◌+◌, ◌-◌, ◌%◌, ◌≤◌, min, ◌≡◌, sym, ap, ◌∙◌, length, take, drop, tabulate, ◌++◌, tabulate_ext,
  take-tabulate, drop-tabulate, ok, arith,
}
use mutiplex.Base.Word.{u32, u32_sub}
use mutiplex.Base.Memory.{Bytes, byte}
use mutiplex.CircularBuffer.{CircularBuffer, buffer_len, out_index, get}
use mutiplex.CircularBuffer.Invariant.{
  length-contents, IsValid, Layout, contents, valid-Layout, mask_index, word-index,
}
use mutiplex.CircularBuffer.Window.{head_len, copy_head, copy_tail}

-- `out_ += k`.
abbrev pub advanced : CircularBuffer → ℕ → CircularBuffer
advanced b k = record b { out_ = u32 (b.out_ + k) }

-- Moving `out_` on by `k` drops the `k` oldest bytes.
module _ {b : CircularBuffer} (k : ℕ) (v : IsValid b) (held : k ≤ buffer_len b) where
  layout : Layout b
  layout = valid-Layout v

  buffer_len-advanced : buffer_len (advanced b k) ≡ buffer_len b - k
  unfolding buffer_len
  buffer_len-advanced = omega (arith, v.in_word, v.out_word, held)

  out_index-advanced : out_index (advanced b k) ≡ (out_index b + k) % b.capacity
  unfolding out_index
  out_index-advanced =
      mask_index b.capacity (u32 (b.out_ + k)) v.power
      ∙ word-index b.capacity b.out_ k v.power
      ∙ ap (λ t. (t + k) % b.capacity) (sym (mask_index b.capacity b.out_ v.power))

  pub advanced-IsValid : IsValid (advanced b k)
  advanced-IsValid = record {
    power = v.power;
    block = v.block;
    in_word = v.in_word;
    out_word = omega arith;
    fits = omega (arith, buffer_len-advanced, v.fits);
  }

  pub contents-advanced : contents (advanced b k) ≡ drop k (contents b)
  contents-advanced = rw buffer_len-advanced (
      tabulate_ext (buffer_len b - k) _ _ (λ i h. ap (byte b.bytes) (shifted i))
      ∙ sym
          (drop-tabulate k (buffer_len b - k) (λ i. byte b.bytes ((out_index b + i) % b.capacity)))
      ∙ ap (λ t. drop k (tabulate t (λ i. byte b.bytes ((out_index b + i) % b.capacity))))
          (omega arith))
    where
      shifted :
          (i : ℕ)
          → (out_index (advanced b k) + i) % b.capacity ≡ (out_index b + (k + i)) % b.capacity
      shifted i =
          ap (λ t. (t + i) % b.capacity) out_index-advanced
          ∙ mod-add-mod (out_index b + k) b.capacity i
          ∙ ap (λ t. t % b.capacity) (omega arith)

-- On a valid ring `get` never leaves a block: with a destination of at least `n` bytes it returns
-- the number of bytes moved, which is the lesser of `n` and the bytes held; it writes the oldest
-- bytes to the front of the destination, leaves the rest of it alone, and keeps exactly the other
-- bytes.
pub get-drops :
    {b : CircularBuffer} (buffer : Bytes) (n : ℕ)
    → IsValid b
    → n ≤ length buffer
    → let size = min n (length (contents b)) in
      (b' : CircularBuffer) × (get b buffer n
        ≡ ok (size, take size (contents b) ++ drop size buffer, b'))
      × IsValid b'
      × (contents b' ≡ drop size (contents b))
unfolding get
get-drops {b} buffer n v room =
    rw (length-contents b)
      (advanced b size, moved, advanced-IsValid size v held, contents-advanced size v held)
  where
    layout : Layout b
    layout = valid-Layout v

    size : ℕ
    size = min n (buffer_len b)

    held : size ≤ buffer_len b
    held = omega arith

    len : ℕ
    len = head_len b.bytes b.capacity (out_index b) size

    to_end : u32_sub b.capacity (out_index b) ≡ b.capacity - out_index b
    to_end = omega (arith, layout.out_lt, layout.cap_small)

    wrapped : u32_sub size len ≡ size - len
    wrapped = omega (arith, layout.len_le, layout.cap_small)

    moved : get b buffer n ≡ ok (size, take size (contents b) ++ drop size buffer, advanced b size)
    moved = rw (
      to_end,
      copy_head b.bytes b.capacity (out_index b) size layout.block layout.out_lt
          (omega (arith, layout.len_le)) buffer (omega arith),
      wrapped,
      copy_tail b.bytes b.capacity (out_index b) size layout.block layout.out_lt
          (omega (arith, layout.len_le)) buffer (omega arith),
      take-tabulate size (buffer_len b) (λ i. byte b.bytes ((out_index b + i) % b.capacity)) held,
    )
