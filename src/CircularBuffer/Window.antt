-- ===== src/CircularBuffer/Window.antt =====
-- A run of bytes round the ring, as the two pieces in which the code copies it.
use native.Mathlib.Nat.{zero-add}
use mutiplex.Base.{
  ℕ, ◌+◌, ◌-◌, ◌%◌, ◌≤◌, ◌<◌, min, ◌≡◌, ◌∙◌, ap, length, take, drop, tabulate, ◌++◌, get_or_ext,
  get_or-append, get_or-take, get_or-drop, get_or-tabulate, length-append, length-take, length-drop,
  length-tabulate, arith, sym, refl, ap₂, [], ok,
}
use mutiplex.Base.Memory.{Bytes, byte, memcpy, memcpy-append}
use mutiplex.CircularBuffer.Invariant.{mod-once}

module _ (bytes : Bytes) (c o m : ℕ) where
  -- The first `m` bytes from index `o` on, in a ring of `c` places.
  abbrev pub window : Bytes
  window = tabulate m (λ i. byte bytes ((o + i) % c))

  abbrev pub head_len : ℕ
  head_len = min m (c - o)

module _ (bytes : Bytes) (c o m : ℕ) (block : length bytes ≡ c) (o_lt : o < c) (m_le : m ≤ c) where
  abbrev hd : ℕ
  hd = head_len bytes c o m

  pub window-parts :
      window bytes c o m
      ≡ take (head_len bytes c o m) (drop o bytes) ++ take (m - head_len bytes c o m) (drop 0 bytes)
  window-parts =
      get_or_ext 0 _ _
        (omega (
          arith,
          length-tabulate m (λ i. byte bytes ((o + i) % c)),
          length-append (take hd (drop o bytes)) (take (m - hd) bytes),
          length-take hd (drop o bytes),
          length-take (m - hd) bytes,
          length-drop o bytes,
        ))
        λ j h. ground (
          arith,
          length-tabulate m (λ i. byte bytes ((o + i) % c)),
          mod-once c o j o_lt,
          get_or-tabulate m (λ i. byte bytes ((o + i) % c)) j 0,
          get_or-append (take hd (drop o bytes)) (take (m - hd) bytes) j 0,
          length-take hd (drop o bytes),
          length-drop o bytes,
          get_or-take hd (drop o bytes) j 0,
          get_or-drop o bytes j 0,
          get_or-take (m - hd) bytes (j - hd) 0,
        )

  -- The two copies that `get` and `resize` make, into a block `ys`.
  pub copy_head :
      (ys : Bytes)
      → m ≤ length ys
      → memcpy ys 0 bytes o (head_len bytes c o m)
        ≡ ok (take (head_len bytes c o m) (drop o bytes) ++ drop (head_len bytes c o m) ys)
  copy_head ys h =
      memcpy-append [] ys 0 bytes o hd refl (omega arith) (omega arith)
      ∙ ap (λ t. ok (take hd (drop o bytes) ++ drop t ys)) (zero-add hd)

  pub copy_tail :
      (ys : Bytes)
      → m ≤ length ys
      → memcpy
          (take (head_len bytes c o m) (drop o bytes) ++ drop (head_len bytes c o m) ys)
          (head_len bytes c o m)
          bytes
          0
          (m - head_len bytes c o m)
        ≡ ok (window bytes c o m ++ drop m ys)
  copy_tail ys h =
      memcpy-append (take hd (drop o bytes)) ys hd bytes 0 (m - hd)
        (omega (arith, length-take hd (drop o bytes), length-drop o bytes)) (omega arith)
        (omega arith)
      ∙ ap₂ (λ w t. ok (w ++ drop t ys)) (sym window-parts) (omega arith)
