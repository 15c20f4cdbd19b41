-- ===== src/CircularBuffer/Resize.antt =====
-- CircularBuffer::put where the bytes do not fit: `resize` moves the bytes held to the start of a
-- larger block. Its branch for a full ring that starts at index 0 leaves the new bytes out.
use native.Mathlib.Nat.{zero-add, zero-mod, mod-eq_of_lt}
use mathlib.Core.Path.{subst}
use mutiplex.Base.{
  ℕ, ◌+◌, ◌-◌, ◌*◌, ◌%◌, ◌^◌, ◌≤◌, ◌<◌, ◌≡◌, refl, sym, ap, ap₂, ◌∙◌, true, false, ◌&&◌, ◌==◌,
  lt→ltb, length, take, drop, ◌++◌, length-append, length-take, tabulate_ext, take-append_left,
  take-append-drop, drop-drop, length-drop, append_assoc, [], ok, arith,
}
use mutiplex.Base.Word.{u32, u32_sub}
use mutiplex.Base.Memory.{Bytes, byte, memcpy-append, Allocator, tabulate-byte}
use mutiplex.CircularBuffer.{
  CircularBuffer, buffer_len, buffer_remaining, in_index, out_index, full, moved, resize, put,
  roundup_pow_of_two,
}
use mutiplex.CircularBuffer.Capacity.{IsPowerOfTwo, roundup_pow_of_two_lem}
use mutiplex.CircularBuffer.Invariant.{
  length-contents, IsValid, Layout, contents, valid-Layout, mask_index, cap_small, full_iff,
}
use mutiplex.CircularBuffer.Window.{head_len, copy_head, copy_tail}
use mutiplex.CircularBuffer.Flush.{contents-aligned}

-- The state after `resize`, whose new block of `cap` bytes starts with the bytes `xs`.
module _ (b : CircularBuffer) (cap n : ℕ) (xs rest : Bytes) (power : IsPowerOfTwo cap)
    (sized : length (xs ++ rest) ≡ cap) (counted : length xs ≡ buffer_len b + n) where
  xs-le-cap : length xs ≤ cap
  xs-le-cap = omega (arith, length-append xs rest, sized)

  buffer_len-moved : buffer_len (moved b cap n (xs ++ rest)) ≡ length xs
  unfolding moved buffer_len
  buffer_len-moved = omega (arith, counted, xs-le-cap, cap_small cap power)

  moved-IsValid : IsValid (moved b cap n (xs ++ rest))
  unfolding moved
  moved-IsValid = record {
    power = power;
    block = sized;
    in_word = omega arith;
    out_word = omega arith;
    fits = rw buffer_len-moved xs-le-cap;
  }

  contents-moved : contents (moved b cap n (xs ++ rest)) ≡ xs
  unfolding moved out_index
  contents-moved = rw buffer_len-moved (
      tabulate_ext (length xs) _ _ (λ i h. ap (byte (xs ++ rest)) (straight i h))
      ∙ tabulate-byte (length xs) (xs ++ rest) (omega (arith, length-append xs rest))
      ∙ take-append_left (length xs) xs rest refl)
    where
      straight : (i : ℕ) → i < length xs → (out_index (moved b cap n (xs ++ rest)) + i) % cap ≡ i
      straight i h =
          ap (λ t. (t + i) % cap) (mask_index cap 0 power ∙ zero-mod cap)
          ∙ ap (λ t. t % cap) (zero-add i)
          ∙ mod-eq_of_lt (omega (arith, xs-le-cap))

-- The capacity that `resize` chooses.
abbrev pub grown : CircularBuffer → ℕ → ℕ
grown b n = roundup_pow_of_two (u32 (n + b.capacity))

-- What `put` promises of a buffer that it has moved to a larger block.
abbrev pub Grown : CircularBuffer → ℕ → Bytes → CircularBuffer → Type 0
Grown b n xs b' =
    IsValid b'
    × (contents b' ≡ xs)
    × (n + b.capacity ≤ b'.capacity)
    × (b'.capacity < 2 * (n + b.capacity))

module _ (heap : Allocator) {b : CircularBuffer} (buffer : Bytes) (n : ℕ) (v : IsValid b)
    (short : buffer_remaining b < n) (bounded : n + b.capacity ≤ 2 ^ 31) where
  layout : Layout b
  layout = valid-Layout v

  word : u32 (n + b.capacity) ≡ n + b.capacity
  word = omega arith

  grown-fits : n + b.capacity ≤ grown b n
  grown-fits =
      omega (arith, word, (roundup_pow_of_two_lem (u32 (n + b.capacity))).1 (omega (arith, word)))

  grown-tight : grown b n < 2 * (n + b.capacity)
  grown-tight = omega (
    arith,
    word,
    (roundup_pow_of_two_lem (u32 (n + b.capacity))).3 (omega (arith, word, layout.cap_pos, short)),
  )

  power : IsPowerOfTwo (grown b n)
  power = (roundup_pow_of_two_lem (u32 (n + b.capacity))).0

  abbrev fresh : Bytes
  fresh = heap.malloc (grown b n)

  fresh-holds : buffer_len b + n ≤ length fresh
  fresh-holds = omega (arith, heap.length-malloc (grown b n), grown-fits, layout.len_le)

  -- The branch that copies: the bytes held, then those of the caller, then what is left of the
  -- block.
  abbrev regrown : CircularBuffer
  regrown = moved b (grown b n) n ((contents b ++ take n buffer) ++ drop (buffer_len b + n) fresh)

  put-regrown :
      n ≤ length buffer → (full b && in_index b == 0) ≡ false → put heap b buffer n ≡ ok regrown
  unfolding put resize
  put-regrown given parted = rw (
    lt→ltb (buffer_remaining b) n short,
    parted,
    to_end,
    copy_head b.bytes b.capacity (out_index b) (buffer_len b) layout.block layout.out_lt
        layout.len_le fresh (omega (arith, fresh-holds)),
    wrapped,
    copy_tail b.bytes b.capacity (out_index b) (buffer_len b) layout.block layout.out_lt
        layout.len_le fresh (omega (arith, fresh-holds)),
    memcpy-append (contents b) fresh (buffer_len b) buffer 0 n (sym (length-contents b)) fresh-holds
        (omega arith),
  )
    where
      len : ℕ
      len = head_len b.bytes b.capacity (out_index b) (buffer_len b)

      to_end : u32_sub b.capacity (out_index b) ≡ b.capacity - out_index b
      to_end = omega (arith, layout.out_lt, layout.cap_small)

      wrapped : u32_sub (buffer_len b) len ≡ buffer_len b - len
      wrapped = omega (arith, layout.len_le, layout.cap_small)

  split_fresh :
      (contents b ++ take n (drop (buffer_len b) fresh)) ++ drop (buffer_len b + n) fresh
      ≡ contents b ++ drop (buffer_len b) fresh
  split_fresh =
      append_assoc (contents b) (take n (drop (buffer_len b) fresh)) (drop (buffer_len b + n) fresh)
      ∙ ap (λ t. contents b ++ (take n (drop (buffer_len b) fresh) ++ t))
          (sym (drop-drop (buffer_len b) n fresh))
      ∙ ap (◌++◌ (contents b)) (take-append-drop n (drop (buffer_len b) fresh))

  module _ (ys : Bytes) (sized : length ys ≡ n) where
    -- The state that holds `ys` behind the bytes held.
    abbrev extended : CircularBuffer
    extended = moved b (grown b n) n ((contents b ++ ys) ++ drop (buffer_len b + n) fresh)

    counted : length (contents b ++ ys) ≡ buffer_len b + n
    counted = omega (arith, length-append (contents b) ys, length-contents b, sized)

    whole : length ((contents b ++ ys) ++ drop (buffer_len b + n) fresh) ≡ grown b n
    whole = omega (
      arith,
      length-append (contents b ++ ys) (drop (buffer_len b + n) fresh),
      counted,
      length-drop (buffer_len b + n) fresh,
      heap.length-malloc (grown b n),
      fresh-holds,
    )

    extended-Grown : Grown b n (contents b ++ ys) extended
    unfolding moved
    extended-Grown = (
      moved-IsValid b (grown b n) n (contents b ++ ys) (drop (buffer_len b + n) fresh) power whole
          counted,
      contents-moved b (grown b n) n (contents b ++ ys) (drop (buffer_len b + n) fresh) power whole
          counted,
      grown-fits,
      grown-tight,
    )

  -- A `put` that does not fit, into a buffer whose capacity and the new bytes come to 2^31 at most,
  -- keeps the invariant and appends the first `n` bytes of the caller's block, unless the buffer is
  -- full with `in_` at index 0. The new capacity lies between the sum of the old one and `n`, and
  -- less than twice that sum.
  pub put-grows :
      n ≤ length buffer
      → (full b && in_index b == 0) ≡ false
      → (b' : CircularBuffer) × (put heap b buffer n ≡ ok b')
        × Grown b n (contents b ++ take n buffer) b'
  put-grows given parted = (
    regrown,
    put-regrown given parted,
    extended-Grown (take n buffer) (omega (arith, length-take n buffer, given)),
  )

  -- A `put` of `n` bytes on a valid full ring with `in_` at index 0, where `n` and the capacity
  -- together are at most 2^31: it returns, and the ring holds the bytes that it held, followed not by
  -- the caller's bytes but by the `n` bytes that the new block had in their place.
  pub put-aligned_stale :
      (full b && in_index b == 0) ≡ true
      → (b' : CircularBuffer) × (put heap b buffer n ≡ ok b')
        × Grown b n (contents b ++ take n (drop b.capacity (heap.malloc (grown b n)))) b'
  unfolding put resize
  put-aligned_stale aligned = (
    extended stale length-stale,
    rw
        (
          lt→ltb (buffer_remaining b) n short,
          aligned,
          memcpy-append [] fresh 0 b.bytes 0 b.capacity refl (omega (arith, fresh-holds, all_held))
              (omega (arith, v.block)),
        )
        (ap (λ t. ok (moved b (grown b n) n t)) same_block),
    subst (λ t. Grown b n (contents b ++ take n (drop t fresh)) (extended stale length-stale))
        all_held (extended-Grown stale length-stale),
  )
    where
      all_held : buffer_len b ≡ b.capacity
      all_held = (full_iff b).0 (ground arith)

      stale : Bytes
      stale = take n (drop (buffer_len b) fresh)

      length-stale : length stale ≡ n
      length-stale = omega (
        arith,
        length-take n (drop (buffer_len b) fresh),
        length-drop (buffer_len b) fresh,
        fresh-holds,
      )

      same_block :
          take b.capacity b.bytes ++ drop (0 + b.capacity) fresh
          ≡ (contents b ++ stale) ++ drop (buffer_len b + n) fresh
      same_block =
          ap₂ (λ x t. x ++ drop t fresh) (sym (contents-aligned v aligned))
            (omega (arith, all_held))
          ∙ sym split_fresh
