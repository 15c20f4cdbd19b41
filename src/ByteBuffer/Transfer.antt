-- ===== src/ByteBuffer/Transfer.antt =====
-- The bulk calls of ByteBuffer: what `put` stores `flip` makes readable, and `get` hands out.
use mutiplex.Base.{
  ℕ, ◌+◌, ◌-◌, ◌^◌, ◌≤◌, ◌<◌, min, ◌≡◌, refl, sym, ap, ap₂, ◌∙◌, true, Result, ok, ◌>>=◌, length,
  take, drop, [], ◌++◌, arith, get_or_ext, get_or-append, get_or-take, get_or-drop, length-append,
  length-take, length-drop, take-append-take, drop-drop, take-take, drop-take,
}
use mutiplex.Base.Int.{ℤ, pos, pos_part, ◌+ℤ◌, leb_ℤ, min_ℤ}
use mutiplex.Base.Memory.{
  Bytes, memcpy-ok, memcpy_int, memcpy-append, length-splice, byte-splice, splice, Allocator,
}
use mutiplex.ByteBuffer.{ByteBuffer, new, flip, remaining, data_offset, put, get}
use mutiplex.ByteBuffer.Invariant.{IsValid, new-IsValid, flip-IsValid}

-- The bytes between the position and the limit.
abbrev pub readable : ByteBuffer → Bytes
readable b = take (pos_part b.limit - pos_part b.position) (drop (4 + pos_part b.position) b.block)

module _ {c : ℕ} {b : ByteBuffer} (v : IsValid c b) where
  pub length-readable : length (readable b) ≡ pos_part b.limit - pos_part b.position
  length-readable = ground (
    arith,
    v,
    length-take (pos_part b.limit - pos_part b.position) (drop (4 + pos_part b.position) b.block),
    length-drop (4 + pos_part b.position) b.block,
  )

  -- remaining() counts the readable bytes.
  pub remaining-length : remaining b ≡ pos (length (readable b))
  unfolding remaining
  remaining-length = ground (arith, v, length-readable)

  pub offset : data_offset b ≡ pos (4 + pos_part b.position)
  unfolding data_offset
  offset = ground (arith, v)

  abbrev pub stored : Bytes → ℕ → Bytes
  stored source n = splice b.block (4 + pos_part b.position) source 0 n

  abbrev pub after_put : Bytes → ℕ → ByteBuffer
  after_put source n = record b { block = stored source n; position = b.position +ℤ pos n }

  module _ (source : Bytes) (n : ℕ) (room : n ≤ length (readable b))
      (given : n ≤ length source) where
    pub inside : 4 + pos_part b.position + n ≤ length b.block
    inside = ground (arith, v, room, length-readable)

    given' : 0 + n ≤ length source
    given' = omega arith

    put-after_put : put b source (pos n) ≡ ok (after_put source n)
    unfolding put memcpy_int
    put-after_put =
        rw (fits, offset, memcpy-ok b.block (4 + pos_part b.position) source 0 n inside given')
      where
        fits : leb_ℤ (pos n) (remaining b) ≡ true
        fits = ground (arith, remaining-length)

    pub after_put-IsValid : IsValid c (after_put source n)
    after_put-IsValid = record {
      small = v.small;
      sized = length-splice b.block (4 + pos_part b.position) source 0 n inside given' ∙ v.sized;
      header =
          take-append-take 4 (4 + pos_part b.position) b.block _ (omega arith)
            (omega (arith, v.sized))
          ∙ v.header;
      mark_low = v.mark_low;
      mark_le = ground (arith, v);
      position_low = ground (arith, v);
      position_le = ground (arith, v, length-readable);
      limit_le = v.limit_le;
    }

    pub readable-flip : readable (flip (after_put source n)) ≡ readable (flip b) ++ take n source
    unfolding flip
    readable-flip =
        ap (λ t. take t (drop 4 (stored source n))) {y = p + n} (ground (arith, v))
        ∙ joined
        ∙ ap (λ t. take t (drop 4 b.block) ++ take n source) {x = p} (omega arith)
      where
        p : ℕ
        p = pos_part b.position

        joined : take (p + n) (drop 4 (stored source n)) ≡ take p (drop 4 b.block) ++ take n source
        joined =
            get_or_ext 0 _ _
              (omega (
                arith,
                length-take (p + n) (drop 4 (stored source n)),
                length-drop 4 (stored source n),
                length-splice b.block (4 + p) source 0 n inside given',
                inside,
                length-append (take p (drop 4 b.block)) (take n source),
                length-take p (drop 4 b.block),
                length-drop 4 b.block,
                length-take n source,
              ))
              λ i h. ground (
                arith,
                length-take (p + n) (drop 4 (stored source n)),
                get_or-take (p + n) (drop 4 (stored source n)) i 0,
                get_or-drop 4 (stored source n) i 0,
                byte-splice b.block (4 + p) source 0 n inside given' (4 + i),
                inside,
                get_or-append (take p (drop 4 b.block)) (take n source) i 0,
                length-take p (drop 4 b.block),
                length-drop 4 b.block,
                get_or-take p (drop 4 b.block) i 0,
                get_or-drop 4 b.block i 0,
                get_or-take n source (i - length (take p (drop 4 b.block))) 0,
              )

  -- `get` of at least 0 bytes into a block that has room returns the lesser of `n` and the number of
  -- readable bytes, writes that many of the readable bytes to the front of the block, and leaves the
  -- others readable.
  pub get-reads :
      (buffer : Bytes) (n : ℕ)
      → n ≤ length buffer
      → let size = min n (length (readable b)) in
        (b' : ByteBuffer) × (get b buffer (pos n)
          ≡ ok (pos size, take size (readable b) ++ drop size buffer, b'))
        × IsValid c b'
        × (readable b' ≡ drop size (readable b))
  unfolding get memcpy_int
  get-reads buffer n room = (record b { position = b.position +ℤ pos size }, moved, kept, rest)
    where
      size : ℕ
      size = min n (length (readable b))

      least : min_ℤ (pos n) (remaining b) ≡ pos size
      least = ground (arith, remaining-length)

      p : ℕ
      p = pos_part b.position

      r : ℕ
      r = pos_part b.limit - p

      within : 4 + p + size ≤ length b.block
      within = ground (arith, v, length-readable)

      moved :
          get b buffer (pos n)
          ≡ ok (
            pos size,
            take size (readable b) ++ drop size buffer,
            record b { position = b.position +ℤ pos size },
          )
      moved =
          rw
            (
              least,
              offset,
              memcpy-append [] buffer 0 b.block (4 + p) size refl (omega arith) within,
            )
            (ap₂
              (λ x t.
                ok (pos size, x ++ drop t buffer, record b { position = b.position +ℤ pos size }))
              (sym (take-take size r (drop (4 + p) b.block) (omega (arith, length-readable))))
              (omega arith))

      kept : IsValid c (record b { position = b.position +ℤ pos size })
      kept = ground (arith, v, length-readable)

      rest : readable (record b { position = b.position +ℤ pos size }) ≡ drop size (readable b)
      rest =
          ap (λ t. take (pos_part b.limit - t) (drop (4 + t) b.block)) {y = p + size}
            (ground (arith, v))
          ∙ ap (λ k. take k (drop (4 + (p + size)) b.block)) {y = r - size} (omega arith)
          ∙ ap (λ t. take (r - size) (drop t b.block)) {y = 4 + p + size} (omega arith)
          ∙ sym (ap (take (r - size)) (drop-drop (4 + p) size b.block))
          ∙ sym (drop-take size (r - size) (drop (4 + p) b.block))
          ∙ ap (λ t. drop size (take t (drop (4 + p) b.block))) {x = size + (r - size)}
              (omega (arith, length-readable))

  -- `put` of `n` bytes that fit between the position and the limit keeps the invariant, and after a
  -- `flip` the buffer gives out what it would have given out before, followed by those bytes.
  pub put-flip :
      (source : Bytes) (n : ℕ)
      → n ≤ length source
      → n ≤ length (readable b)
      → (b' : ByteBuffer) × (put b source (pos n) ≡ ok b')
        × IsValid c b'
        × (readable (flip b') ≡ readable (flip b) ++ take n source)
  put-flip source n given room = (
    after_put source n,
    put-after_put source n room given,
    after_put-IsValid source n room given,
    readable-flip source n room given,
  )

-- What Connection::write makes of `n` bytes: a buffer of just that size, filled and flipped.
pub filled : Allocator → Bytes → ℤ → Result ByteBuffer
filled heap source len = do
  empty_buffer ← new heap len
  full_buffer ← put empty_buffer source len
  ok (flip full_buffer)

-- For 1 to 2^31 - 1 bytes that the source block has, the buffer that Connection::write makes of them
-- is made without an error, is valid with just that capacity, and gives out exactly these bytes.
pub filled-readable :
    (heap : Allocator) (source : Bytes) (n : ℕ)
    → 0 < n
    → n < 2 ^ 31
    → n ≤ length source
    → (b : ByteBuffer) × (filled heap source (pos n) ≡ ok b)
      × IsValid n b
      × (readable b ≡ take n source)
unfolding filled flip
filled-readable heap source n h small given =
    let (b, made, v, start, end) = new-IsValid heap n h small in
    let (b', stored, v', same) =
      put-flip v source n given (ground (arith, length-readable v, start, end)) in
    (
      flip b',
      rw (made, stored),
      flip-IsValid v',
      same ∙ ap (λ t. take (pos_part t - 0) (drop 4 b.block) ++ take n source) start,
    )
