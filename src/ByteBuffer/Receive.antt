-- ===== src/ByteBuffer/Receive.antt =====
-- Storing bytes at data(), moving the position behind them, and flipping: what a reader of a socket
-- does with a cleared buffer.
use mathlib.Core.Path.{subst}
use mutiplex.Base.{
  ap₂, drop, ◌-◌, ℕ, ◌+◌, ◌≤◌, ◌≡◌, refl, sym, ap, ◌∙◌, true, ◌&&◌, ok, [], ◌++◌, length, take,
  take-of_length_le, arith, if◌then◌else◌,
}
use mutiplex.Base.Int.{pos, negsuc, pos_part, ◌+ℤ◌, leb_ℤ, ltb_ℤ}
use mutiplex.Base.Memory.{Bytes, memcpy_int, memcpy-ok}
use mutiplex.ByteBuffer.{ByteBuffer, flip, data_offset, set_position}
use mutiplex.ByteBuffer.Invariant.{IsValid, flip-IsValid}
use mutiplex.ByteBuffer.Transfer.{
  readable, offset, stored, after_put, length-readable, inside, after_put-IsValid, readable-flip,
}

-- The buffer with its bytes stored, and the position behind `n` of them.
abbrev pub placed : ByteBuffer → Bytes → ℕ → ByteBuffer
placed b block n = record b {
  block = block;
  position = pos n;
  mark = if ltb_ℤ (pos n) b.mark then negsuc 0 else b.mark;
}

module _ {c : ℕ} {b : ByteBuffer} (v : IsValid c b) (start : b.position ≡ pos 0)
    (end : b.limit ≡ pos c) (source : Bytes) (room : length source ≤ c) where
  fits : length source ≤ length (readable b)
  fits = ground (arith, length-readable v, start, end)

  -- The block with the bytes in it.
  abbrev pub filled_block : Bytes
  filled_block = stored v source (length source)

  pub store_lem :
      memcpy_int b.block (data_offset b) source (pos 0) (pos (length source)) ≡ ok filled_block
  unfolding memcpy_int
  store_lem =
      rw
        (
          offset v,
          memcpy-ok b.block (4 + pos_part b.position) source 0 (length source)
              (inside v source (length source) fits (omega arith)) (omega arith),
        )
        refl

  pub place_lem :
      set_position (record b { block = filled_block }) (pos (length source))
      ≡ ok (placed b filled_block (length source))
  unfolding set_position
  place_lem = rw inner refl
    where
      inner : (leb_ℤ (pos (length source)) b.limit && leb_ℤ (pos 0) (pos (length source))) ≡ true
      inner = ground (arith, end)

  behind : b.position +ℤ pos (length source) ≡ pos (length source)
  behind = ap (λ p. p +ℤ pos (length source)) start ∙ ground arith

  flipped : flip (after_put v source (length source)) ≡ flip (placed b filled_block (length source))
  unfolding flip
  flipped =
      ap (λ l. record { limit = l; mark = negsuc 0; position = pos 0; block = filled_block }) behind

  nothing_before : readable (flip b) ≡ []
  unfolding flip
  nothing_before = ap (λ p. take (pos_part p - 0) (drop 4 b.block)) start

  -- After that the buffer is valid, and gives out just these bytes.
  pub received_lem :
      IsValid c (flip (placed b filled_block (length source)))
      × (readable (flip (placed b filled_block (length source))) ≡ source)
  received_lem = (
    subst (IsValid c) flipped
        (flip-IsValid (after_put-IsValid v source (length source) fits (omega arith))),
    ap readable (sym flipped)
        ∙ readable-flip v source (length source) fits (omega arith)
        ∙ ap₂ (λ xs ys. xs ++ ys) nothing_before
            (take-of_length_le (length source) source (omega arith)),
  )
