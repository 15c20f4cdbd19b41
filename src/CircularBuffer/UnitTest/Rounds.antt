-- ===== src/CircularBuffer/UnitTest/Rounds.antt =====
-- The first test: a ring that two puts fill and two gets empty, any number of times.
use mutiplex.Base.{
  ℕ, zero, suc, ◌+◌, ◌≤◌, ◌≡◌, refl, ap, ap₂, ◌∙◌, ◌⊎◌, inl, inr, true, ok, [], ◌++◌, length, take,
  drop, length-take, length-drop, length-append, take-append-drop, take-of_length_le, length-nil,
  take-append_left, arith,
}
use mutiplex.Base.Memory.{Bytes, Allocator}
use mutiplex.CircularBuffer.{
  CircularBuffer, new, put, buffer_remaining, is_pow_of_two, roundup_pow_of_two, roundup_loop,
}
use mutiplex.CircularBuffer.Invariant.{
  length-contents, IsValid, contents, valid-Layout, new-IsValid,
}
use mutiplex.CircularBuffer.Fifo.{Roomy, put-appends}
use mutiplex.CircularBuffer.Hollow.{hollow_roomy, unfilled-parted}
use native.Mathlib.Decide.{dec_le}
use mutiplex.CircularBuffer.UnitTest.{same_bytes, round, rounds, test_circular_buffer}
use mutiplex.CircularBuffer.UnitTest.Moving.{same_bytes_refl, get-held}

-- The ring between two rounds.
record Rested (b : CircularBuffer) : Type 0 where
  valid : IsValid b
  bare : contents b ≡ []
  size : (b.capacity ≡ 32) ⊎ (72 ≤ b.capacity)

module _ (heap : Allocator) where
  -- The two puts.
  filled :
      (buf_src : Bytes) {b : CircularBuffer}
      → length buf_src ≡ 100
      → Rested b
      → (b1 b2 : CircularBuffer) × (put heap b buf_src 40 ≡ ok b1)
        × (put heap b1 (drop 40 buf_src) 60 ≡ ok b2)
        × IsValid b2
        × (contents b2 ≡ buf_src)
        × (72 ≤ b2.capacity)
  filled buf_src {b} given r =
      let (b1, made, v1, same, cap) =
        put-appends heap buf_src 40 r.valid (omega (arith, given)) room in
      let held : contents b1 ≡ take 40 buf_src = same ∙ ap (λ xs. xs ++ take 40 buf_src) r.bare in
      let few : length (contents b1) ≡ 40 =
        omega (arith, ap length held, length-take 40 buf_src, given) in
      let wide = grown v1 few cap in
      let (b2, made', v2, same', cap') =
        put-appends heap (drop 40 buf_src) 60 v1 (omega (arith, length-drop 40 buf_src, given))
          (more v1 few wide) in
      (
        b1,
        b2,
        made,
        made',
        v2,
        same'
            ∙ ap₂ ◌++◌ held (
                take-of_length_le 60 (drop 40 buf_src)
                  (omega (arith, length-drop 40 buf_src, given)))
            ∙ take-append-drop 40 buf_src,
        elim cap' [ inl e ↦ omega (arith, wide, e) | inr h ↦ omega (arith, wide, h) ],
      )
    where
      fewer : {b : CircularBuffer} → IsValid b → length (contents b) ≤ b.capacity
      fewer {b} v = omega (arith, (valid-Layout v).len_le, length-contents b)

      room : Roomy b 40
      room = elim r.size [
        | inl e ↦
            inr (omega (arith, e), unfilled-parted r.valid (omega (arith, e, ap length r.bare)))
        | inr h ↦ inl (omega (arith, h, hollow_roomy r.valid r.bare))
      ]

      grown :
          {b1 : CircularBuffer}
          → IsValid b1
          → length (contents b1) ≡ 40
          → (b1.capacity ≡ b.capacity) ⊎ (40 + b.capacity ≤ b1.capacity)
          → 72 ≤ b1.capacity
      grown v1 few (inl same) = elim r.size [
        | inl e ↦ absurd (omega (arith, few, fewer v1, same, e))
        | inr h ↦ omega (arith, same, h)
      ]
      grown v1 few (inr wide) = elim r.size [
        | inl e ↦ omega (arith, wide, e)
        | inr h ↦ omega (arith, wide, h)
      ]

      more :
          {b1 : CircularBuffer}
          → IsValid b1
          → length (contents b1) ≡ 40
          → 72 ≤ b1.capacity
          → Roomy b1 60
      more {b1} v1 few wide = elim (dec_le 60 (buffer_remaining b1)) [
        | yes fits ↦ inl fits
        | no short ↦ inr (
          omega (arith, short, (valid-Layout v1).remaining, few, length-contents b1),
          unfilled-parted v1 (omega (arith, few, wide)),
        )
      ]

  round-passes :
      (buf_src buf_out : Bytes) {b : CircularBuffer}
      → length buf_src ≡ 100
      → length buf_out ≡ 100
      → Rested b
      → (out : Bytes) × (b' : CircularBuffer) × (round heap buf_src buf_out b ≡ ok (true, out, b'))
        × (length out ≡ 100)
        × Rested b'
  unfolding round
  round-passes buf_src buf_out {b} given space r =
      let (b1, b2, put1, put2, v2, all, wide) = filled buf_src given r in
      let many : length (contents b2) ≡ 100 = ap length all ∙ given in
      let (b3, get1, v3, rest, cap3) =
        get-held buf_out 60 v2 (omega (arith, space)) (omega (arith, many)) in
      let out = take 60 (contents b2) ++ drop 60 buf_out in
      let size : length out ≡ 100 = omega (
        arith,
        length-append (take 60 (contents b2)) (drop 60 buf_out),
        many,
        space,
        length-take 60 (contents b2),
        length-drop 60 buf_out,
      ) in
      let left : length (contents b3) ≡ 40 =
        omega (arith, ap length rest, length-drop 60 (contents b2), many) in
      let (b4, get2, v4, none_left, cap4) =
        get-held (drop 40 out) 40 v3 (omega (arith, length-drop 40 out, size))
          (omega (arith, left)) in
      let out' = take 40 (contents b3) ++ drop 40 (drop 40 out) in
      (
        take 40 out ++ out',
        b4,
        rw
            (
              put1,
              put2,
              get1,
              get2,
              got 60 buf_src (contents b2) (drop 60 buf_out) all (omega (arith, given)),
              got 40 (drop 60 buf_src) (contents b3) (drop 40 (drop 40 out))
                  (rest ∙ ap (drop 60) all) (omega (arith, length-drop 60 buf_src, given)),
            )
            refl,
        omega (
          arith,
          length-append (take 40 out) out',
          length-append (take 40 (contents b3)) (drop 40 (drop 40 out)),
          length-take 40 out,
          length-take 40 (contents b3),
          length-drop 40 (drop 40 out),
          length-drop 40 out,
          size,
          left,
        ),
        record {
          valid = v4;
          bare =
              length-nil (contents b4)
                (omega (arith, ap length none_left, length-drop 40 (contents b3), left));
          size = inr (omega (arith, cap4, cap3, wide));
        },
      )
    where
      got :
          (n : ℕ) (xs ys more : Bytes)
          → ys ≡ xs
          → n ≤ length xs
          → same_bytes (take n xs) (take n (take n ys ++ more)) ≡ true
      got n xs ys more e h =
          ap (same_bytes (take n xs)) (
            take-append_left n (take n ys) more (omega (arith, length-take n ys, ap length e, h))
            ∙ ap (take n) e)
          ∙ same_bytes_refl (take n xs)

  rounds-passes :
      (n : ℕ) (buf_src buf_out : Bytes) {b : CircularBuffer}
      → length buf_src ≡ 100
      → length buf_out ≡ 100
      → Rested b
      → rounds heap n buf_src buf_out b ≡ ok true
  unfolding rounds
  rounds-passes zero buf_src buf_out given space r = refl
  rounds-passes (suc n) buf_src buf_out given space r =
      let (out, b', made, space', r') = round-passes buf_src buf_out given space r in
      rw made (rounds-passes n buf_src out given space' r')

  pub test_circular_buffer-passes :
      (n : ℕ) (buf_src buf_out : Bytes)
      → length buf_src ≡ 100
      → length buf_out ≡ 100
      → test_circular_buffer heap n buf_src buf_out ≡ ok true
  unfolding test_circular_buffer new is_pow_of_two roundup_pow_of_two roundup_loop
  test_circular_buffer-passes n buf_src buf_out given space =
      let (v, bare, wide) = new-IsValid heap 30 (omega arith) in
      rounds-passes n buf_src buf_out given space
        (record { valid = v; bare = bare; size = inl refl })
