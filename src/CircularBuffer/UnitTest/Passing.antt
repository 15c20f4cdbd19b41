-- ===== src/CircularBuffer/UnitTest/Passing.antt =====
-- That the tests pass.
use mutiplex.Base.{
  ℕ, ◌≤◌, ◌≡◌, refl, sym, ap, ap₂, ◌∙◌, true, ok, [], ◌++◌, length, take, drop, length-take,
  length-drop, length-append, append-nil, take-append-drop, take-of_length_le, length-nil,
  take-append_left, arith,
}
use mutiplex.Base.Memory.{Bytes, Allocator}
use mutiplex.CircularBuffer.{new, is_pow_of_two}
use mutiplex.CircularBuffer.Invariant.{contents, new-IsValid}
use mutiplex.CircularBuffer.Put.{put-fits}
use mutiplex.CircularBuffer.Hollow.{hollow_roomy}
use mutiplex.CircularBuffer.UnitTest.{
  same_bytes, test_circular_buffer, test_resize_0, test_resize_1,
}
use mutiplex.CircularBuffer.UnitTest.Moving.{
  same_bytes_refl, get-held, full_at, unfilled_at, there_and_back,
}
use mutiplex.CircularBuffer.UnitTest.Rounds.{test_circular_buffer-passes}

module _ (heap : Allocator) where
  test_resize_0-passes :
      (buf_src buf_dest : Bytes)
      → length buf_src ≡ 100
      → length buf_dest ≡ 100
      → test_resize_0 heap buf_src buf_dest ≡ ok true
  unfolding test_resize_0
  test_resize_0-passes buf_src buf_dest given space =
      let (v, bare, wide) = new-IsValid heap 2 (omega arith) in
      let (b1, b2, put1, get1, v2, bare2) =
        there_and_back heap buf_src buf_dest 100 given space (omega arith) v bare in
      let (b3, b4, put2, get2, v4, bare4) =
        there_and_back heap buf_src buf_src 100 given given (omega arith) v2 bare2 in
      rw (put1, get1, put2, get2, same_bytes_refl buf_src) refl

  capacity_128 : (new heap 128).capacity ≡ 128
  unfolding new is_pow_of_two
  capacity_128 = refl

  test_resize_1-passes :
      (buf_src buf_dest : Bytes)
      → length buf_src ≡ 128
      → length buf_dest ≡ 128
      → test_resize_1 heap buf_src buf_dest ≡ ok true
  unfolding test_resize_1
  test_resize_1-passes buf_src buf_dest given space =
      let (v, bare, wide) = new-IsValid heap 128 (omega arith) in
      let (b1, put1, (v1, same, cap)) =
        put-fits heap buf_src 128 v (omega (arith, given))
          (omega (arith, hollow_roomy v bare, wide (omega arith))) in
      let held : contents b1 ≡ buf_src =
        same ∙ ap₂ ◌++◌ bare (take-of_length_le 128 buf_src (omega (arith, given))) in
      let many : length (contents b1) ≡ 128 = ap length held ∙ given in
      let exact = cap ∙ capacity_128 in
      let (b2, get1, v2, rest, cap2) =
        get-held buf_dest 64 v1 (omega (arith, space)) (omega (arith, many)) in
      let few : length (contents b2) ≡ 64 =
        omega (arith, ap length rest, length-drop 64 (contents b1), many) in
      let dest = take 64 (contents b1) ++ drop 64 buf_dest in
      let size : length (drop 64 dest) ≡ 64 = omega (
        arith,
        length-drop 64 dest,
        length-append (take 64 (contents b1)) (drop 64 buf_dest),
        length-take 64 (contents b1),
        length-drop 64 buf_dest,
        many,
        space,
      ) in
      let (b3, get2, v3, none_left, cap3) =
        get-held (drop 64 dest) 64 v2 (omega (arith, size)) (omega (arith, few)) in
      rw
        (
          put1,
          get1,
          get2,
          full_at v1 (many ∙ sym exact),
          unfilled_at v2 (omega (arith, few, cap2, exact)),
          both buf_src (contents b1) (contents b2) (drop 64 buf_dest) (drop 64 (drop 64 dest)) held
              rest (omega (arith, many)) (omega (arith, few))
              (length-nil (drop 64 (drop 64 dest))
                (omega (arith, length-drop 64 (drop 64 dest), size))),
        )
        refl
    where
      both :
          (xs ys zs more other : Bytes)
          → ys ≡ xs
          → zs ≡ drop 64 ys
          → 64 ≤ length ys
          → length zs ≤ 64
          → other ≡ []
          → same_bytes xs (take 64 (take 64 ys ++ more) ++ (take 64 zs ++ other)) ≡ true
      both xs ys zs more other e f h k n =
          ap (same_bytes xs) (
            ap₂ ◌++◌ (take-append_left 64 (take 64 ys) more (omega (arith, length-take 64 ys, h)))
              (ap₂ ◌++◌ (take-of_length_le 64 zs k ∙ f) n ∙ append-nil (drop 64 ys))
            ∙ take-append-drop 64 ys
            ∙ e)
          ∙ same_bytes_refl xs

  -- The first three tests pass, the first one for any number of rounds, whatever bytes they put in and
  -- their other blocks have at first, and whatever malloc leaves in a block: no assertion fails, and
  -- no access leaves a block.
  pub tests-pass :
      (n : ℕ) (buf_src buf_out : Bytes)
      → length buf_src ≡ 100
      → length buf_out ≡ 100
      → (src dest : Bytes) → length src ≡ 128
      → length dest ≡ 128
      → (test_circular_buffer heap n buf_src buf_out ≡ ok true)
        × (test_resize_0 heap buf_src buf_out ≡ ok true)
        × (test_resize_1 heap src dest ≡ ok true)
  tests-pass n buf_src buf_out given space src dest given' space' = (
    test_circular_buffer-passes heap n buf_src buf_out given space,
    test_resize_0-passes buf_src buf_out given space,
    test_resize_1-passes src dest given' space',
  )
