-- ===== src/CircularBuffer/UnitTest/Moving.antt =====
-- Blocks that go into a ring and out of it.
use mutiplex.Base.{
  ℕ, ◌^◌, ◌≤◌, ◌<◌, ◌≡◌, refl, sym, ap, ap₂, ◌∙◌, inl, inr, true, false, Bool-cases, ==_refl, ok,
  [], ◌∷◌, ◌++◌, length, take, drop, min, length-drop, append-nil, take-of_length_le, length-nil,
  Always-ok, arith,
}
use mutiplex.Base.Memory.{Bytes, Allocator}
use mutiplex.CircularBuffer.{CircularBuffer, put, get, full}
use mutiplex.CircularBuffer.Invariant.{length-contents, IsValid, contents, full_iff}
use mutiplex.CircularBuffer.Fifo.{put-appends}
use mutiplex.CircularBuffer.Hollow.{hollow-Roomy}
use mutiplex.CircularBuffer.Get.{get-drops}
use mutiplex.CircularBuffer.Bounded.{get-capacity}
use mutiplex.CircularBuffer.UnitTest.{same_bytes}

pub same_bytes_refl : (xs : Bytes) → same_bytes xs xs ≡ true
unfolding same_bytes
same_bytes_refl [] = refl
same_bytes_refl (x ∷ xs) = rw (==_refl x, same_bytes_refl xs)

-- A `get` of bytes that are held.
pub get-held :
    {b : CircularBuffer} (buffer : Bytes) (n : ℕ)
    → IsValid b
    → n ≤ length buffer
    → n ≤ length (contents b)
    → (b' : CircularBuffer) × (get b buffer n ≡ ok (n, take n (contents b) ++ drop n buffer, b'))
      × IsValid b'
      × (contents b' ≡ drop n (contents b))
      × (b'.capacity ≡ b.capacity)
get-held {b} buffer n v room held =
    let (b', made, v', same) = get-drops buffer n v room in
    let all : min n (length (contents b)) ≡ n = omega (arith, held) in
    (
      b',
      made ∙ ap (λ k. ok (k, take k (contents b) ++ drop k buffer, b')) all,
      v',
      same ∙ ap (λ k. drop k (contents b)) all,
      Always-ok (λ o. o.2.capacity ≡ b.capacity) made (get-capacity b buffer n),
    )

pub full_at : {b : CircularBuffer} → IsValid b → length (contents b) ≡ b.capacity → full b ≡ true
full_at {b} v e = (full_iff b).1 (sym (length-contents b) ∙ e)

pub unfilled_at :
    {b : CircularBuffer} → IsValid b → length (contents b) < b.capacity → full b ≡ false
unfilled_at {b} v less = elim (Bool-cases (full b)) [
  | inl f ↦ absurd (omega (arith, (full_iff b).0 f, less, length-contents b))
  | inr n ↦ n
]

module _ (heap : Allocator) where
  -- A block that goes into an empty ring, and out again.
  pub there_and_back :
      (xs out : Bytes) (n : ℕ) {b : CircularBuffer}
      → length xs ≡ n
      → length out ≡ n
      → n ≤ 2 ^ 30
      → IsValid b
      → contents b ≡ []
      → (b1 b2 : CircularBuffer) × (put heap b xs n ≡ ok b1)
        × (get b1 out n ≡ ok (n, xs, b2))
        × IsValid b2
        × (contents b2 ≡ [])
  there_and_back xs out n {b} given space small v bare =
      let (b1, made, v1, same, cap) =
        put-appends heap xs n v (omega (arith, given)) (hollow-Roomy n v bare small) in
      let held : contents b1 ≡ xs =
        same ∙ ap₂ ◌++◌ bare (take-of_length_le n xs (omega (arith, given))) in
      let many : length (contents b1) ≡ n = ap length held ∙ given in
      let (b2, got, v2, rest, _) = get-held out n v1 (omega (arith, space)) (omega (arith, many)) in
      (
        b1,
        b2,
        made,
        got
            ∙ ap (λ ys. ok (n, ys, b2))
                (ap₂ ◌++◌ (take-of_length_le n (contents b1) (omega (arith, many)) ∙ held)
                    (length-nil (drop n out) (omega (arith, length-drop n out, space)))
                  ∙ append-nil xs),
        v2,
        length-nil (contents b2) (omega (arith, ap length rest, length-drop n (contents b1), many)),
      )
