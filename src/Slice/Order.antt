-- ===== src/Slice/Order.antt =====
-- The comparisons of Slice, against the order of byte strings.
use Prim.Native.Nat.{compare, Ordering, lt, eq, gt}
use mutiplex.Base.{
  ℕ, zero, suc, ◌-◌, ◌≤◌, min, ◌≡◌, ◌↔◌, refl, sym, ap, ap₂, ◌∙◌, true, ltb, if◌then◌else◌, length,
  take, [], ◌∷◌, arith, length-take, take-take, le→leb, drop-take, length-drop, ◌+◌, ok, drop,
}
use mutiplex.Base.Int.{ℤ, pos, negsuc}
use mutiplex.Base.Memory.{Bytes}
use mutiplex.Slice
use mutiplex.Slice.{Slice, to_string, is_zero, remove_prefix}

-- The order of byte strings: the first difference decides, and a proper prefix is less.
pub lex : Bytes → Bytes → Ordering
lex [] [] = eq
lex [] (y ∷ ys) = lt
lex (x ∷ xs) [] = gt
lex (x ∷ xs) (y ∷ ys) = elim (compare x y) [ lt ↦ lt | eq ↦ lex xs ys | gt ↦ gt ]

abbrev pub sign : ℤ → Ordering
sign (negsuc n) = lt
sign (pos zero) = eq
sign (pos (suc n)) = gt

-- memcmp as its manual describes it: the sign is that of the order of the first `n` bytes.
abbrev pub ComparesBytes : (Bytes → Bytes → ℕ → ℤ) → Type 0
ComparesBytes memcmp =
    (xs ys : Bytes) (n : ℕ)
    → n ≤ length xs
    → n ≤ length ys
    → sign (memcmp xs ys n) ≡ lex (take n xs) (take n ys)

-- A slice that does not reach past its block.
abbrev pub IsInside : Slice → Type 0
IsInside s = s.size ≤ length s.bytes

abbrev then_by : Ordering → Ordering → Ordering
then_by lt o = lt
then_by eq o = o
then_by gt o = gt

lex-common :
    (m : ℕ) (xs ys : Bytes)
    → m ≡ min (length xs) (length ys)
    → lex xs ys ≡ then_by (lex (take m xs) (take m ys)) (compare (length xs) (length ys))
unfolding lex
lex-common zero [] [] e = ground arith
lex-common zero [] (y ∷ ys) e = ground arith
lex-common zero (x ∷ xs) [] e = ground arith
lex-common zero (x ∷ xs) (y ∷ ys) e = absurd (omega arith)
lex-common (suc m) [] ys e = absurd (omega arith)
lex-common (suc m) (x ∷ xs) [] e = absurd (omega arith)
lex-common (suc m) (x ∷ xs) (y ∷ ys) e = ground (arith, lex-common m xs ys)

lex-eq : (xs ys : Bytes) → lex xs ys ≡ eq → xs ≡ ys
unfolding lex
lex-eq [] [] e = refl
lex-eq [] (y ∷ ys) e = cc
lex-eq (x ∷ xs) [] e = cc
lex-eq (x ∷ xs) (y ∷ ys) e = ground (arith, lex-eq xs ys)

lex_refl : (xs : Bytes) → lex xs xs ≡ eq
unfolding lex
lex_refl [] = refl
lex_refl (x ∷ xs) = ground (arith, lex_refl xs)

zero_iff : (r : ℤ) → (is_zero r ≡ true) ↔ (sign r ≡ eq)
zero_iff (pos zero) = ((λ e. refl), (λ e. refl))
zero_iff (pos (suc n)) = ((λ e. ground arith), (λ e. cc))
zero_iff (negsuc n) = ((λ e. cc), (λ e. cc))

result_lem :
    (r : ℤ) (a b : ℕ)
    → sign (if is_zero r then (if ltb a b then negsuc 0 else if ltb b a then pos 1 else r) else r)
      ≡ then_by (sign r) (compare a b)
result_lem (pos zero) a b = ground arith
result_lem (pos (suc n)) a b = ground arith
result_lem (negsuc n) a b = refl

length-to_string : (s : Slice) → IsInside s → length (to_string s) ≡ s.size
unfolding to_string
length-to_string s h = omega (arith, length-take s.size s.bytes)

module _ (memcmp : Bytes → Bytes → ℕ → ℤ) (law : ComparesBytes memcmp) where
  same_iff :
      (xs ys : Bytes) (n : ℕ)
      → n ≤ length xs
      → n ≤ length ys
      → (is_zero (memcmp xs ys n) ≡ true) ↔ (take n xs ≡ take n ys)
  same_iff xs ys n hx hy = (
    λ e. lex-eq (take n xs) (take n ys) (sym (law xs ys n hx hy) ∙ (zero_iff (memcmp xs ys n)).0 e),
    λ e.
        (zero_iff (memcmp xs ys n)).1
          (law xs ys n hx hy ∙ ap (lex (take n xs)) (sym e) ∙ lex_refl (take n xs)),
  )

  -- With a memcmp as described, and slices that lie within their blocks, compare() orders slices as
  -- byte strings: it is negative, zero or positive as the one string is less than, equal to or
  -- greater than the other.
  pub compare-lex :
      (s b : Slice)
      → IsInside s
      → IsInside b
      → sign (Slice.compare memcmp s b) ≡ lex (to_string s) (to_string b)
  unfolding Slice.compare to_string
  compare-lex s b hs hb =
      result_lem r s.size b.size
      ∙ ap (λ t. then_by t (compare s.size b.size))
          (law s.bytes b.bytes m (omega (arith, least)) (omega (arith, least)))
      ∙ sym whole
    where
      m : ℕ
      m = if ltb s.size b.size then s.size else b.size

      least : m ≡ min s.size b.size
      least = ground arith

      r : ℤ
      r = memcmp s.bytes b.bytes m

      whole :
          lex (take s.size s.bytes) (take b.size b.bytes)
          ≡ then_by (lex (take m s.bytes) (take m b.bytes)) (compare s.size b.size)
      whole =
          lex-common m (take s.size s.bytes) (take b.size b.bytes)
            (omega (arith, least, length-take s.size s.bytes, length-take b.size b.bytes))
          ∙ ap₂
              (λ u v.
                then_by (lex u v)
                  (compare (length (take s.size s.bytes)) (length (take b.size b.bytes))))
              (take-take m s.size s.bytes (omega (arith, least)))
              (take-take m b.size b.bytes (omega (arith, least)))
          ∙ ap₂ (λ u v. then_by (lex (take m s.bytes) (take m b.bytes)) (compare u v))
              (length-to_string s hs) (length-to_string b hb)

  -- With a memcmp as described, `==` holds of two slices that lie within their blocks just if their
  -- byte strings are equal.
  pub eq_iff :
      (s b : Slice)
      → IsInside s
      → IsInside b
      → (Slice.eq memcmp s b ≡ true) ↔ (to_string s ≡ to_string b)
  unfolding Slice.eq to_string
  eq_iff s b hs hb = (same, equal)
    where
      same : Slice.eq memcmp s b ≡ true → take s.size s.bytes ≡ take b.size b.bytes
      same h =
          let sizes : s.size ≡ b.size = ground arith in
          let bytes : is_zero (memcmp s.bytes b.bytes s.size) ≡ true = ground arith in
          (same_iff s.bytes b.bytes s.size hs (omega (arith, sizes))).0 bytes
          ∙ ap (λ t. take t b.bytes) sizes

      equal : take s.size s.bytes ≡ take b.size b.bytes → Slice.eq memcmp s b ≡ true
      equal e =
          let sizes : s.size ≡ b.size =
            sym (length-to_string s hs) ∙ ap length e ∙ length-to_string b hb in
          let bytes =
            (same_iff s.bytes b.bytes s.size hs (omega (arith, sizes))).1
              (e ∙ ap (λ t. take t b.bytes) (sym sizes)) in
          ground (arith, sizes, bytes)

  -- With a memcmp as described, and slices that lie within their blocks, starts_with() holds exactly
  -- where the string of the other slice is a prefix of this one's.
  pub starts_with_iff :
      (s x : Slice)
      → IsInside s
      → IsInside x
      → (Slice.starts_with memcmp s x ≡ true)
        ↔ (take (length (to_string x)) (to_string s) ≡ to_string x)
  unfolding Slice.starts_with to_string
  starts_with_iff s x hs hx = (prefix, starts)
    where
      shorter : x.size ≤ s.size → take x.size (take s.size s.bytes) ≡ take x.size s.bytes
      shorter h = take-take x.size s.size s.bytes h

      prefix :
          Slice.starts_with memcmp s x ≡ true
          → take (length (take x.size x.bytes)) (take s.size s.bytes) ≡ take x.size x.bytes
      prefix h =
          let sizes : x.size ≤ s.size = ground arith in
          let bytes : is_zero (memcmp s.bytes x.bytes x.size) ≡ true = ground arith in
          ap (λ t. take t (take s.size s.bytes)) (length-to_string x hx)
          ∙ shorter sizes
          ∙ (same_iff s.bytes x.bytes x.size (omega (arith, sizes)) hx).0 bytes

      starts :
          take (length (take x.size x.bytes)) (take s.size s.bytes) ≡ take x.size x.bytes
          → Slice.starts_with memcmp s x ≡ true
      starts e =
          let e' = sym (ap (λ t. take t (take s.size s.bytes)) (length-to_string x hx)) ∙ e in
          let sizes : x.size ≤ s.size = omega (
            arith,
            ap length e',
            length-take x.size (take s.size s.bytes),
            length-take s.size s.bytes,
            length-take x.size x.bytes,
          ) in
          let bytes =
            (same_iff s.bytes x.bytes x.size (omega (arith, sizes)) hx).1
              (sym (shorter sizes) ∙ e') in
          ground (arith, sizes, bytes)

-- remove_prefix() of at most size() bytes returns, stays inside the block, and drops just these bytes
-- from the string.
pub remove_prefix-drops :
    (s : Slice) (n : ℕ)
    → IsInside s
    → n ≤ s.size
    → (t : Slice) × (remove_prefix s n ≡ ok t) × IsInside t × (to_string t ≡ drop n (to_string s))
unfolding remove_prefix to_string
remove_prefix-drops s n inside h = (
  record { bytes = drop n s.bytes; size = s.size - n },
  rw (le→leb n s.size h),
  omega (arith, inside, length-drop n s.bytes),
  sym (drop-take n (s.size - n) s.bytes)
      ∙ ap (λ t. drop n (take t s.bytes)) {x = n + (s.size - n)} (omega arith),
)
