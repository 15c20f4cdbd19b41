-- ===== src/CircularBuffer/Capacity.antt =====
-- The capacities that the constructor and `resize` choose: powers of two up to 2^31.
use native.Mathlib.Nat.{pow-suc, one-le-pow, pow-le-pow_right}
use native.Mathlib.Decide.{dec_lt}
use mutiplex.Base.{
  ℕ, zero, suc, ◌+◌, ◌-◌, ◌*◌, ◌^◌, ◌≤◌, ◌<◌, ◌≡◌, refl, ◌↔◌, ◌⊎◌, inl, inr, bit_and, true, ltb,
  leb, ap, ap₂, ◌∙◌, Bool-cases, ltb→lt, ltb→le, leb→le, leb→lt, arith,
}
use mutiplex.Base.Bits.{bit_and_pred-zero, bit_and_pred-pow}
use mutiplex.Base.Word.{u32, u32_sub}
use mutiplex.CircularBuffer.{is_pow_of_two, roundup_loop, roundup_pow_of_two}

abbrev pub IsPowerOfTwo : ℕ → Type 0
IsPowerOfTwo v = (k : ℕ) × (k ≤ 31) × (v ≡ 2 ^ k)

pow-le_31 : (k : ℕ) → k ≤ 31 → 2 ^ k ≤ 2 ^ 31
pow-le_31 k h = pow-le-pow_right (omega arith) h

exponent_le' : (k : ℕ) → 2 ^ k < 2 ^ 32 → k ≤ 31
exponent_le' k h = elim (dec_lt 31 k) [
  | yes big ↦ absurd (omega (arith, pow-le-pow_right {n = 2} (omega arith) {i = 32} {j = k} big))
  | no small ↦ omega arith
]

minus_one : (v : ℕ) → 0 < v → v < 2 ^ 32 → u32_sub v 1 ≡ v - 1
minus_one v p h = omega arith

is_pow_of_two_sound : (v : ℕ) → v < 2 ^ 32 → is_pow_of_two v ≡ true → IsPowerOfTwo v
unfolding is_pow_of_two
is_pow_of_two_sound v h e =
    let (k, q) = bit_and_pred-zero v v (omega arith) positive masked in
    (k, exponent_le' k (rw (← q) h), q)
  where
    positive : 0 < v
    positive = ground arith

    masked : bit_and v (v - 1) ≡ 0
    masked = ground (arith, ap (bit_and v) (minus_one v positive h))

is_pow_of_two_complete : (v : ℕ) → v < 2 ^ 32 → IsPowerOfTwo v → is_pow_of_two v ≡ true
unfolding is_pow_of_two
is_pow_of_two_complete v h (k, small, q) = ground (
  arith,
  q,
  one-le-pow k 2,
  bit_and_pred-pow k,
  ap₂ bit_and q (minus_one v positive h ∙ ap (λ t. t - 1) q),
)
  where
    positive : 0 < v
    positive = omega (arith, q, one-le-pow k 2)

-- On `uint32_t` the bit test finds the powers of two and no other number.
pub is_pow_of_two_iff : (v : ℕ) → v < 2 ^ 32 → (is_pow_of_two v ≡ true) ↔ IsPowerOfTwo v
is_pow_of_two_iff v h = (is_pow_of_two_sound v h, is_pow_of_two_complete v h)

-- `r` is the least power of two from 2^k on that is not below `v`, or 2^31.
abbrev Rounded : ℕ → ℕ → ℕ → Type 0
Rounded v k r =
    (j : ℕ) × (r ≡ 2 ^ j)
    × (k ≤ j)
    × (j ≤ 31)
    × ((v ≤ 2 ^ j) ⊎ (j ≡ 31))
    × ((j ≡ k) ⊎ (2 ^ j < 2 * v))

Rounded-widen : (v k r : ℕ) → 2 ^ k < v → Rounded v (suc k) r → Rounded v k r
Rounded-widen v k r h (j, e, lo, hi, big, inl p) =
    (j, e, omega arith, hi, big, inr (omega (arith, ap (λ t. 2 ^ t) p, pow-suc 2 k)))
Rounded-widen v k r h (j, e, lo, hi, big, inr p) = (j, e, omega arith, hi, big, inr p)

-- The loop, started at 2^k with 31 - k rounds left.
roundup_loop-Rounded : (left v k : ℕ) → left + k ≡ 31 → Rounded v k (roundup_loop left v (2 ^ k))
unfolding roundup_loop
roundup_loop-Rounded zero v k e = (k, refl, omega arith, omega arith, inr (omega arith), inl refl)
roundup_loop-Rounded (suc left) v k e = elim (Bool-cases (leb v (2 ^ k))) [
  | inl stop ↦ rw stop (k, refl, omega arith, omega arith, inl (leb→le v (2 ^ k) stop), inl refl)
  | inr more ↦
      rw (more, doubled)
        (Rounded-widen v k _ (leb→lt v (2 ^ k) more)
          (roundup_loop-Rounded left v (suc k) (omega arith)))
]
  where
    doubled : u32 (2 ^ k * 2) ≡ 2 ^ suc k
    doubled = omega (arith, pow-suc 2 k, pow-le_31 (suc k) (omega arith))

-- For an argument up to 2^31 the result is a power of two that is not below it, and less than twice
-- it unless it is 2; above 2^31 the result is 2^31, which is below the argument.
pub roundup_pow_of_two_lem :
    (v : ℕ)
    → IsPowerOfTwo (roundup_pow_of_two v)
      × (v ≤ 2 ^ 31 → v ≤ roundup_pow_of_two v)
      × (2 ^ 31 < v → roundup_pow_of_two v ≡ 2 ^ 31)
      × (2 ≤ v → roundup_pow_of_two v < 2 * v)
unfolding roundup_pow_of_two
roundup_pow_of_two_lem v = elim (Bool-cases (ltb v 2)) [
  | inl tiny ↦ rw tiny (
    (1, omega arith, refl),
    λ h. omega (arith, ltb→lt v 2 tiny),
    λ h. omega (arith, ltb→lt v 2 tiny),
    λ h. omega (arith, ltb→lt v 2 tiny),
  )
  | inr large ↦ rw large (cases (ltb→le v 2 large) (roundup_loop-Rounded 31 v 0 refl))
]
  where
    cases :
        2 ≤ v
        → Rounded v 0 (roundup_loop 31 v 1)
        → IsPowerOfTwo (roundup_loop 31 v 1)
          × (v ≤ 2 ^ 31 → v ≤ roundup_loop 31 v 1)
          × (2 ^ 31 < v → roundup_loop 31 v 1 ≡ 2 ^ 31)
          × (2 ≤ v → roundup_loop 31 v 1 < 2 * v)
    cases h (j, e, lo, hi, big, tight) =
        let top = pow-le_31 j hi in
        let at_top = λ (p : j ≡ 31). ap (λ t. 2 ^ t) p in
        let at_one = λ (p : j ≡ 0). ap (λ t. 2 ^ t) p in
        (
          (j, hi, e),
          ground (arith, top, at_top, at_one),
          ground (arith, top, at_top, at_one),
          ground (arith, top, at_top, at_one),
        )

-- For 2 to 2^31 the result is the least power of two that is not below the argument: it is a power of
-- two, not below it, and less than twice it.
pub roundup-least :
    (v : ℕ)
    → 2 ≤ v
    → v ≤ 2 ^ 31
    → IsPowerOfTwo (roundup_pow_of_two v)
      × (v ≤ roundup_pow_of_two v)
      × (roundup_pow_of_two v < 2 * v)
roundup-least v low high =
    let (power, above, top, tight) = roundup_pow_of_two_lem v in (power, above high, tight low)
