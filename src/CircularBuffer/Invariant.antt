-- ===== src/CircularBuffer/Invariant.antt =====
-- What holds of a CircularBuffer between two calls, the index arithmetic that follows from it, and
-- the byte sequence that the buffer stands for.
use native.Mathlib.Nat.{
  mod-add-mod, mod-eq_of_lt, mod-eq-sub-mod, mod-lt, mod-mod_of_dvd, one-le-pow, pow-le-pow_right,
  pow-suc, dvd_refl, dvd-mul_right_of_dvd,
}
use Prim.Native.Nat.{◌∣◌}
use native.Mathlib.Nat.{zero-add, suc-add}
use native.Mathlib.Decide.{dec_lt}
use mathlib.Core.Path.{subst}
use mutiplex.Base.{
  ℕ, zero, suc, ◌+◌, ◌-◌, ◌%◌, ◌^◌, ◌≤◌, ◌<◌, ◌≡◌, refl, sym, ap, ◌∙◌, ◌↔◌, ◌⊎◌, inl, inr, true,
  Bool-cases, length-tabulate, ltb→lt, ltb→le, ltb, lt→ltb, le→ltb, ◌==◌, if◌then◌else◌, length,
  tabulate, arith, bit_and, [],
}
use mutiplex.Base.Bits.{bit_and_mask}
use mutiplex.Base.Word.{u32, u32_sub}
use mutiplex.Base.Memory.{Bytes, byte, Allocator}
use mutiplex.CircularBuffer.{
  CircularBuffer, buffer_len, buffer_remaining, in_index, out_index, empty, full, new, clear,
  is_pow_of_two, roundup_pow_of_two,
}
use mutiplex.CircularBuffer.Capacity.{IsPowerOfTwo, is_pow_of_two_iff, roundup_pow_of_two_lem}

pub record IsValid (b : CircularBuffer) : Type 0 where
  pub power : IsPowerOfTwo b.capacity
  pub block : length b.bytes ≡ b.capacity
  pub in_word : b.in_ < 2 ^ 32
  pub out_word : b.out_ < 2 ^ 32
  pub fits : buffer_len b ≤ b.capacity

-- The bytes held, oldest first: byte `i` stands at index `out_ + i`, modulo the capacity.
abbrev pub contents : CircularBuffer → Bytes
contents b = tabulate (buffer_len b) (λ i. byte b.bytes ((out_index b + i) % b.capacity))

pub length-contents : (b : CircularBuffer) → length (contents b) ≡ buffer_len b
length-contents b = length-tabulate (buffer_len b) _

-- The positions of the two indices, as facts of linear arithmetic.
pub record Layout (b : CircularBuffer) : Type 0 where
  pub cap_pos : 0 < b.capacity
  pub cap_small : b.capacity ≤ 2 ^ 31
  pub block : length b.bytes ≡ b.capacity
  pub out_lt : out_index b < b.capacity
  pub in_lt : in_index b < b.capacity
  pub len_le : buffer_len b ≤ b.capacity
  pub remaining : buffer_remaining b + buffer_len b ≡ b.capacity
  pub position :
      (in_index b ≡ out_index b + buffer_len b)
      ⊎ (in_index b + b.capacity ≡ out_index b + buffer_len b)

pow_dvd : (j k : ℕ) → 2 ^ k ∣ 2 ^ (j + k)
pow_dvd zero k = rw zero-add (dvd_refl (2 ^ k))
pow_dvd (suc j) k = rw (suc-add, pow-suc) (dvd-mul_right_of_dvd (2 ^ k) (pow_dvd j k) 2)

-- A power of two up to 2^31 divides the modulus of `uint32_t`.
pub cap_dvd : (c : ℕ) → IsPowerOfTwo c → c ∣ 2 ^ 32
cap_dvd c (k, h, e) = rw e (subst (λ t. 2 ^ k ∣ 2 ^ t) {y = 32} (omega arith) (pow_dvd (32 - k) k))

pub cap_pos : (c : ℕ) → IsPowerOfTwo c → 0 < c
cap_pos c (k, h, e) = omega (arith, e, one-le-pow k 2)

pub cap_small : (c : ℕ) → IsPowerOfTwo c → c ≤ 2 ^ 31
cap_small c (k, h, e) = rw e (pow-le-pow_right (omega arith) h)

pub mask_index : (c a : ℕ) → IsPowerOfTwo c → bit_and a (u32_sub c 1) ≡ a % c
mask_index c a (k, h, e) = ap (bit_and a) minus ∙ bit_and_mask k a ∙ ap (λ t. a % t) (sym e)
  where
    minus : u32_sub c 1 ≡ 2 ^ k - 1
    minus = omega (arith, e, cap_pos c (k, h, e), cap_small c (k, h, e))

-- One step round the ring of `c` places.
pub mod-once :
    (c o i : ℕ) → o < c → i ≤ c → (o + i) % c ≡ (if ltb (o + i) c then o + i else o + i - c)
mod-once c o i h k = elim (dec_lt (o + i) c) [
  | yes p ↦ rw (lt→ltb (o + i) c p) (mod-eq_of_lt p)
  | no p ↦
      rw (le→ltb (o + i) c (omega arith))
        (mod-eq-sub-mod (omega arith) ∙ mod-eq_of_lt (omega arith))
]

-- A word that runs freely, seen as an index.
pub word-index : (c a n : ℕ) → IsPowerOfTwo c → u32 (a + n) % c ≡ (a % c + n) % c
word-index c a n p = mod-mod_of_dvd c (a + n) (cap_dvd c p) ∙ sym (mod-add-mod a c n)

pub valid-Layout : {b : CircularBuffer} → IsValid b → Layout b
unfolding buffer_len buffer_remaining in_index out_index
valid-Layout {b} v = record {
  cap_pos = pos;
  cap_small = cap_small b.capacity v.power;
  block = v.block;
  out_lt = rw (mask_index b.capacity b.out_ v.power) (mod-lt b.out_ pos);
  in_lt = rw (mask_index b.capacity b.in_ v.power) (mod-lt b.in_ pos);
  len_le = v.fits;
  remaining = omega (arith, v.fits, v.in_word, v.out_word, cap_small b.capacity v.power);
  position = ground (
    arith,
    index,
    mod-once b.capacity (b.out_ % b.capacity) (buffer_len b),
    mask_index b.capacity b.out_ v.power,
    mask_index b.capacity b.in_ v.power,
  );
}
  where
    pos : 0 < b.capacity
    pos = cap_pos b.capacity v.power

    index : b.in_ % b.capacity ≡ (b.out_ % b.capacity + buffer_len b) % b.capacity
    index =
        ap (λ t. t % b.capacity) (omega (arith, v.in_word, v.out_word))
        ∙ word-index b.capacity b.out_ (buffer_len b) v.power

rounded-IsPowerOfTwo :
    (c : ℕ)
    → c ≤ 2 ^ 31
    → let r = if is_pow_of_two c then c else roundup_pow_of_two c in IsPowerOfTwo r × (c ≤ r)
rounded-IsPowerOfTwo c h = elim (Bool-cases (is_pow_of_two c)) [
  | inl fit ↦ rw fit ((is_pow_of_two_iff c (omega arith)).0 fit, omega arith)
  | inr wide ↦ rw wide ((roundup_pow_of_two_lem c).0, (roundup_pow_of_two_lem c).1 h)
]

-- A new buffer is valid and empty, and holds the capacity that was asked for, up to 2^31.
pub new-IsValid :
    (heap : Allocator) (capacity : ℕ)
    → capacity < 2 ^ 32
    → IsValid (new heap capacity)
      × (contents (new heap capacity) ≡ [])
      × (capacity ≤ 2 ^ 31 → capacity ≤ (new heap capacity).capacity)
unfolding new buffer_len
new-IsValid heap capacity h = elim (Bool-cases (ltb 0x80000000 capacity)) [
  | inl huge ↦
      let r = rounded-IsPowerOfTwo 0x80000000 (omega arith) in
      rw (huge) (fresh _ r.0, refl, λ k. absurd (omega (arith, ltb→lt 0x80000000 capacity huge)))
  | inr fair ↦
      let r = rounded-IsPowerOfTwo capacity (ltb→le 0x80000000 capacity fair) in
      rw (fair) (fresh _ r.0, refl, λ k. r.1)
]
  where
    fresh :
        (c : ℕ)
        → IsPowerOfTwo c
        → IsValid (record { bytes = heap.malloc c; capacity = c; in_ = 0; out_ = 0 })
    fresh c p = record {
      power = p;
      block = heap.length-malloc c;
      in_word = omega arith;
      out_word = omega arith;
      fits = omega arith;
    }

-- `empty` and `full` say whether the bytes held are none, or as many as the capacity.
pub empty_iff : {b : CircularBuffer} → IsValid b → (empty b ≡ true) ↔ (contents b ≡ [])
unfolding empty buffer_len
empty_iff {b} v = (
  λ e. rw (none_left e),
  λ e. ground (arith, ap length e, length-contents b, v.in_word, v.out_word),
)
  where
    none_left : (b.in_ == b.out_) ≡ true → u32_sub b.in_ b.out_ ≡ 0
    none_left e = ground (arith, v.in_word, v.out_word)

pub full_iff : (b : CircularBuffer) → (full b ≡ true) ↔ (buffer_len b ≡ b.capacity)
unfolding full buffer_len
full_iff b = ground arith

pub clear-IsValid : {b : CircularBuffer} → IsValid b → IsValid (clear b) × (contents (clear b) ≡ [])
unfolding clear buffer_len
clear-IsValid {b} v = (
  record {
    power = v.power;
    block = v.block;
    in_word = omega arith;
    out_word = omega arith;
    fits = omega arith;
  },
  refl,
)

-- A new buffer for a capacity of at most 2^31 is valid and holds no byte, and its capacity is not
-- below the one that was asked for.
pub new-holds :
    (heap : Allocator) (capacity : ℕ)
    → capacity ≤ 2 ^ 31
    → IsValid (new heap capacity)
      × (contents (new heap capacity) ≡ [])
      × (capacity ≤ (new heap capacity).capacity)
new-holds heap capacity h =
    let (v, bare, wide) = new-IsValid heap capacity (omega arith) in (v, bare, wide h)
