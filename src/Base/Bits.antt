-- ===== src/Base/Bits.antt =====
-- `&` with a low mask as a remainder, and the test for a power of two.
use Prim.Native.Nat.{
  ℕ, zero, suc, ◌+◌, ◌-◌, ◌*◌, ◌/◌, ◌%◌, ◌^◌, ◌≤◌, ◌<◌, min, bit_and, digits, bit_and-bitwise,
}
use mathlib.Core.Path.{◌≡◌, refl, sym, ap, ◌∙◌}
use native.Mathlib.Nat.{
  mod_self, mod-lt, mod-eq_of_lt, div-add-mod, add-mul-mod_self_left, pow-suc, one-le-pow,
}
use native.Mathlib.Decide.{ℕ_discrete}
use mathlib.Core.Logic.{◌≢◌}
use native.Mathlib.Omega.{arith}

-- The digits of `&`, as far as `left` of them.
abbrev ands : ℕ → ℕ → ℕ → ℕ
ands left x y = digits (λ rest. 0) min left x y

ands_nothing : (left y : ℕ) → ands left 0 y ≡ 0
ands_nothing (suc left) y = refl
ands_nothing zero y = refl

-- Once all digits of `x` are there, more of them change nothing.
ands_enough : (k l x y : ℕ) → x ≤ l → x ≤ k → ands k x y ≡ ands l x y
ands_enough k l zero y below_l below_k = ands_nothing k y ∙ sym (ands_nothing l y)
ands_enough (suc k) (suc l) (suc x) y below_l below_k =
    let rest = ands_enough k l (suc x / 2) (y / 2) (omega arith) (omega arith) in
    omega (arith, rest)
ands_enough (suc k) zero (suc x) y below_l below_k = absurd (omega (arith, below_l))
ands_enough zero l (suc x) y below_l below_k = absurd (omega (arith, below_k))

bit_and-ands : (x y : ℕ) → bit_and x y ≡ ands x x y
bit_and-ands x y = bit_and-bitwise x y

-- One binary digit of `&`.
pub bit_and_halves : (x y : ℕ) → bit_and x y ≡ min (x % 2) (y % 2) + 2 * bit_and (x / 2) (y / 2)
bit_and_halves (suc x) y =
    let low = bit_and-ands (suc x) y in
    let high = bit_and-ands (suc x / 2) (y / 2) in
    let same = ands_enough x (suc x / 2) (suc x / 2) (y / 2) (omega arith) (omega arith) in
    omega (arith, low, high, same)
bit_and_halves zero y =
    let low = bit_and-ands 0 y in let high = bit_and-ands 0 (y / 2) in omega (arith, low, high)

bit_and_nothing : (bound x : ℕ) → x ≤ bound → bit_and x 0 ≡ 0
bit_and_nothing (suc bound) (suc x) below =
    let rest = bit_and_nothing bound (suc x / 2) (omega arith) in
    omega (arith, rest, bit_and_halves (suc x) 0)
bit_and_nothing zero (suc x) below = absurd (omega (arith, below))
bit_and_nothing bound zero below = refl

bit_and_same : (bound x : ℕ) → x ≤ bound → bit_and x x ≡ x
bit_and_same (suc bound) (suc x) below =
    let rest = bit_and_same bound (suc x / 2) (omega arith) in
    omega (arith, rest, bit_and_halves (suc x) (suc x))
bit_and_same zero (suc x) below = absurd (omega (arith, below))
bit_and_same bound zero below = refl

mod_double : (a p : ℕ) → 0 < p → a % (p * 2) ≡ (a / 2) % p * 2 + a % 2
mod_double a p h =
    ap (λ t. t % (p * 2)) split
    ∙ add-mul-mod_self_left r (p * 2) (a / 2 / p)
    ∙ mod-eq_of_lt (omega (arith, mod-lt (a / 2) h))
  where
    r : ℕ
    r = a / 2 % p * 2 + a % 2

    split : a ≡ r + p * 2 * (a / 2 / p)
    split = omega (arith, div-add-mod (a / 2) p)

-- `a & (2^k - 1)` keeps the low `k` bits.
pub bit_and_mask : (k a : ℕ) → bit_and a (2 ^ k - 1) ≡ a % 2 ^ k
bit_and_mask zero a = bit_and_nothing a a (omega arith) ∙ omega arith
bit_and_mask (suc k) a = omega (
  arith,
  bit_and_halves a (2 ^ suc k - 1),
  bit_and_mask k (a / 2),
  mod_double a (2 ^ k) (one-le-pow k 2 (omega arith)),
  ap (λ m. a % m) (pow-suc 2 k),
  ap (λ m. bit_and (a / 2) m) half,
  pow-suc 2 k,
  one-le-pow k 2,
)
  where
    half : (2 ^ suc k - 1) / 2 ≡ 2 ^ k - 1
    half = omega (arith, pow-suc 2 k, one-le-pow k 2)

-- `v & (v - 1)` is zero only at a power of two.
pub bit_and_pred-zero : (n v : ℕ) → v ≤ n → 0 < v → bit_and v (v - 1) ≡ 0 → (k : ℕ) × (v ≡ 2 ^ k)
bit_and_pred-zero n zero h p e = absurd (omega arith)
bit_and_pred-zero zero (suc v) h p e = absurd (omega arith)
bit_and_pred-zero (suc n) (suc v) h p e = elim (ℕ_discrete v 0) [
  | yes z ↦ (0, omega arith)
  | no nz ↦
      let (k, q) = bit_and_pred-zero n (suc v / 2) (omega arith) (omega arith) (halves nz) in
      (suc k, omega (arith, pow-suc 2 k, q, odd nz))
]
  where
    e' : bit_and (suc v) v ≡ 0
    e' = ap (bit_and (suc v)) (omega arith) ∙ e

    odd : v ≢ 0 → v % 2 ≡ 1
    odd nz = ground (arith, bit_and_halves (suc v) v, bit_and_same v (v / 2), e')

    halves : v ≢ 0 → bit_and (suc v / 2) (suc v / 2 - 1) ≡ 0
    halves nz = ground (arith, bit_and_halves (suc v) v, odd nz, e')

-- At a power of two `v & (v - 1)` is zero.
pub bit_and_pred-pow : (k : ℕ) → bit_and (2 ^ k) (2 ^ k - 1) ≡ 0
bit_and_pred-pow k = bit_and_mask k (2 ^ k) ∙ mod_self (2 ^ k)
