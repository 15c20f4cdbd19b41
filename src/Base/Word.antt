-- ===== src/Base/Word.antt =====
-- `uint32_t` arithmetic, and the conversion of a `ssize_t` count to `int`.
use Prim.Native.Nat.{ℕ, ◌+◌, ◌-◌, ◌%◌, ◌^◌}
use mutiplex.Base.Tests.{ltb, if◌then◌else◌}
use mutiplex.Base.Int.{ℤ, pos, negsuc}

abbrev pub u32 : ℕ → ℕ
u32 n = n % 2 ^ 32

-- a - b on `uint32_t`; `-` on ℕ stops at 0, so the modulus is added first.
abbrev pub u32_sub : ℕ → ℕ → ℕ
u32_sub a b = (a + 2 ^ 32 - b) % 2 ^ 32

-- static_cast<int>(n) in two's complement.
abbrev pub int32 : ℕ → ℤ
int32 n = if ltb (u32 n) (2 ^ 31) then pos (u32 n) else negsuc (2 ^ 32 - u32 n - 1)
