-- ===== src/Slice.antt =====
-- mutiplex/Slice.h: a view of bytes that somebody else owns. A slice is the bytes it refers to;
-- `memcmp`, which is not part of the library, is a parameter.
pub mod Order
mod Tests
use mutiplex.Base.{
  ℕ, ◌-◌, Bool, false, not, ◌&&◌, ltb, leb, ◌==◌, if◌then◌else◌, Result, ok, ◌>>=◌, ◌>>◌, assert,
  length, take, drop, [],
}
use mutiplex.Base.Int.{ℤ, pos, negsuc}
use mutiplex.Base.Memory.{Bytes, byte, read_block}

-- `data_` and `size_`: the bytes from `data_` to the end of the block, and how many of them count.
pub record Slice : Type 0 where
  pub bytes : Bytes
  pub size : ℕ

pub new_empty : Slice
new_empty = record { bytes = []; size = 0 }

pub new : Bytes → ℕ → Slice
new d n = record { bytes = d; size = n }

pub of_string : Bytes → Slice
of_string s = record { bytes = s; size = length s }

pub empty : Slice → Bool
empty s = s.size == 0

pub at : Slice → ℕ → Result ℕ
at s n = do assert (ltb n s.size); cell ← read_block s.bytes n 1; ok (byte cell 0)

pub clear : Slice → Slice
clear s = record { bytes = []; size = 0 }

pub remove_prefix : Slice → ℕ → Result Slice
remove_prefix s n = do
  assert (leb n s.size)
  ok (record { bytes = drop n s.bytes; size = s.size - n })

pub to_string : Slice → Bytes
to_string s = take s.size s.bytes

abbrev pub is_zero : ℤ → Bool
is_zero (pos n) = n == 0
is_zero (negsuc n) = false

module _ (memcmp : Bytes → Bytes → ℕ → ℤ) where
  pub starts_with : Slice → Slice → Bool
  starts_with s x = leb x.size s.size && is_zero (memcmp s.bytes x.bytes x.size)

  pub eq : Slice → Slice → Bool
  eq x y = x.size == y.size && is_zero (memcmp x.bytes y.bytes x.size)

  pub ne : Slice → Slice → Bool
  unfolding eq
  ne x y = not (eq x y)

  pub compare : Slice → Slice → ℤ
  compare s b =
      let r = memcmp s.bytes b.bytes (if ltb s.size b.size then s.size else b.size) in
      if is_zero r
      then (if ltb s.size b.size then negsuc 0 else if ltb b.size s.size then pos 1 else r)
      else r
