-- ===== src/CircularBuffer.antt =====
-- mutiplex/CircularBuffer.h and src/CircularBuffer.cpp: the growing ring of bytes that a connection
-- writes from. `in_` and `out_` run freely modulo 2^32; an index is one of them, masked.
pub mod Capacity
pub mod Invariant
pub mod Put
pub mod Window
pub mod Get
pub mod Flush
pub mod Resize
pub mod Fifo
pub mod Hollow
pub mod Bounded
pub mod UnitTest
pub mod Tests
use mutiplex.Base.{
  ℕ, zero, suc, ◌+◌, ◌*◌, min, bit_and, Bool, not, ◌&&◌, Option, none, some, ltb, leb, ◌==◌,
  if◌then◌else◌, Result, ok, ◌>>=◌, ◌>>◌, assert, [], ◌++◌, take,
}
use mutiplex.Base.Memory.{Bytes, memcpy, read_block, Allocator}
use mutiplex.Base.Word.{u32, u32_sub, int32}
use mutiplex.Base.Int.{ℤ, negsuc}

pub record CircularBuffer : Type 0 where
  pub bytes : Bytes
  pub capacity : ℕ
  pub in_ : ℕ
  pub out_ : ℕ

pub is_pow_of_two : ℕ → Bool
is_pow_of_two v = not (v == 0) && bit_and v (u32_sub v 1) == 0

-- The loop `for (i = 1; i < 32; ++i)` with the rounds that are left.
pub roundup_loop : ℕ → ℕ → ℕ → ℕ
roundup_loop zero v ret = ret
roundup_loop (suc left) v ret =
    let rest = roundup_loop left v (u32 (ret * 2)) in if leb v ret then ret else rest

pub roundup_pow_of_two : ℕ → ℕ
roundup_pow_of_two v = if ltb v 2 then 2 else roundup_loop 31 v 1

pub buffer_len : CircularBuffer → ℕ
buffer_len b = u32_sub b.in_ b.out_

pub empty : CircularBuffer → Bool
empty b = b.in_ == b.out_

pub full : CircularBuffer → Bool
full b = u32_sub b.in_ b.out_ == b.capacity

pub clear : CircularBuffer → CircularBuffer
clear b = record b { in_ = 0; out_ = 0 }

pub buffer_remaining : CircularBuffer → ℕ
buffer_remaining b = u32 (u32_sub b.capacity b.in_ + b.out_)

pub out_index : CircularBuffer → ℕ
out_index b = bit_and b.out_ (u32_sub b.capacity 1)

pub in_index : CircularBuffer → ℕ
in_index b = bit_and b.in_ (u32_sub b.capacity 1)

pub get : CircularBuffer → Bytes → ℕ → Result (ℕ × Bytes × CircularBuffer)
get b buffer n = do
  let size = min n (buffer_len b)
  let len = min size (u32_sub b.capacity (out_index b))
  front ← memcpy buffer 0 b.bytes (out_index b) len
  both ← memcpy front len b.bytes 0 (u32_sub size len)
  ok (size, both, record b { out_ = u32 (b.out_ + size) })

-- What `writev` is given: one block where the bytes do not wrap, else two.
pub pending : CircularBuffer → Result Bytes
pending b =
    let len = min (buffer_len b) (u32_sub b.capacity (out_index b)) in
    if full b && in_index b == 0 then read_block b.bytes 0 b.capacity else (do
      front ← read_block b.bytes (out_index b) len
      rest ← read_block b.bytes 0 (u32_sub (buffer_len b) len)
      ok (front ++ rest))

-- The return value, the bytes that were sent, and the buffer, for an answer of the kernel.
answer : CircularBuffer → Bytes → Option ℕ → ℤ × Bytes × CircularBuffer
answer b offered none = (negsuc 0, [], b)
answer b offered (some n) = (int32 n, take n offered, record b { out_ = u32 (b.out_ + u32 n) })

-- `kernel offered` is what ::write or ::writev answers: the number of bytes taken, or `none` for
-- -1.
pub write_to_fd : (Bytes → Option ℕ) → CircularBuffer → Result (ℤ × Bytes × CircularBuffer)
unfolding answer
write_to_fd kernel b = do
  assert (not (empty b))
  offered ← pending b
  ok (answer b offered (kernel offered))

-- The state after `resize`, which has moved the bytes to the block `fresh` of `cap` bytes.
moved : CircularBuffer → ℕ → ℕ → Bytes → CircularBuffer
moved b cap n fresh = record {
  bytes = fresh;
  capacity = cap;
  in_ = u32 (n + buffer_len b);
  out_ = 0;
}

module _ (heap : Allocator) where
  open heap use {malloc}

  pub new : ℕ → CircularBuffer
  new capacity =
      let cap = if ltb 0x80000000 capacity then 0x80000000 else capacity in
      let rounded = if is_pow_of_two cap then cap else roundup_pow_of_two cap in
      record { bytes = malloc rounded; capacity = rounded; in_ = 0; out_ = 0 }

  pub resize : CircularBuffer → Bytes → ℕ → Result CircularBuffer
  unfolding moved
  resize b buffer n =
      let cap = roundup_pow_of_two (u32 (n + b.capacity)) in
      let len = min (buffer_len b) (u32_sub b.capacity (out_index b)) in
      if full b && in_index b == 0
      then (do fresh ← memcpy (malloc cap) 0 b.bytes 0 b.capacity; ok (moved b cap n fresh))
      else (do
        front ← memcpy (malloc cap) 0 b.bytes (out_index b) len
        both ← memcpy front len b.bytes 0 (u32_sub (buffer_len b) len)
        all ← memcpy both (buffer_len b) buffer 0 n
        ok (moved b cap n all))

  pub put : CircularBuffer → Bytes → ℕ → Result CircularBuffer
  put b buffer n = if ltb (buffer_remaining b) n then resize b buffer n else (do
    let len = min n (u32_sub b.capacity (in_index b))
    front ← memcpy b.bytes (in_index b) buffer 0 len
    both ← memcpy front 0 buffer len (u32_sub n len)
    ok (record b { bytes = both; in_ = u32 (b.in_ + n) }))
