-- ===== src/ByteBuffer.antt =====
-- mutiplex/ByteBuffer.h and src/ByteBuffer.cpp: a block of bytes with a position, a limit and a mark.
-- The block starts with the capacity, four bytes in network order; `int` is ℤ, which none of the
-- calls leaves the range of while `Invariant.IsValid` holds.
pub mod Invariant
pub mod Transfer
pub mod Moves
pub mod Receive
pub mod Tests
use mutiplex.Base.{
  ℕ, ◌+◌, ◌*◌, ◌/◌, ◌%◌, ◌^◌, Bool, ◌&&◌, if◌then◌else◌, Result, ok, ◌>>=◌, ◌>>◌, assert, [], ◌∷◌,
}
use mutiplex.Base.Int.{ℤ, pos, negsuc, pos_part, ◌+ℤ◌, ◌-ℤ◌, ltb_ℤ, leb_ℤ, min_ℤ}
use mutiplex.Base.Word.{int32}
use mutiplex.Base.Memory.{Bytes, byte, memcpy, memcpy_int, read_block, Allocator}

pub record ByteBuffer : Type 0 where
  pub limit : ℤ
  pub mark : ℤ
  pub position : ℤ
  pub block : Bytes

-- The memory of an `int` after `htonl`: its bytes, the most significant first.
pub htonl_bytes : ℕ → Bytes
htonl_bytes n = (n / 2 ^ 24 % 256) ∷ (n / 2 ^ 16 % 256) ∷ (n / 2 ^ 8 % 256) ∷ (n % 256) ∷ []

-- `ntohl` of an `int` in memory.
pub ntohl_bytes : Bytes → ℕ
ntohl_bytes xs = byte xs 0 * 2 ^ 24 + byte xs 1 * 2 ^ 16 + byte xs 2 * 2 ^ 8 + byte xs 3

pub new : Allocator → ℤ → Result ByteBuffer
unfolding htonl_bytes
new heap capacity = do
  assert (ltb_ℤ (pos 0) capacity)
  let n = pos_part capacity
  block ← memcpy (heap.malloc (n + 4)) 0 (htonl_bytes n) 0 4
  ok (record { limit = capacity; mark = negsuc 0; position = pos 0; block = block })

pub capacity : ByteBuffer → Result ℤ
unfolding ntohl_bytes
capacity b = do cap ← read_block b.block 0 4; ok (int32 (ntohl_bytes cap))

pub set_position : ByteBuffer → ℤ → Result ByteBuffer
set_position b p = do
  assert (leb_ℤ p b.limit && leb_ℤ (pos 0) p)
  ok (record b { position = p; mark = if ltb_ℤ p b.mark then negsuc 0 else b.mark })

pub set_limit : ByteBuffer → ℤ → Result ByteBuffer
unfolding capacity
set_limit b limit = do
  cap ← capacity b
  assert (leb_ℤ limit cap && leb_ℤ (pos 0) limit)
  ok (record b {
    limit = limit;
    position = if ltb_ℤ limit b.position then limit else b.position;
    mark = if ltb_ℤ limit b.mark then negsuc 0 else b.mark;
  })

pub set_mark : ByteBuffer → ByteBuffer
set_mark b = record b { mark = b.position }

pub reset : ByteBuffer → Result ByteBuffer
reset b = do assert (leb_ℤ (pos 0) b.mark); ok (record b { position = b.mark })

pub clear : ByteBuffer → Result ByteBuffer
unfolding capacity
clear b = do cap ← capacity b; ok (record b { position = pos 0; limit = cap; mark = negsuc 0 })

pub flip : ByteBuffer → ByteBuffer
flip b = record b { limit = b.position; position = pos 0; mark = negsuc 0 }

pub rewind : ByteBuffer → ByteBuffer
rewind b = record b { position = pos 0; mark = negsuc 0 }

pub remaining : ByteBuffer → ℤ
remaining b = b.limit -ℤ b.position

pub has_remaining : ByteBuffer → Bool
has_remaining b = ltb_ℤ b.position b.limit

-- The offset of data() in the block.
pub data_offset : ByteBuffer → ℤ
data_offset b = pos 4 +ℤ b.position

pub put : ByteBuffer → Bytes → ℤ → Result ByteBuffer
put b source len = do
  assert (leb_ℤ len (remaining b))
  block ← memcpy_int b.block (data_offset b) source (pos 0) len
  ok (record b { block = block; position = b.position +ℤ len })

pub get : ByteBuffer → Bytes → ℤ → Result (ℤ × Bytes × ByteBuffer)
get b buffer len = do
  let n = min_ℤ len (remaining b)
  filled ← memcpy_int buffer (pos 0) b.block (data_offset b) n
  ok (n, filled, record b { position = b.position +ℤ n })

pub skip : ByteBuffer → ℤ → Result ByteBuffer
unfolding remaining
skip b n = do assert (leb_ℤ n (remaining b)); ok (record b { position = b.position +ℤ n })
