-- ===== src/ByteBuffer/Invariant.antt =====
-- What holds of a ByteBuffer of capacity `c` between two calls, and that the calls which move its
-- indices keep it.
use mutiplex.Base.{ℕ, ◌+◌, ◌^◌, ◌<◌, ◌≡◌, refl, ◌∙◌, true, ok, length, take, arith}
use mutiplex.Base.Int.{ℤ, pos, negsuc, ◌≤ℤ◌, ltb_ℤ}
use mutiplex.Base.Memory.{Bytes, read_block-ok, memcpy-ok, length-splice, splice, Allocator}
use mutiplex.ByteBuffer.{
  ByteBuffer, htonl_bytes, ntohl_bytes, new, capacity, set_position, set_limit, set_mark, reset,
  clear, flip, rewind, remaining, skip,
}

-- mark ≤ position ≤ limit ≤ capacity, with -1 for no mark, and the header in place.
pub record IsValid (c : ℕ) (b : ByteBuffer) : Type 0 where
  pub small : c < 2 ^ 31
  pub sized : length b.block ≡ c + 4
  pub header : take 4 b.block ≡ htonl_bytes c
  pub mark_low : negsuc 0 ≤ℤ b.mark
  pub mark_le : b.mark ≤ℤ b.position
  pub position_low : pos 0 ≤ℤ b.position
  pub position_le : b.position ≤ℤ b.limit
  pub limit_le : b.limit ≤ℤ pos c

ntohl_bytes-htonl_bytes : (n : ℕ) → n < 2 ^ 32 → ntohl_bytes (htonl_bytes n) ≡ n
unfolding ntohl_bytes htonl_bytes
ntohl_bytes-htonl_bytes n h = omega arith

-- capacity() reads back what the constructor stored.
pub capacity-eq : {c : ℕ} {b : ByteBuffer} → IsValid c b → capacity b ≡ ok (pos c)
unfolding capacity
capacity-eq {c} {b} v =
    rw
      (
        read_block-ok b.block 0 4 (omega (arith, v.sized)),
        v.header,
        ntohl_bytes-htonl_bytes c (omega (arith, v.small)),
      )
      (ground (arith, v.small))

-- The constructor accepts exactly the positive sizes; the buffer is then valid for that capacity, its
-- position is 0 and its limit the capacity.
pub new-IsValid :
    (heap : Allocator) (n : ℕ)
    → 0 < n
    → n < 2 ^ 31
    → (b : ByteBuffer) × (new heap (pos n) ≡ ok b)
      × IsValid n b
      × (b.position ≡ pos 0)
      × (b.limit ≡ pos n)
unfolding new htonl_bytes
new-IsValid heap n h small = (
  record { limit = pos n; mark = negsuc 0; position = pos 0; block = block },
  rw (
    positive,
    memcpy-ok (heap.malloc (n + 4)) 0 (htonl_bytes n) 0 4
        (omega (arith, heap.length-malloc (n + 4))) (omega arith),
  ),
  record {
    small = small;
    sized =
        length-splice (heap.malloc (n + 4)) 0 (htonl_bytes n) 0 4
          (omega (arith, heap.length-malloc (n + 4))) (omega arith)
        ∙ heap.length-malloc (n + 4);
    header = refl;
    mark_low = omega arith;
    mark_le = omega arith;
    position_low = omega arith;
    position_le = omega arith;
    limit_le = omega arith;
  },
  refl,
  refl,
)
  where
    positive : ltb_ℤ (pos 0) (pos n) ≡ true
    positive = ground arith

    block : Bytes
    block = splice (heap.malloc (n + 4)) 0 (htonl_bytes n) 0 4

pub clear-IsValid :
    {c : ℕ} {b : ByteBuffer}
    → IsValid c b
    → (b' : ByteBuffer) × (clear b ≡ ok b')
      × IsValid c b'
      × (b'.position ≡ pos 0)
      × (b'.limit ≡ pos c)
      × (b'.block ≡ b.block)
unfolding clear
clear-IsValid {c} {b} v = (
  record b { position = pos 0; limit = pos c; mark = negsuc 0 },
  rw (capacity-eq v),
  ground (arith, v),
  refl,
  refl,
  refl,
)

pub flip-IsValid : {c : ℕ} {b : ByteBuffer} → IsValid c b → IsValid c (flip b)
unfolding flip
flip-IsValid v = ground arith

pub rewind-IsValid : {c : ℕ} {b : ByteBuffer} → IsValid c b → IsValid c (rewind b)
unfolding rewind
rewind-IsValid v = ground arith

pub set_mark-IsValid : {c : ℕ} {b : ByteBuffer} → IsValid c b → IsValid c (set_mark b)
unfolding set_mark
set_mark-IsValid v = ground arith

pub set_position-IsValid :
    {c : ℕ} {b b' : ByteBuffer} (p : ℤ) → IsValid c b → set_position b p ≡ ok b' → IsValid c b'
unfolding set_position
set_position-IsValid p v e = ground arith

pub set_limit-IsValid :
    {c : ℕ} {b b' : ByteBuffer} (l : ℤ) → IsValid c b → set_limit b l ≡ ok b' → IsValid c b'
unfolding set_limit
set_limit-IsValid l v e = ground (arith, capacity-eq v)

pub reset-IsValid : {c : ℕ} {b b' : ByteBuffer} → IsValid c b → reset b ≡ ok b' → IsValid c b'
unfolding reset
reset-IsValid v e = ground arith

pub skip-IsValid :
    {c : ℕ} {b b' : ByteBuffer} (n : ℕ) → IsValid c b → skip b (pos n) ≡ ok b' → IsValid c b'
unfolding skip remaining
skip-IsValid n v e = ground arith
