-- ===== src/CircularBuffer/Put.antt =====
-- CircularBuffer::put where the bytes fit: both `memcpy` calls stay inside the block, and the bytes
-- are appended to those held.
use mutiplex.Base.{
  ℕ, ◌+◌, ◌-◌, ◌%◌, ◌≤◌, ◌<◌, min, ◌≡◌, refl, ◌∙◌, ◌⊎◌, ltb, le→ltb, if◌then◌else◌, length, take,
  ◌++◌, ok, arith,
}
use mutiplex.Base.Word.{u32, u32_sub}
use mutiplex.Base.Memory.{
  Bytes, byte, splice, memcpy-ok, length-splice, byte-splice, Allocator, tabulate-append-take,
}
use mutiplex.CircularBuffer.{CircularBuffer, buffer_len, buffer_remaining, in_index, out_index, put}
use mutiplex.CircularBuffer.Invariant.{IsValid, Layout, contents, valid-Layout, mod-once}

-- The two copies of `put`, into a ring of `c` places from index `i` on.
module _ (bytes buffer : Bytes) (c i n : ℕ) where
  abbrev first : ℕ
  first = min n (c - i)

  abbrev front : Bytes
  front = splice bytes i buffer 0 first

  abbrev both : Bytes
  both = splice front 0 buffer first (n - first)

-- Where the ring holds `l` bytes from index `o` on, byte `j` of the ring afterwards is an old one
-- below `l`, and else one of the buffer.
byte-both :
    (bytes buffer : Bytes) (c o i l n : ℕ)
    → length bytes ≡ c
    → length (front bytes buffer c i n) ≡ c
    → n ≤ length buffer
    → o < c
    → i < c
    → l + n ≤ c
    → (i ≡ o + l) ⊎ (i + c ≡ o + l)
    → (j : ℕ) → j < l + n
    → byte (both bytes buffer c i n) ((o + j) % c)
      ≡ (if ltb j l then byte bytes ((o + j) % c) else byte buffer (j - l))
byte-both bytes buffer c o i l n block block' given o_lt i_lt room position j h = ground (
  arith,
  mod-once c o j o_lt,
  byte-splice (front bytes buffer c i n) 0 buffer (min n (c - i)) (n - min n (c - i)) (omega arith)
      (omega arith) ((o + j) % c),
  byte-splice bytes i buffer 0 (min n (c - i)) (omega arith) (omega arith) ((o + j) % c),
)

abbrev pub Appended : CircularBuffer → Bytes → CircularBuffer → Type 0
Appended b xs b' = IsValid b' × (contents b' ≡ contents b ++ xs) × (b'.capacity ≡ b.capacity)

module _ (heap : Allocator) {b : CircularBuffer} (buffer : Bytes) (n : ℕ) (v : IsValid b)
    (given : n ≤ length buffer) (fits : n ≤ buffer_remaining b) where
  layout : Layout b
  layout = valid-Layout v

  room : buffer_len b + n ≤ b.capacity
  room = omega (arith, layout.remaining)

  abbrev len : ℕ
  len = first b.bytes buffer b.capacity (in_index b) n

  abbrev fore : Bytes
  fore = front b.bytes buffer b.capacity (in_index b) n

  abbrev stored : Bytes
  stored = both b.bytes buffer b.capacity (in_index b) n

  in_front : in_index b + len ≤ length b.bytes
  in_front = omega (arith, layout.in_lt, v.block)

  length-fore : length fore ≡ b.capacity
  length-fore = length-splice b.bytes (in_index b) buffer 0 len in_front (omega arith) ∙ v.block

  in_rest : 0 + (n - len) ≤ length fore
  in_rest = omega (arith, length-fore, layout.in_lt, room)

  length-stored : length stored ≡ b.capacity
  length-stored = length-splice fore 0 buffer len (n - len) in_rest (omega arith) ∙ length-fore

  abbrev written : CircularBuffer
  written = record b { bytes = stored; in_ = u32 (b.in_ + n) }

  buffer_len-written : buffer_len written ≡ buffer_len b + n
  unfolding buffer_len
  buffer_len-written = omega (arith, v.in_word, v.out_word, room, layout.cap_small)

  put-written : put heap b buffer n ≡ ok written
  unfolding put
  put-written = rw (
    le→ltb (buffer_remaining b) n fits,
    to_end,
    memcpy-ok b.bytes (in_index b) buffer 0 len in_front (omega arith),
    wrapped,
    memcpy-ok fore 0 buffer len (n - len) in_rest (omega arith),
  )
    where
      to_end : u32_sub b.capacity (in_index b) ≡ b.capacity - in_index b
      to_end = omega (arith, layout.in_lt, layout.cap_small)

      wrapped : u32_sub n len ≡ n - len
      wrapped = omega (arith, room, layout.cap_small)

  contents-written : contents written ≡ contents b ++ take n buffer
  unfolding out_index
  contents-written = rw buffer_len-written (
      tabulate-append-take (buffer_len b) n _ _ buffer given (
        byte-both b.bytes buffer b.capacity (out_index b) (in_index b) (buffer_len b) n v.block
          length-fore given layout.out_lt layout.in_lt room layout.position))

  written-IsValid : IsValid written
  written-IsValid = record {
    power = v.power;
    block = length-stored;
    in_word = omega arith;
    out_word = v.out_word;
    fits = omega (arith, buffer_len-written, room);
  }

  -- A `put` that fits keeps the invariant and the capacity, and appends the first `n` bytes of the
  -- caller's block to the bytes held.
  pub put-fits :
      (b' : CircularBuffer) × (put heap b buffer n ≡ ok b') × Appended b (take n buffer) b'
  put-fits = (written, put-written, (written-IsValid, contents-written, refl))
