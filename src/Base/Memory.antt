-- ===== src/Base/Memory.antt =====
-- Blocks of memory as lists of bytes, and `memcpy` between two blocks that do not overlap.
use Prim.Native.Nat.{ℕ, zero, suc, ◌+◌, ◌-◌, ◌≤◌, ◌<◌}
use mathlib.Core.Path.{◌≡◌, refl, sym, ap, ◌∙◌}
use mathlib.Core.Bool.{◌&&◌}
use mathlib.Core.List.{List, [], ◌∷◌, ◌++◌, append_assoc}
use native.Mathlib.Omega.{arith}
use mutiplex.Base.Tests.{ltb, leb, le→leb, lt→leb, if◌then◌else◌}
use mutiplex.Base.Lists.{
  length, get_or, take, drop, length-append, length-take, length-drop, get_or-append, get_or-take,
  get_or-drop, get_or_ext, tabulate, length-tabulate, get_or-tabulate, take-append_left,
  drop-append_left, drop-drop,
}
use mutiplex.Base.Int.{ℤ, pos}
use mutiplex.Base.Errors.{Result, ok, err, out_of_bounds}

-- A byte is only moved here, so any number serves.
abbrev pub Bytes : Type 0
Bytes = List ℕ

abbrev pub byte : Bytes → ℕ → ℕ
byte xs i = get_or xs i 0

-- The block `dst` after `n` bytes of `src` from offset `s` on were written at offset `d`.
abbrev pub splice : Bytes → ℕ → Bytes → ℕ → ℕ → Bytes
splice dst d src s n = take d dst ++ (take n (drop s src) ++ drop (d + n) dst)

-- memcpy(dst + d, src + s, n), which faults where it leaves one of the blocks.
unfoldable pub memcpy : Bytes → ℕ → Bytes → ℕ → ℕ → Result Bytes
memcpy dst d src s n =
    if leb (d + n) (length dst) && leb (s + n) (length src)
    then ok (splice dst d src s n)
    else err out_of_bounds

-- The `n` bytes from offset `s` on, as a system call reads them.
unfoldable pub read_block : Bytes → ℕ → ℕ → Result Bytes
read_block src s n =
    if leb (s + n) (length src) then ok (take n (drop s src)) else err out_of_bounds

-- The C allocator: `malloc n` is a block of `n` bytes of any content. A failed allocation is not
-- modelled: the sources never test for one.
pub record Allocator : Type 0 where
  pub malloc : ℕ → Bytes
  pub length-malloc : (n : ℕ) → length (malloc n) ≡ n

pub memcpy-ok :
    (dst : Bytes) (d : ℕ) (src : Bytes) (s n : ℕ)
    → d + n ≤ length dst
    → s + n ≤ length src
    → memcpy dst d src s n ≡ ok (splice dst d src s n)
unfolding memcpy
memcpy-ok dst d src s n h k = rw (le→leb (d + n) (length dst) h, le→leb (s + n) (length src) k)

pub read_block-ok :
    (src : Bytes) (s n : ℕ) → s + n ≤ length src → read_block src s n ≡ ok (take n (drop s src))
unfolding read_block
read_block-ok src s n h = rw (le→leb (s + n) (length src) h)

pub memcpy-overflow :
    (dst : Bytes) (d : ℕ) (src : Bytes) (s n : ℕ)
    → length dst < d + n
    → memcpy dst d src s n ≡ err out_of_bounds
unfolding memcpy
memcpy-overflow dst d src s n h = rw (lt→leb (d + n) (length dst) h)

module _ (dst : Bytes) (d : ℕ) (src : Bytes) (s n : ℕ) where
  pub length-splice :
      d + n ≤ length dst → s + n ≤ length src → length (splice dst d src s n) ≡ length dst
  length-splice h k = omega (
    arith,
    length-append (take d dst) (take n (drop s src) ++ drop (d + n) dst),
    length-append (take n (drop s src)) (drop (d + n) dst),
    length-take d dst,
    length-take n (drop s src),
    length-drop s src,
    length-drop (d + n) dst,
  )

  -- Each byte after the copy: the copied ones come from `src`, all others are kept.
  pub byte-splice :
      d + n ≤ length dst
      → s + n ≤ length src
      → (i : ℕ)
      → byte (splice dst d src s n) i
        ≡ (if leb d i && ltb i (d + n) then byte src (s + (i - d)) else byte dst i)
  byte-splice h k i = ground (
    arith,
    get_or-append (take d dst) (take n (drop s src) ++ drop (d + n) dst) i 0,
    get_or-append (take n (drop s src)) (drop (d + n) dst) (i - length (take d dst)) 0,
    length-take d dst,
    length-take n (drop s src),
    length-drop s src,
    get_or-take d dst i 0,
    get_or-take n (drop s src) (i - length (take d dst)) 0,
    get_or-drop s src (i - length (take d dst)) 0,
    get_or-drop (d + n) dst (i - length (take d dst) - length (take n (drop s src))) 0,
  )

-- A sequence that goes on with the first `n` bytes of a block.
pub tabulate-append-take :
    (l n : ℕ) (f g : ℕ → ℕ) (src : Bytes)
    → n ≤ length src
    → ((j : ℕ) → j < l + n → g j ≡ (if ltb j l then f j else byte src (j - l)))
    → tabulate (l + n) g ≡ tabulate l f ++ take n src
tabulate-append-take l n f g src given same =
    get_or_ext 0 _ _
      (omega (
        arith,
        length-tabulate (l + n) g,
        length-append (tabulate l f) (take n src),
        length-tabulate l f,
        length-take n src,
      ))
      λ j h. ground (
        arith,
        same j,
        length-tabulate (l + n) g,
        get_or-tabulate (l + n) g j 0,
        get_or-append (tabulate l f) (take n src) j 0,
        length-tabulate l f,
        get_or-tabulate l f j 0,
        get_or-take n src (j - l) 0,
      )

-- A copy that goes on where the block's first `d` bytes `xs` end; the rest is still that of `ys`.
pub splice-append :
    (xs ys : Bytes) (d : ℕ) (src : Bytes) (s n : ℕ)
    → d ≡ length xs
    → splice (xs ++ drop d ys) d src s n ≡ (xs ++ take n (drop s src)) ++ drop (d + n) ys
splice-append xs ys d src s n e =
    rw
      (take-append_left d xs (drop d ys) e, drop-append_left d n xs (drop d ys) e, drop-drop d n ys)
      (sym (append_assoc xs (take n (drop s src)) (drop (d + n) ys)))

pub memcpy-append :
    (xs ys : Bytes) (d : ℕ) (src : Bytes) (s n : ℕ)
    → d ≡ length xs
    → d + n ≤ length ys
    → s + n ≤ length src
    → memcpy (xs ++ drop d ys) d src s n ≡ ok ((xs ++ take n (drop s src)) ++ drop (d + n) ys)
memcpy-append xs ys d src s n e h k =
    memcpy-ok (xs ++ drop d ys) d src s n
      (omega (arith, length-append xs (drop d ys), length-drop d ys)) k
    ∙ ap ok (splice-append xs ys d src s n e)

-- Reading a block from its start.
pub tabulate-byte : (m : ℕ) (xs : Bytes) → m ≤ length xs → tabulate m (byte xs) ≡ take m xs
tabulate-byte zero xs h = refl
tabulate-byte (suc m) [] h = absurd (omega arith)
tabulate-byte (suc m) (x ∷ xs) h = ap (◌∷◌ x) (tabulate-byte m xs (omega arith))

-- memcpy(dst + d, src + s, n) for `int` offsets and an `int` length, which is converted to `size_t`:
-- a negative one leaves every block.
unfoldable pub memcpy_int : Bytes → ℤ → Bytes → ℤ → ℤ → Result Bytes
memcpy_int dst (pos d) src (pos s) (pos n) = memcpy dst d src s n
memcpy_int dst _ src _ _ = err out_of_bounds
