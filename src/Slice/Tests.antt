-- ===== src/Slice/Tests.antt =====
-- Comparisons of concrete strings, with a memcmp that goes by the order of byte strings.
use Prim.Native.Nat.{Ordering, lt, eq, gt}
use mutiplex.Base.{ℕ, ◌≡◌, ◌≤◌, refl, [], ◌∷◌, take, length, arith}
use mutiplex.Base.Int.{ℤ, pos, negsuc}
use mutiplex.Base.Memory.{Bytes}
use mutiplex.Slice
use mutiplex.Slice.{Slice, to_string}
use mutiplex.Slice.Order.{lex, sign, compare-lex}

abbrev as_int : Ordering → ℤ
as_int lt = negsuc 0
as_int eq = pos 0
as_int gt = pos 1

abbrev by_order : Bytes → Bytes → ℕ → ℤ
by_order xs ys n = as_int (lex (take n xs) (take n ys))

sign-as_int : (o : Ordering) → sign (as_int o) ≡ o
sign-as_int lt = refl
sign-as_int eq = refl
sign-as_int gt = refl

by_order_law :
    (xs ys : Bytes) (n : ℕ)
    → n ≤ length xs
    → n ≤ length ys
    → sign (by_order xs ys n) ≡ lex (take n xs) (take n ys)
by_order_law xs ys n hx hy = sign-as_int (lex (take n xs) (take n ys))

abbrev long : Slice
long = record { bytes = 1 ∷ 2 ∷ 3 ∷ 4 ∷ []; size = 3 }

abbrev short : Slice
short = record { bytes = 1 ∷ 2 ∷ []; size = 2 }

compare-lex_example :
    sign (Slice.compare by_order long short) ≡ lex (to_string long) (to_string short)
compare-lex_example = compare-lex by_order by_order_law long short (omega arith) (omega arith)
