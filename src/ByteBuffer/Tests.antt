-- ===== src/ByteBuffer/Tests.antt =====
-- Runs of ByteBuffer on concrete bytes.
use mutiplex.Base.{◌≡◌, refl, [], ◌∷◌, ok, arith}
use mutiplex.Base.Int.{pos, negsuc}
use mutiplex.ByteBuffer.{ByteBuffer, htonl_bytes, flip, put}
use mutiplex.ByteBuffer.Invariant.{IsValid}
use mutiplex.ByteBuffer.Transfer.{readable, put-flip}
use mutiplex.ByteBuffer.Moves.{moves, moves-Safe, to_position, to_limit, flipping, clearing, Safe}

-- A buffer of four bytes, of which the second and third are to be read.
abbrev pub two_left : ByteBuffer
two_left = record {
  limit = pos 3;
  mark = negsuc 0;
  position = pos 1;
  block = 0 ∷ 0 ∷ 0 ∷ 4 ∷ 11 ∷ 12 ∷ 13 ∷ 14 ∷ [];
}

pub two_left-IsValid : IsValid 4 two_left
unfolding htonl_bytes
two_left-IsValid = record {
  small = omega arith;
  sized = refl;
  header = refl;
  mark_low = omega arith;
  mark_le = omega arith;
  position_low = omega arith;
  position_le = omega arith;
  limit_le = omega arith;
}

put-flip_example :
    (b' : ByteBuffer) × (put two_left (21 ∷ 22 ∷ []) (pos 2) ≡ ok b')
    × IsValid 4 b'
    × (readable (flip b') ≡ 11 ∷ 21 ∷ 22 ∷ [])
unfolding flip
put-flip_example = put-flip two_left-IsValid (21 ∷ 22 ∷ []) 2 (omega arith) (omega arith)

moves-Safe_example :
    Safe 4 (moves two_left (to_position (pos 2) ∷ flipping ∷ to_limit (pos 9) ∷ clearing ∷ []))
moves-Safe_example =
    moves-Safe (to_position (pos 2) ∷ flipping ∷ to_limit (pos 9) ∷ clearing ∷ [])
      (tt, (tt, (tt, (tt, tt)))) two_left-IsValid
