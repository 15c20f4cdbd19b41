-- ===== src/CircularBuffer/Tests.antt =====
-- Runs of the ring on concrete bytes.
use mutiplex.Base.{
  ◌⊎◌, none, List, ◌≡◌, refl, inr, ap, [], ◌∷◌, ok, some, arith, length, ◌++◌, ◌≤◌, ◌<◌, ◌^◌, ◌*◌,
}
use mutiplex.Base.Memory.{Bytes}
use mutiplex.Base.Samples.{zero_heap, takes_two, takes_two-honest}
use mutiplex.CircularBuffer.{
  CircularBuffer, roundup_loop, roundup_pow_of_two, buffer_len, buffer_remaining, out_index,
  in_index, full, put, write_to_fd,
}
use mutiplex.CircularBuffer.Capacity.{IsPowerOfTwo, roundup-least}
use mutiplex.CircularBuffer.Invariant.{IsValid, contents}
use mutiplex.CircularBuffer.Bounded.{Op, put_in, get_out, write_out, run, run_queue, Like, run-Like}
use mutiplex.CircularBuffer.Flush.{write_to_fd-refines, FlushedWell}
use mutiplex.CircularBuffer.Resize.{put-aligned_stale, Grown}
use mutiplex.CircularBuffer.Fifo.{put-appends}

-- Three bytes that go round the end of a ring of four.
abbrev pub wrapped : CircularBuffer
wrapped = record { bytes = 20 ∷ 30 ∷ 0 ∷ 10 ∷ []; capacity = 4; in_ = 6; out_ = 3 }

pub wrapped-IsValid : IsValid wrapped
unfolding buffer_len
wrapped-IsValid = record {
  power = (2, omega arith, refl);
  block = refl;
  in_word = omega arith;
  out_word = omega arith;
  fits = omega arith;
}

wrapped-contents : contents wrapped ≡ 10 ∷ 20 ∷ 30 ∷ []
unfolding buffer_len out_index
wrapped-contents = refl

pub wrapped-takes_two : takes_two (contents wrapped) ≡ some 2
unfolding buffer_len out_index
wrapped-takes_two = refl

pub wrapped-few : length (contents wrapped) < 2 ^ 31
unfolding buffer_len out_index
wrapped-few = omega arith

pub wrapped-longer : 2 < length (contents wrapped)
unfolding buffer_len out_index
wrapped-longer = omega arith

-- Two bytes that fill a ring of two from index 0 on.
abbrev aligned : CircularBuffer
aligned = record { bytes = 1 ∷ 2 ∷ []; capacity = 2; in_ = 2; out_ = 0 }

aligned-IsValid : IsValid aligned
unfolding buffer_len
aligned-IsValid = record {
  power = (1, omega arith, refl);
  block = refl;
  in_word = omega arith;
  out_word = omega arith;
  fits = omega arith;
}

-- A put that has to grow the ring.
put-appends_example :
    (b' : CircularBuffer) × (put zero_heap wrapped (40 ∷ 50 ∷ 60 ∷ []) 3 ≡ ok b')
    × IsValid b'
    × (contents b' ≡ contents wrapped ++ 40 ∷ 50 ∷ 60 ∷ [])
    × ((b'.capacity ≡ 4) ⊎ (7 ≤ b'.capacity))
unfolding full in_index
put-appends_example =
    put-appends zero_heap (40 ∷ 50 ∷ 60 ∷ []) 3 wrapped-IsValid (omega arith)
      (inr (omega arith, refl))

-- Three of four bytes are held; one comes in round the end, two go out, two come in, and the rest is
-- written in two parts.
abbrev mixed : List Op
mixed =
    put_in (40 ∷ [])
    ∷ get_out 2
    ∷ put_in (50 ∷ 60 ∷ [])
    ∷ write_out (some 3)
    ∷ write_out none
    ∷ get_out 9
    ∷ []

run-Like_example :
    Like wrapped
      ([] ∷ (10 ∷ 20 ∷ []) ∷ [] ∷ (30 ∷ 40 ∷ 50 ∷ []) ∷ [] ∷ (60 ∷ []) ∷ [], [])
      (run zero_heap mixed wrapped)
unfolding buffer_len out_index run_queue
run-Like_example =
    run-Like zero_heap mixed wrapped-IsValid
      (omega arith, (tt, (omega arith, ((λ e. cc), ((λ e. cc), (tt, tt))))))

write_to_fd-refines_example :
    (r : _) × (sent : Bytes) × (b' : CircularBuffer) × (write_to_fd takes_two wrapped
      ≡ ok (r, sent, b'))
    × FlushedWell wrapped (some 2) (r, sent, b')
unfolding buffer_len out_index
write_to_fd-refines_example =
    write_to_fd-refines takes_two takes_two-honest wrapped-IsValid (λ e. omega (arith, ap length e))

put-aligned_stale_example :
    (b' : CircularBuffer) × (put zero_heap aligned (5 ∷ []) 1 ≡ ok b')
    × Grown aligned 1 (1 ∷ 2 ∷ 0 ∷ []) b'
unfolding full in_index buffer_len out_index buffer_remaining roundup_pow_of_two roundup_loop
put-aligned_stale_example =
    put-aligned_stale zero_heap (5 ∷ []) 1 aligned-IsValid (omega arith) (omega arith) refl

roundup-least_example :
    IsPowerOfTwo (roundup_pow_of_two 5)
    × (5 ≤ roundup_pow_of_two 5)
    × (roundup_pow_of_two 5 < 2 * 5)
roundup-least_example = roundup-least 5 (omega arith) (omega arith)
