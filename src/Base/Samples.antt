-- ===== src/Base/Samples.antt =====
-- Concrete stand-ins for the parameters of the models, for tests.
use mutiplex.Base.{ℕ, zero, suc, ◌≤◌, ◌≡◌, ◌≢◌, refl, ap, [], ◌∷◌, length, Option, some, arith, min}
use mutiplex.Base.Memory.{Bytes, Allocator}

abbrev zeros : ℕ → Bytes
zeros zero = []
zeros (suc n) = 0 ∷ zeros n

pub length-zeros : (n : ℕ) → length (zeros n) ≡ n
length-zeros zero = refl
length-zeros (suc n) = ap suc (length-zeros n)

-- A malloc that clears its blocks.
abbrev pub zero_heap : Allocator
zero_heap = record { malloc = zeros; length-malloc = length-zeros }

-- A kernel that takes two bytes at a time.
abbrev pub takes_two : Bytes → Option ℕ
takes_two xs = some (min 2 (length xs))

pub takes_two-honest : (xs : Bytes) (n : ℕ) → takes_two xs ≡ some n → n ≤ length xs
takes_two-honest xs n e = ground arith

pub takes_two-greedy : (xs : Bytes) → xs ≢ [] → (n : ℕ) × (takes_two xs ≡ some (suc n))
takes_two-greedy [] h = absurd (h refl)
takes_two-greedy (x ∷ []) h = (0, ap some (omega arith))
takes_two-greedy (x ∷ y ∷ xs) h = (1, ap some (omega arith))

-- A kernel that takes all it is offered.
abbrev pub takes_all : Bytes → Option ℕ
takes_all xs = some (length xs)

pub takes_all-honest : (xs : Bytes) (n : ℕ) → takes_all xs ≡ some n → n ≤ length xs
takes_all-honest xs n e = ground arith
