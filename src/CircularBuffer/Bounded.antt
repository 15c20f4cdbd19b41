-- ===== src/CircularBuffer/Bounded.antt =====
-- Any sequence of operations on a ring whose bytes always fit, against a queue of bytes.
use mathlib.Core.Path.{subst₂}
use mutiplex.Base.{
  ℕ, zero, suc, ◌+◌, ◌≤◌, ◌≡◌, ◌≢◌, refl, sym, ap, ◌∙◌, min, length, take, drop, List, [], ◌∷◌,
  ◌++◌, Option, none, some, Result, ok, ◌>>=◌, length-take, take-append_left, take-of_length_le,
  Always, Always-after, Always-ok, assert, not, arith,
}
use mutiplex.Base.Int.{ℤ}
use mutiplex.Base.Word.{u32_sub}
use mutiplex.Base.Memory.{memcpy, Bytes, Allocator}
use mutiplex.CircularBuffer.{
  CircularBuffer, put, get, write_to_fd, pending, answer, empty, buffer_len, buffer_remaining,
  out_index,
}
use mutiplex.CircularBuffer.Invariant.{length-contents, IsValid, contents, valid-Layout}
use mutiplex.CircularBuffer.Put.{put-fits}
use mutiplex.CircularBuffer.Get.{get-drops}
use mutiplex.CircularBuffer.Flush.{Flushed, refused, taken, write_to_fd-refines}

min-suc : (n m : ℕ) → min (suc n) (suc m) ≡ suc (min n m)
min-suc n m = omega arith

min-zero : (n : ℕ) → min (suc n) 0 ≡ 0
min-zero n = omega arith

min-none : (m : ℕ) → min 0 m ≡ 0
min-none m = omega arith

take-min {ℓ} : {A : Type ℓ} (n : ℕ) (xs : List A) → take (min n (length xs)) xs ≡ take n xs
take-min zero xs = ap (λ k. take k xs) (min-none (length xs))
take-min (suc n) [] = ap (λ k. take k []) (min-zero n)
take-min (suc n) (x ∷ xs) =
    ap (λ k. take k (x ∷ xs)) (min-suc n (length xs)) ∙ ap (◌∷◌ x) (take-min n xs)

drop-min {ℓ} : {A : Type ℓ} (n : ℕ) (xs : List A) → drop (min n (length xs)) xs ≡ drop n xs
drop-min zero xs = ap (λ k. drop k xs) (min-none (length xs))
drop-min (suc n) [] = ap (λ k. drop k []) (min-zero n)
drop-min (suc n) (x ∷ xs) = ap (λ k. drop k (x ∷ xs)) (min-suc n (length xs)) ∙ drop-min n xs

-- A call, with the bytes that it is given, or how many it asks for, or how many the kernel takes at
-- most.
pub data Op : Type 0 where
  put_in : Bytes → Op
  get_out : ℕ → Op
  write_out : Option ℕ → Op

abbrev pub up_to : Option ℕ → Bytes → Option ℕ
up_to none xs = none
up_to (some n) xs = some (min n (length xs))

up_to-honest : (o : Option ℕ) (xs : Bytes) (n : ℕ) → up_to o xs ≡ some n → n ≤ length xs
up_to-honest none xs n e = cc
up_to-honest (some m) xs n e = ground arith

module _ (heap : Allocator) where
  -- The bytes that come out of a call, and the ring behind it; `get` copies into a block of its
  -- own.
  pub step : Op → CircularBuffer → Result (Bytes × CircularBuffer)
  step (put_in xs) b = do b' ← put heap b xs (length xs); ok ([], b')
  step (get_out n) b = do (size, xs, b') ← get b (heap.malloc n) n; ok (take size xs, b')
  step (write_out o) b = do (r, xs, b') ← write_to_fd (up_to o) b; ok (xs, b')

  pub run : List Op → CircularBuffer → Result (List Bytes × CircularBuffer)
  unfolding step
  run [] b = ok ([], b)
  run (op ∷ ops) b = do (xs, b') ← step op b; (rest, b'') ← run ops b'; ok (xs ∷ rest, b'')

-- The same on a queue of bytes.
abbrev pub step_queue : Op → Bytes → Bytes × Bytes
step_queue (put_in xs) q = ([], q ++ xs)
step_queue (get_out n) q = (take n q, drop n q)
step_queue (write_out none) q = ([], q)
step_queue (write_out (some n)) q = (take n q, drop n q)

unfoldable pub run_queue : List Op → Bytes → List Bytes × Bytes
run_queue [] q = ([], q)
run_queue (op ∷ ops) q =
    let (xs, q') = step_queue op q in let (rest, q'') = run_queue ops q' in (xs ∷ rest, q'')

-- What is put in fits, and a write has something to write.
abbrev pub Allowed : ℕ → Op → Bytes → Type 0
Allowed capacity (put_in xs) q = length q + length xs ≤ capacity
Allowed capacity (get_out n) q = Unit {0}
Allowed capacity (write_out o) q = q ≢ []

abbrev pub AllAllowed : ℕ → List Op → Bytes → Type 0
AllAllowed capacity [] q = Unit {0}
AllAllowed capacity (op ∷ ops) q =
    Allowed capacity op q × AllAllowed capacity ops (step_queue op q).1

pub get-capacity :
    (b : CircularBuffer) (buffer : Bytes) (n : ℕ)
    → Always (λ o. o.2.capacity ≡ b.capacity) (get b buffer n)
unfolding get
get-capacity b buffer n =
    let size = min n (buffer_len b) in
    let len = min size (u32_sub b.capacity (out_index b)) in
    Always-after kept (memcpy buffer 0 b.bytes (out_index b) len) _
      (λ front. Always-after kept (memcpy front len b.bytes 0 (u32_sub size len)) _ (λ both. refl))
  where
    kept : ℕ × Bytes × CircularBuffer → Type 0
    kept o = o.2.capacity ≡ b.capacity

write_to_fd-capacity :
    (kernel : Bytes → Option ℕ) (b : CircularBuffer)
    → Always (λ o. o.2.capacity ≡ b.capacity) (write_to_fd kernel b)
unfolding write_to_fd answer
write_to_fd-capacity kernel b =
    Always-after kept (assert (not (empty b))) _
      (λ done. Always-after kept (pending b) _ (λ offered. at offered (kernel offered)))
  where
    kept : ℤ × Bytes × CircularBuffer → Type 0
    kept o = o.2.capacity ≡ b.capacity

    at : (offered : Bytes) (o : Option ℕ) → kept (answer b offered o)
    at offered none = refl
    at offered (some n) = refl

-- An outcome that is the queue's, with the capacity as it was.
abbrev pub Like : {A : Type 0} → CircularBuffer → A × Bytes → Result (A × CircularBuffer) → Type 0
Like b (out, q) r =
    (b' : CircularBuffer) × (r ≡ ok (out, b'))
    × IsValid b'
    × (contents b' ≡ q)
    × (b'.capacity ≡ b.capacity)

module _ (heap : Allocator) where
  put_in-Like :
      (xs : Bytes) {b : CircularBuffer}
      → IsValid b
      → length (contents b) + length xs ≤ b.capacity
      → Like b (step_queue (put_in xs) (contents b)) (step heap (put_in xs) b)
  unfolding step
  put_in-Like xs {b} v fits =
      let (b', made, (v', same, cap)) = put-fits heap xs (length xs) v (omega arith) room in
      (
        b',
        ap (λ r. r >>= λ b'. ok ([], b')) made,
        v',
        same ∙ ap (◌++◌ (contents b)) (take-of_length_le (length xs) xs (omega arith)),
        cap,
      )
    where
      room : length xs ≤ buffer_remaining b
      room = omega (arith, (valid-Layout v).remaining, fits, length-contents b)

  get_out-Like :
      (n : ℕ) {b : CircularBuffer}
      → IsValid b
      → Like b (step_queue (get_out n) (contents b)) (step heap (get_out n) b)
  unfolding step
  get_out-Like n {b} v =
      let (b', made, v', same) =
        get-drops (heap.malloc n) n v (omega (arith, heap.length-malloc n)) in
      let size = min n (length (contents b)) in
      (
        b',
        ap (λ r. r >>= λ (size, xs, b'). ok (take size xs, b')) made
            ∙ ap (λ xs. ok (xs, b'))
                (take-append_left size (take size (contents b)) (drop size (heap.malloc n))
                    (omega (arith, length-take size (contents b)))
                  ∙ take-min n (contents b)),
        v',
        same ∙ drop-min n (contents b),
        Always-ok (λ o. o.2.capacity ≡ b.capacity) made (get-capacity b (heap.malloc n) n),
      )

  write_out-Like :
      (o : Option ℕ) {b : CircularBuffer}
      → IsValid b
      → contents b ≢ []
      → Like b (step_queue (write_out o) (contents b)) (step heap (write_out o) b)
  unfolding step
  write_out-Like o {b} v some_held =
      let (r, xs, b', made, (v', same, cases)) =
        write_to_fd-refines (up_to o) (up_to-honest o) v some_held in
      let (out, left) = split o cases in
      (
        b',
        ap (λ r. r >>= λ (r, xs, b'). ok (xs, b')) made ∙ ap (λ xs. ok (xs, b')) out,
        v',
        left,
        Always-ok (λ o. o.2.capacity ≡ b.capacity) made (write_to_fd-capacity (up_to o) b),
      )
    where
      split :
          {r : ℤ} {xs : Bytes} {b' : CircularBuffer} (o : Option ℕ)
          → Flushed b r xs b' (up_to o (contents b))
          → (xs ≡ (step_queue (write_out o) (contents b)).0)
            × (contents b' ≡ (step_queue (write_out o) (contents b)).1)
      split none (refused back out same) = (out, ap contents same)
      split (some n) (taken m back out left) =
          (out ∙ take-min n (contents b), left ∙ drop-min n (contents b))

  step-Like :
      (op : Op) {b : CircularBuffer}
      → IsValid b
      → Allowed b.capacity op (contents b)
      → Like b (step_queue op (contents b)) (step heap op b)
  step-Like (put_in xs) v fits = put_in-Like xs v fits
  step-Like (get_out n) v fits = get_out-Like n v
  step-Like (write_out o) v some_held = write_out-Like o v some_held

  -- A sequence of puts, gets and writes on a valid ring, whatever it holds and wherever it holds it,
  -- where every put fits into the capacity and every write has bytes to write, as the queue of bytes
  -- tells: every call returns and gives out exactly the bytes that the queue gives out, and behind the
  -- last one the ring is valid, holds what the queue holds, and has the capacity that it had.
  pub run-Like :
      (ops : List Op) {b : CircularBuffer}
      → IsValid b
      → AllAllowed b.capacity ops (contents b)
      → Like b (run_queue ops (contents b)) (run heap ops b)
  unfolding run run_queue
  run-Like [] {b} v all = (b, refl, v, refl, refl)
  run-Like (op ∷ ops) {b} v (first, rest) =
      let (b', made, v', same, cap) = step-Like op v first in
      let (b'', done, v'', left, cap') =
        run-Like ops v' (subst₂ (λ c q. AllAllowed c ops q) (sym cap) (sym same) rest) in
      (
        b'',
        ap (λ r. r >>= λ (xs, b'). run heap ops b' >>= λ (rest, b''). ok (xs ∷ rest, b'')) made
            ∙ ap (λ r. r >>= λ (rest, b''). ok ((step_queue op (contents b)).0 ∷ rest, b'')) done
            ∙ ap (λ q. ok ((step_queue op (contents b)).0 ∷ (run_queue ops q).0, b'')) same,
        v'',
        left ∙ ap (λ q. (run_queue ops q).1) same,
        cap' ∙ cap,
      )
