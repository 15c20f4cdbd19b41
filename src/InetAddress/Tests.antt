-- ===== src/InetAddress/Tests.antt =====
-- Runs with a `Libc` that prints an address as one decimal number.
use native.Mathlib.Nat.{pow-suc}
use native.Mathlib.Decide.{dec_lt}
use mutiplex.Base.{
  Bool, Bool-cases, inl, inr, Option, ℕ, zero, suc, ◌+◌, ◌-◌, ◌*◌, ◌/◌, ◌%◌, ◌^◌, ◌≤◌, ◌<◌, ◌≡◌,
  refl, ap, true, false, ok, [], ◌∷◌, ◌++◌, some, none, arith, length, ltb, ◌==◌, if◌then◌else◌,
  length-append, lt→ltb, le→ltb,
}
use mutiplex.Base.Int.{pos, pos_part}
use mutiplex.Base.Memory.{Bytes}
use mutiplex.InetAddress.{Libc, Candidate, new, new_empty, find, colon, parse, to_string, resolve}
use mutiplex.InetAddress.Laws.{Laws}
use mutiplex.InetAddress.Text.{some-none, found_later, parse-wraps, parse-to_string}
use mutiplex.InetAddress.Resolve.{Found, expected, open_after, resolve-first}

digits_of : ℕ → ℕ → Bytes
digits_of zero n = []
digits_of (suc fuel) n =
    let front = digits_of fuel (n / 10) in
    if ltb n 10 then (48 + n) ∷ [] else front ++ (48 + n % 10) ∷ []

number : ℕ → Bytes → ℕ
number acc [] = acc
number acc (x ∷ xs) = number (acc * 10 + (x - 48)) xs

number-append : (acc d : ℕ) (xs : Bytes) → number acc (xs ++ d ∷ []) ≡ number acc xs * 10 + (d - 48)
unfolding number
number-append acc d [] = refl
number-append acc d (x ∷ xs) = number-append (acc * 10 + (x - 48)) d xs

number-digits_of : (fuel n : ℕ) → n < fuel → number 0 (digits_of fuel n) ≡ n
unfolding digits_of number
number-digits_of zero n h = absurd (omega arith)
number-digits_of (suc fuel) n h = elim (dec_lt n 10) [
  | yes small ↦ rw (lt→ltb n 10 small) (omega arith)
  | no large ↦
      rw
        (
          le→ltb n 10 (omega arith),
          number-append 0 (48 + n % 10) (digits_of fuel (n / 10)),
          number-digits_of fuel (n / 10) (omega arith),
        )
        (omega arith)
]

length-digits_of : (k fuel n : ℕ) → n < 10 ^ suc k → length (digits_of fuel n) ≤ suc k
unfolding digits_of
length-digits_of k zero n h = omega arith
length-digits_of zero (suc fuel) n h = rw (lt→ltb n 10 (omega arith)) (omega arith)
length-digits_of (suc k) (suc fuel) n h =
    let rest = length-digits_of k fuel (n / 10) (omega (arith, pow-suc 10 (suc k))) in
    ground (arith, rest, length-append (digits_of fuel (n / 10)) ((48 + n % 10) ∷ []))

find-append_last :
    (xs : Bytes) (y : ℕ) → find xs colon ≡ none → y < 58 → find (xs ++ y ∷ []) colon ≡ none
unfolding find
find-append_last [] y e h = ground arith
find-append_last (x ∷ xs) y e h = elim (Bool-cases (x == colon)) [
  | inl t ↦ absurd (some-none (rw t at e))
  | inr f ↦ rw (f, find-append_last xs y (found_later (find xs colon) (rw f at e)) h) refl
]

find-digits_of : (fuel n : ℕ) → find (digits_of fuel n) colon ≡ none
unfolding digits_of find
find-digits_of zero n = refl
find-digits_of (suc fuel) n = elim (dec_lt n 10) [
  | yes small ↦ rw (lt→ltb n 10 small) (ground arith)
  | no large ↦ rw (le→ltb n 10 (omega arith)) (
      find-append_last (digits_of fuel (n / 10)) (48 + n % 10) (find-digits_of fuel (n / 10))
        (omega arith))
]

abbrev swap_bytes : ℕ → ℕ
swap_bytes n = n % 256 * 256 + n / 256 % 256

abbrev libc : Libc
libc = record {
  inet_pton = λ text. some (number 0 text);
  inet_ntop = λ ip. digits_of (suc ip) ip;
  htons = swap_bytes;
  ntohs = swap_bytes;
  atoi = λ text. pos (number 0 text);
  decimal = λ n. digits_of (suc (pos_part n)) (pos_part n);
}

libc-Laws : Laws libc
libc-Laws = record {
  pton-ntop = λ ip h. ap some (number-digits_of (suc ip) ip (omega arith));
  find-ntop = λ ip h. find-digits_of (suc ip) ip;
  length-ntop = λ ip h. omega (arith, length-digits_of 9 (suc ip) ip (omega arith));
  htons-ntohs = λ port h. omega arith;
  ntohs-lt = λ port h. omega arith;
  atoi-decimal = λ n h. ap pos (number-digits_of (suc n) n (omega arith));
  length-decimal = λ n h. length-digits_of 4 (suc n) n (omega arith);
}

parse-wraps_example :
    parse libc (libc.inet_ntop 9 ++ colon ∷ libc.decimal (pos 65616)) ≡ ok (new 9 (swap_bytes 80))
parse-wraps_example = parse-wraps libc libc-Laws 9 65616 (omega arith) (omega arith)

parse-to_string_example : parse libc (to_string libc (new 16777343 36895)) ≡ ok (new 16777343 36895)
parse-to_string_example =
    parse-to_string libc libc-Laws (new 16777343 36895) (omega arith, omega arith)

abbrev candidate : ℕ → Bool → Candidate
candidate fd connects = record {
  is_inet = true;
  ip = fd;
  port = 80;
  socket = some fd;
  connects = connects;
}

resolve-first_example :
    (o : Option Candidate) × Found (candidate 4 false ∷ candidate 5 true ∷ []) o
    × ((resolve (some (candidate 4 false ∷ candidate 5 true ∷ [])) new_empty).0
        ≡ expected o new_empty)
    × (open_after (resolve (some (candidate 4 false ∷ candidate 5 true ∷ [])) new_empty).1 [] ≡ [])
resolve-first_example = resolve-first (candidate 4 false ∷ candidate 5 true ∷ []) new_empty
