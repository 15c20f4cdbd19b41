-- ===== src/InetAddress/Text.antt =====
-- The text of an address, "127.0.0.1:8080", printed and parsed.
use mutiplex.Base.{
  ℕ, suc, ◌+◌, ◌%◌, ◌^◌, ◌<◌, ◌≡◌, refl, ap, ap₂, ◌∙◌, ok, [], ◌∷◌, ◌++◌, length, take, drop, none,
  some, arith, length-append, take-of_length_le, take-append_left, Bool-cases, inl, inr, ◌==◌,
  Option,
}
use mutiplex.Base.Int.{pos}
use mutiplex.Base.Memory.{Bytes}
use mutiplex.InetAddress.{
  made, Libc, InetAddress, new, find, colon, parse, parse_at, to_string, host_port,
}
use mutiplex.InetAddress.Laws.{Laws, IsAddress}

pub found_later : (o : Option ℕ) → elim o [ none ↦ none | some p ↦ some (suc p) ] ≡ none → o ≡ none
found_later none e = refl
found_later (some p) e = cc

pub some-none {ℓ} : {A : Type ℓ} {a : A} → ◌≡◌ {A = Option A} (some a) none → ⊥
some-none e = cc

-- The first colon of a text that has none before it.
find-append :
    (xs ys : Bytes) → find xs colon ≡ none → find (xs ++ colon ∷ ys) colon ≡ some (length xs)
unfolding find
find-append [] ys e = refl
find-append (x ∷ xs) ys e = elim (Bool-cases (x == colon)) [
  | inl y ↦ absurd (some-none (rw y at e))
  | inr n ↦ rw (n, find-append xs ys (found_later (find xs colon) (rw n at e))) refl
]

drop_past : (xs : Bytes) (y : ℕ) (ys : Bytes) → drop (length xs + 1) (xs ++ y ∷ ys) ≡ ys
drop_past [] y ys = refl
drop_past (x ∷ xs) y ys =
    ap (λ n. drop n (x ∷ xs ++ y ∷ ys)) {y = suc (length xs + 1)} (omega arith) ∙ drop_past xs y ys

module _ (libc : Libc) (laws : Laws libc) where
  -- Parsing the text of an address, a colon, and the text of any number below 2^31: the address is
  -- taken over, and the port is that number modulo 2^16.
  pub parse-wraps :
      (ip n : ℕ)
      → ip < 2 ^ 32
      → n < 2 ^ 31
      → parse libc (libc.inet_ntop ip ++ colon ∷ libc.decimal (pos n))
        ≡ ok (new ip (libc.htons (n % 2 ^ 16)))
  unfolding parse parse_at made
  parse-wraps ip n h k =
      let text = libc.inet_ntop ip in
      let port = libc.decimal (pos n) in
      ap (parse_at libc (text ++ colon ∷ port)) (find-append text port (laws.find-ntop ip h))
      ∙ ap₂ (λ front back. made libc (libc.inet_pton front) (libc.atoi back))
          (take-append_left (length text) text (colon ∷ port) refl) (drop_past text colon port)
      ∙ ap₂ (made libc) (laws.pton-ntop ip h) (laws.atoi-decimal n k)

  -- An address whose fields are a `uint32_t` and a `uint16_t` is what its text is parsed to.
  pub parse-to_string : (a : InetAddress) → IsAddress a → parse libc (to_string libc a) ≡ ok a
  unfolding to_string host_port
  parse-to_string a (h, k) =
      ap (parse libc) whole
      ∙ parse-wraps a.ip (libc.ntohs a.port) h (omega (arith, low))
      ∙ ap (λ port. ok (new a.ip port)) back
    where
      low : libc.ntohs a.port < 2 ^ 16
      low = laws.ntohs-lt a.port k

      text : Bytes
      text = libc.inet_ntop a.ip ++ colon ∷ libc.decimal (pos (libc.ntohs a.port))

      whole : take 31 text ≡ text
      whole = take-of_length_le 31 text (
          omega (
            arith,
            length-append (libc.inet_ntop a.ip) (colon ∷ libc.decimal (pos (libc.ntohs a.port))),
            laws.length-ntop a.ip h,
            laws.length-decimal (libc.ntohs a.port) low,
          ))

      back : libc.htons (libc.ntohs a.port % 2 ^ 16) ≡ a.port
      back = ap libc.htons {y = libc.ntohs a.port} (omega (arith, low)) ∙ laws.htons-ntohs a.port k
