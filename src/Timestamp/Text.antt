-- ===== src/Timestamp/Text.antt =====
-- The text of a timestamp, "yyyy-mm-dd hh:mm:ss.ffffff".
use mutiplex.Base.{
  ℕ, ◌+◌, ◌^◌, ◌<◌, ◌≡◌, ap, ap₂, ◌∙◌, ◌∷◌, ◌++◌, length, take, length-append, take-of_length_le,
  arith,
}
use mutiplex.Base.Int.{pos, ◌+ℤ◌}
use mutiplex.Base.Memory.{Bytes}
use mutiplex.Timestamp.{
  Tm, Clock, current, seconds, microseconds, microseconds_per_second, date_text, to_string,
}

-- The fields of a time of the years 0 to 9999.
pub record IsTm (tm : Tm) : Type 0 where
  pub year : (y : ℕ) × (tm.tm_year +ℤ pos 1900 ≡ pos y) × (y < 10 ^ 4)
  pub mon_lt : tm.tm_mon < 12
  pub mday_lt : tm.tm_mday < 32
  pub hour_lt : tm.tm_hour < 24
  pub min_lt : tm.tm_min < 60
  pub sec_lt : tm.tm_sec < 61

-- The number of seconds up to the last day of the year 9999.
abbrev pub last_second : ℕ
last_second = 253402214400

-- What the manuals promise: localtime_r fills in the fields in their ranges, and "%0wd" prints `w`
-- characters of a number that has no more digits than that.
pub record Laws (clock : Clock) : Type 0 where
  pub localtime-IsTm : (t : ℕ) → t < last_second → IsTm (clock.localtime t)
  pub length-padded : (w n : ℕ) → n < 10 ^ w → length (clock.padded w (pos n)) ≡ w

split-current :
    (tv_sec tv_usec : ℕ)
    → tv_sec < last_second
    → tv_usec < microseconds_per_second
    → (seconds (current tv_sec tv_usec) ≡ tv_sec)
      × (microseconds (current tv_sec tv_usec) ≡ tv_usec)
unfolding seconds microseconds current
split-current tv_sec tv_usec h k = (omega arith, omega arith)

length-joined :
    (xs ys : Bytes) (c : ℕ) {n m : ℕ}
    → length xs ≡ n
    → length ys ≡ m
    → length (xs ++ c ∷ ys) ≡ n + (1 + m)
length-joined xs ys c e f = omega (arith, length-append xs (c ∷ ys), e, f)

module _ (clock : Clock) (laws : Laws clock) where
  length-date_text : (tm : Tm) → IsTm tm → length (date_text clock tm) ≡ 19
  unfolding date_text
  length-date_text tm v =
      let (y, e, small) = v.year in
      length-joined _ _ 45 (ap (λ z. length (clock.padded 4 z)) e ∙ laws.length-padded 4 y small) (
        length-joined _ _ 45 (laws.length-padded 2 (tm.tm_mon + 1) (omega (arith, v.mon_lt))) (
          length-joined _ _ 32 (laws.length-padded 2 tm.tm_mday (omega (arith, v.mday_lt))) (
            length-joined _ _ 58 (laws.length-padded 2 tm.tm_hour (omega (arith, v.hour_lt))) (
              length-joined _ _ 58 (laws.length-padded 2 tm.tm_min (omega (arith, v.min_lt)))
                (laws.length-padded 2 tm.tm_sec (omega (arith, v.sec_lt)))))))

  -- The text of a time that gettimeofday has answered, before the last day of the year 9999: it is
  -- never cut off, has 26 characters, and is the date and time of its seconds, a point, and its
  -- microseconds in six digits.
  pub to_string-current :
      (tv_sec tv_usec : ℕ)
      → tv_sec < last_second
      → tv_usec < microseconds_per_second
      → let text = to_string clock (current tv_sec tv_usec) in
        (text ≡ date_text clock (clock.localtime tv_sec) ++ 46 ∷ clock.padded 6 (pos tv_usec))
        × (length text ≡ 26)
  unfolding to_string
  to_string-current tv_sec tv_usec h k = (same, ap length same ∙ whole)
    where
      text : ℕ → ℕ → Bytes
      text s u = date_text clock (clock.localtime s) ++ 46 ∷ clock.padded 6 (pos u)

      whole : length (text tv_sec tv_usec) ≡ 26
      whole =
          length-joined (date_text clock (clock.localtime tv_sec)) (clock.padded 6 (pos tv_usec)) 46
            (length-date_text (clock.localtime tv_sec) (laws.localtime-IsTm tv_sec h))
            (laws.length-padded 6 tv_usec k)

      same : to_string clock (current tv_sec tv_usec) ≡ text tv_sec tv_usec
      same =
          ap₂ (λ s u. take 63 (text s u)) (split-current tv_sec tv_usec h k).0
            (split-current tv_sec tv_usec h k).1
          ∙ take-of_length_le 63 (text tv_sec tv_usec) (omega (arith, whole))
