-- ===== src/Timestamp.antt =====
-- mutiplex/Timestamp.h and src/Timestamp.cpp: microseconds since the epoch, and their text. The clock,
-- localtime_r and the zero-padded numbers of snprintf are outside.
pub mod Text
pub mod Samples
use mutiplex.Base.{ℕ, ◌+◌, ◌-◌, ◌*◌, ◌/◌, ◌%◌, ◌^◌, ◌∷◌, ◌++◌, take}
use mutiplex.Base.Int.{ℤ, pos, ◌+ℤ◌}
use mutiplex.Base.Memory.{Bytes}

abbrev pub microseconds_per_second : ℕ
microseconds_per_second = 1000 * 1000

-- The fields of `struct tm` that are printed.
pub record Tm : Type 0 where
  pub tm_year : ℤ
  pub tm_mon : ℕ
  pub tm_mday : ℕ
  pub tm_hour : ℕ
  pub tm_min : ℕ
  pub tm_sec : ℕ

-- `padded w n` is what "%0wd" prints of `n`.
pub record Clock : Type 0 where
  pub localtime : ℕ → Tm
  pub padded : ℕ → ℤ → Bytes

-- What gettimeofday stores, as one number of a uint64_t.
pub current : ℕ → ℕ → ℕ
current tv_sec tv_usec = (tv_sec * microseconds_per_second + tv_usec) % 2 ^ 64

pub seconds : ℕ → ℕ
seconds timestamp = timestamp / microseconds_per_second

pub microseconds : ℕ → ℕ
microseconds timestamp = timestamp % microseconds_per_second

module _ (clock : Clock) where
  open clock use {localtime, padded}

  -- "%04d-%02d-%02d %02d:%02d:%02d", with the characters '-', ' ' and ':'.
  unfoldable pub date_text : Tm → Bytes
  date_text tm =
      padded 4 (tm.tm_year +ℤ pos 1900)
      ++ (45
          ∷ (padded 2 (pos (tm.tm_mon + 1))
              ++ (45
                  ∷ (padded 2 (pos tm.tm_mday)
                      ++ (32
                          ∷ (padded 2 (pos tm.tm_hour)
                              ++ (58
                                  ∷ (padded 2 (pos tm.tm_min)
                                      ++ (58 ∷ padded 2 (pos tm.tm_sec))))))))))

  -- snprintf into 64 bytes keeps 63 characters.
  pub to_string : ℕ → Bytes
  unfolding date_text seconds microseconds
  to_string timestamp =
      take 63
        (date_text (localtime (seconds timestamp)) ++ 46 ∷ padded 6 (pos (microseconds timestamp)))
