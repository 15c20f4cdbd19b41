-- ===== src/Timestamp/Samples.antt =====
-- A clock whose calendar stands still, for tests.
use mutiplex.Base.{
  ℕ, zero, suc, ◌+◌, ◌/◌, ◌%◌, ◌≡◌, refl, [], ◌∷◌, ◌++◌, length, length-append, arith,
}
use mutiplex.Base.Int.{pos, pos_part}
use mutiplex.Base.Memory.{Bytes}
use mutiplex.Timestamp.{Tm, Clock}
use mutiplex.Timestamp.Text.{IsTm, Laws}

unfoldable pub digits : ℕ → ℕ → Bytes
digits zero n = []
digits (suc w) n = digits w (n / 10) ++ (48 + n % 10) ∷ []

length-digits : (w n : ℕ) → length (digits w n) ≡ w
unfolding digits
length-digits zero n = refl
length-digits (suc w) n =
    omega (arith, length-append (digits w (n / 10)) ((48 + n % 10) ∷ []), length-digits w (n / 10))

abbrev pub noon : Tm
noon = record { tm_year = pos 117; tm_mon = 10; tm_mday = 25; tm_hour = 12; tm_min = 0; tm_sec = 0 }

noon-IsTm : IsTm noon
noon-IsTm = record {
  year = (2017, refl, omega arith);
  mon_lt = omega arith;
  mday_lt = omega arith;
  hour_lt = omega arith;
  min_lt = omega arith;
  sec_lt = omega arith;
}

abbrev pub clock : Clock
clock = record { localtime = λ t. noon; padded = λ w n. digits w (pos_part n) }

pub clock-Laws : Laws clock
clock-Laws = record {
  localtime-IsTm = λ t h. noon-IsTm;
  length-padded = λ w n h. length-digits w n;
}
