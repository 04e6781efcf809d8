-- ===== src/NmeaLog/Dates.antt =====
-- getCalcTime and getCalcTimeNs of main.cpp. They copy the parts of a date into arrays that the parts fill
-- to the last byte, so that the texts made of the arrays go on with what memory holds behind them.
pub mod Parts
pub mod Written
mod Tests
use da_gis_service.Common.{
  ℕ, zero, suc, ◌+◌, ◌-◌, ◌*◌, ◌/◌, ◌%◌, ◌^◌, ◌≡◌, List, [], ◌∷◌, ◌++◌, Bytes, take, drop,
}
use da_gis_service.Outcome.{Outcome, ret, raise, ◌>>=◌}
use da_gis_service.Numerals.{ℤ, pos, negsuc, negate, to_unsigned, stoi}

-- The arrays, `fraction` for msec and nsec.
pub data DateArray : Type 0 where
  year month day hour min sec fraction : DateArray

-- The fields of std::tm that are set, modulo 2 ^ 32.
pub record Tm : Type 0 where
  pub tm_year : ℕ
  pub tm_mon : ℕ
  pub tm_mday : ℕ
  pub tm_hour : ℕ
  pub tm_min : ℕ
  pub tm_sec : ℕ

-- `n` bytes of a text, from an offset on.
abbrev pub part : (offset n : ℕ) → Bytes → Bytes
part offset n s = take n (drop offset s)

-- `n / 1000` of an int
abbrev pub thousandth : ℤ → ℤ
thousandth (pos n) = pos (n / 1000)
thousandth (negsuc n) = negate ((n + 1) / 1000)

-- An int, less a number, modulo 2 ^ 32.
abbrev pub less : ℤ → ℕ → ℕ
less n k = (to_unsigned 32 n + (2 ^ 32 - k)) % 2 ^ 32

-- `beyond` is what memory holds behind each array, `mktime` the seconds that mktime gives, modulo 2 ^ 64, and
-- `as_double` makes of such a number what is left of it after the conversion to double and back.
module _ (beyond : DateArray → Bytes) (mktime : Tm → ℕ) (as_double : ℕ → ℕ) where
  -- `stoi(std::string(array))` with the array copied from the text.
  unfoldable pub stoi_part : DateArray → (offset n : ℕ) → Bytes → Outcome ℤ
  stoi_part a offset n s = stoi (part offset n s ++ beyond a)

  -- The fields of `now`.
  unfoldable pub now_of : Bytes → Outcome Tm
  now_of s = stoi_part year 0 4 s >>= λ y. stoi_part month 5 2 s >>= λ mo.
      stoi_part day 8 2 s >>= λ d. stoi_part hour 11 2 s >>= λ h. stoi_part min 14 2 s >>= λ mi.
      stoi_part sec 17 2 s >>= λ se. ret (record {
        tm_year = less y 1900;
        tm_mon = less mo 1;
        tm_mday = to_unsigned 32 d;
        tm_hour = to_unsigned 32 h;
        tm_min = to_unsigned 32 mi;
        tm_sec = to_unsigned 32 se;
      })

  -- getCalcTime
  unfoldable pub get_calc_time : Bytes → Outcome ℕ
  get_calc_time s = now_of s >>= λ now. stoi_part fraction 20 3 s >>= λ msec.
      ret (as_double ((mktime now * 1000 + to_unsigned 64 msec) * 1000 % 2 ^ 64))

  -- getCalcTimeNs
  unfoldable pub get_calc_time_ns : Bytes → Outcome ℕ
  get_calc_time_ns s = now_of s >>= λ now. stoi_part fraction 20 9 s >>= λ nsec.
      ret (as_double ((mktime now * 1000000 + to_unsigned 64 (thousandth nsec)) % 2 ^ 64))
