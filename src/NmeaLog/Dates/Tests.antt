-- ===== src/NmeaLog/Dates/Tests.antt =====
-- Dates as main.cpp reads them.
use da_gis_service.Common.{ℕ, ◌+◌, ◌*◌, ◌≡◌, refl, true, [], ◌∷◌, arith, Bytes, bytes, c_str}
use da_gis_service.Outcome.{ret, raise, no_number}
use da_gis_service.Numerals.{
  to_unsigned, digits_value, stoi, signed_value, checked_value, skip_spaces, has_number, is_digit,
}
use da_gis_service.NmeaLog.Dates.{
  DateArray, year, Tm, stoi_part, now_of, get_calc_time, get_calc_time_ns,
}
use da_gis_service.NmeaLog.Dates.Parts.{Date, IsDate, IsPart}
use da_gis_service.NmeaLog.Dates.Written.{Agree, get_calc_time-get_calc_time_ns}

code : Unit {0}
unfolding get_calc_time get_calc_time_ns now_of stoi_part stoi checked_value signed_value has_number
    skip_spaces digits_value to_unsigned c_str
code = tt

-- A NUL behind each array.
abbrev nul : DateArray → Bytes
nul a = 0 ∷ []

-- A digit behind the year alone.
abbrev digit : DateArray → Bytes
digit year = bytes "3"
digit a = 0 ∷ []

-- Seconds in a day of the first month of 1970.
abbrev seconds : Tm → ℕ
seconds tm = (tm.tm_mday * 24 + tm.tm_hour) * 3600 + tm.tm_min * 60 + tm.tm_sec

-- Years are as far from 0 as they are from 1900.
abbrev years : Tm → ℕ
years tm = tm.tm_year

abbrev moment : Date
moment = record {
  year = bytes "2021";
  month = bytes "05";
  day = bytes "07";
  hour = bytes "10";
  min = bytes "11";
  sec = bytes "12";
}

date_run :
    (get_calc_time nul years (λ n. n) (bytes "2021-05-07_10:11:12.345") ≡ ret 121345000)
    × (get_calc_time digit years (λ n. n) (bytes "2021-05-07_10:11:12.345") ≡ ret 18313345000)
    × (get_calc_time nul years (λ n. n) (bytes "2021-xx-07_10:11:12.345") ≡ raise no_number)
unfolding code
date_run = (refl, refl, refl)

digits_2 : (a b : ℕ) → is_digit a ≡ true → is_digit b ≡ true → IsPart 2 (a ∷ b ∷ [])
digits_2 a b h g = record { decimal = record { digits = (h, (g, tt)); has_digit = h }; size = refl }

moment-IsDate : IsDate moment
moment-IsDate = record {
  year = record {
    decimal = record { digits = (refl, (refl, (refl, (refl, tt)))); has_digit = refl };
    size = refl;
  };
  month = digits_2 _ _ refl refl;
  day = digits_2 _ _ refl refl;
  hour = digits_2 _ _ refl refl;
  min = digits_2 _ _ refl refl;
  sec = digits_2 _ _ refl refl;
}

msec-IsPart : IsPart 3 (bytes "345")
msec-IsPart = record {
  decimal = record { digits = (refl, (refl, (refl, tt))); has_digit = refl };
  size = refl;
}

more-IsPart : IsPart 6 (bytes "678901")
more-IsPart = record {
  decimal = record {
    digits = (refl, (refl, (refl, (refl, (refl, (refl, tt))))));
    has_digit = refl;
  };
  size = refl;
}

get_calc_time-get_calc_time_ns_example :
    Agree
      (get_calc_time nul seconds (λ n. n) (bytes "2021-05-07_10:11:12.345"))
      (get_calc_time_ns nul seconds (λ n. n) (bytes "2021-05-07_10:11:12.345678901"))
unfolding digits_value to_unsigned
get_calc_time-get_calc_time_ns_example =
    get_calc_time-get_calc_time_ns nul nul seconds (λ n. n) (λ a. refl) (λ a. refl) (λ n h. refl)
      moment (bytes "345") (bytes "678901") moment-IsDate msec-IsPart more-IsPart (omega arith)
