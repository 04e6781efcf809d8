-- ===== src/NmeaLog/Dates/Written.antt =====
-- What getCalcTime and getCalcTimeNs of main.cpp make of a date that is written as they expect it.
use da_gis_service.Common.{
  ℕ, zero, suc, ◌+◌, ◌*◌, ◌/◌, ◌%◌, ◌^◌, ◌≤◌, ◌<◌, ◌≡◌, ◌∙◌, refl, ap, false, [], ◌∷◌, ◌++◌, arith,
  Bytes, take, length, length-append,
}
use da_gis_service.Outcome.{Outcome, ret}
use da_gis_service.Numerals.{pos, to_unsigned, digits_value, starts_with_digit}
use da_gis_service.Numerals.Decimals.{
  stoi-IsDecimal, digits_value-bound, digits_value-least, digits_value-then, append-IsDecimal,
}
use da_gis_service.NmeaLog.Dates.{
  DateArray, year, month, day, hour, min, sec, fraction, Tm, part, less, stoi_part, now_of,
  get_calc_time, get_calc_time_ns,
}
use da_gis_service.NmeaLog.Dates.Parts.{
  Date, IsPart, IsDate, date_text, year_part, month_part, day_part, hour_part, min_part, sec_part,
  fraction_part,
}

abbrev pub number : Bytes → ℕ
number s = digits_value 0 s

-- The fields of std::tm for a date.
abbrev pub tm_of : Date → Tm
tm_of d = record {
  tm_year = less (pos (number d.year)) 1900;
  tm_mon = less (pos (number d.month)) 1;
  tm_mday = to_unsigned 32 (pos (number d.day));
  tm_hour = to_unsigned 32 (pos (number d.hour));
  tm_min = to_unsigned 32 (pos (number d.min));
  tm_sec = to_unsigned 32 (pos (number d.sec));
}

-- No array is followed by a digit.
abbrev pub NoDigit : (DateArray → Bytes) → Type 0
NoDigit beyond = (a : DateArray) → starts_with_digit (beyond a) ≡ false

-- A part that is the whole of a text.
part_all : (x : Bytes) (n : ℕ) → length x ≡ n → take n x ≡ x
part_all [] zero h = refl
part_all [] (suc n) h = absurd (omega (arith, h))
part_all (c ∷ x) zero h = absurd (omega (arith, h))
part_all (c ∷ x) (suc n) h = ap (λ t. c ∷ t) (part_all x n (omega (arith, h)))

number-bound : (x : Bytes) (n : ℕ) → IsPart n x → 10 ^ n < 2 ^ 31 → number x < 2 ^ 31
number-bound x n p small =
    let bound = digits_value-bound 0 1 x (omega arith) p.decimal.digits in
    let b = rw p.size at bound in omega (arith, b, small)

module _ (beyond : DateArray → Bytes) (mktime : Tm → ℕ) (as_double : ℕ → ℕ)
    (none : NoDigit beyond) where
  stoi_part-IsPart :
      (a : DateArray) (offset n : ℕ) (s x : Bytes)
      → part offset n s ≡ x
      → IsPart n x
      → 10 ^ n < 2 ^ 31
      → stoi_part beyond mktime as_double a offset n s ≡ ret (pos (number x))
  unfolding stoi_part
  stoi_part-IsPart a offset n s x e p small =
      rw e (stoi-IsDecimal x (beyond a) p.decimal (none a) (number-bound x n p small))

  now_of-date_text :
      (d : Date) (f : Bytes)
      → IsDate d
      → now_of beyond mktime as_double (date_text d f) ≡ ret (tm_of d)
  unfolding now_of
  now_of-date_text d f is =
      let text = date_text d f in
      rw
        (
          stoi_part-IsPart year 0 4 text d.year (year_part d is f) is.year (omega arith),
          stoi_part-IsPart month 5 2 text d.month (month_part d is f) is.month (omega arith),
          stoi_part-IsPart day 8 2 text d.day (day_part d is f) is.day (omega arith),
          stoi_part-IsPart hour 11 2 text d.hour (hour_part d is f) is.hour (omega arith),
          stoi_part-IsPart min 14 2 text d.min (min_part d is f) is.min (omega arith),
          stoi_part-IsPart sec 17 2 text d.sec (sec_part d is f) is.sec (omega arith),
        )
        refl

  -- On a date with three digits for the milliseconds, with no digit in memory behind any of its arrays,
  -- getCalcTime gives the microseconds of mktime for the date and of the milliseconds, as a double has them.
  pub get_calc_time-date_text :
      (d : Date) (f : Bytes)
      → IsDate d
      → IsPart 3 f
      → get_calc_time beyond mktime as_double (date_text d f)
        ≡ ret (as_double ((mktime (tm_of d) * 1000 + number f) * 1000 % 2 ^ 64))
  unfolding get_calc_time to_unsigned
  get_calc_time-date_text d f is p =
      let read =
        stoi_part-IsPart fraction 20 3 (date_text d f) f
          (fraction_part d is f 3 ∙ part_all f 3 p.size) p (omega arith) in
      let small = number-bound f 3 p (omega arith) in
      let same : number f % 2 ^ 64 ≡ number f = omega (arith, small) in
      rw (now_of-date_text d f is, read) (rw same refl)

  -- Likewise getCalcTimeNs, with nine digits for the nanoseconds, of which it takes the whole microseconds.
  pub get_calc_time_ns-date_text :
      (d : Date) (f : Bytes)
      → IsDate d
      → IsPart 9 f
      → get_calc_time_ns beyond mktime as_double (date_text d f)
        ≡ ret (as_double ((mktime (tm_of d) * 1000000 + number f / 1000) % 2 ^ 64))
  unfolding get_calc_time_ns to_unsigned
  get_calc_time_ns-date_text d f is p =
      let read =
        stoi_part-IsPart fraction 20 9 (date_text d f) f
          (fraction_part d is f 9 ∙ part_all f 9 p.size) p (omega arith) in
      let small = number-bound f 9 p (omega arith) in
      let same : number f / 1000 % 2 ^ 64 ≡ number f / 1000 = omega (arith, small) in
      rw (now_of-date_text d f is, read) (rw same refl)

-- The conversion to double keeps the numbers below 2^53.
abbrev pub KeepsSmall : (ℕ → ℕ) → Type 0
KeepsSmall as_double = (n : ℕ) → n < 2 ^ 53 → as_double n ≡ n

-- Both times of a moment, in microseconds, and the second is of the same millisecond.
pub record Agree (time xtime : Outcome ℕ) : Type 0 where
  pub t : ℕ
  pub x : ℕ
  pub time_read : time ≡ ret t
  pub xtime_read : xtime ≡ ret x
  pub from : t ≤ x
  pub below : x < t + 1000

-- A date with digits for the milliseconds, and the same with six more: whatever is in memory behind the arrays
-- of either function, if no array is followed by a digit and mktime gives less than 2^33, both functions
-- succeed, and the time of getCalcTimeNs is within the millisecond that getCalcTime gives.
pub get_calc_time-get_calc_time_ns :
    (beyond beyond_ns : DateArray → Bytes) (mktime : Tm → ℕ) (as_double : ℕ → ℕ)
    → NoDigit beyond
    → NoDigit beyond_ns
    → KeepsSmall as_double
    → (d : Date) (msec more : Bytes) → IsDate d
    → IsPart 3 msec
    → IsPart 6 more
    → mktime (tm_of d) < 2 ^ 33
    → Agree
        (get_calc_time beyond mktime as_double (date_text d msec))
        (get_calc_time_ns beyond_ns mktime as_double (date_text d (msec ++ more)))
get_calc_time-get_calc_time_ns beyond beyond_ns mktime as_double none none_ns keeps d msec more is p
      q early =
    let m = mktime (tm_of d) in
    let ms = number msec in
    let ns = number (msec ++ more) in
    let parts : IsPart 9 (msec ++ more) = record {
      decimal = append-IsDecimal msec more p.decimal q.decimal;
      size = omega (arith, length-append msec more, p.size, q.size);
    } in
    let then_more : ns ≡ digits_value ms more = digits_value-then 0 msec more p.decimal.digits in
    let least : ms * 10 ^ 6 ≤ digits_value ms more =
      rw q.size at (digits_value-least ms more q.decimal.digits) in
    let most : digits_value ms more < suc ms * 10 ^ 6 =
      rw q.size at (digits_value-bound ms (suc ms) more (omega arith) q.decimal.digits) in
    let small : ms < 1000 =
      rw p.size at (digits_value-bound 0 1 msec (omega arith) p.decimal.digits) in
    let t = (m * 1000 + ms) * 1000 in
    let x = m * 1000000 + ns / 1000 in
    let t_small : t < 2 ^ 53 = omega (arith, early, small) in
    let x_small : x < 2 ^ 53 = omega (arith, early, small, then_more, most) in
    let t_same : t % 2 ^ 64 ≡ t = omega (arith, t_small) in
    let x_same : x % 2 ^ 64 ≡ x = omega (arith, x_small) in
    record {
      t = t;
      x = x;
      time_read =
          get_calc_time-date_text beyond mktime as_double none d msec is p
          ∙ ap ret (ap as_double t_same ∙ keeps t t_small);
      xtime_read =
          get_calc_time_ns-date_text beyond_ns mktime as_double none_ns d (msec ++ more) is parts
          ∙ ap ret (ap as_double x_same ∙ keeps x x_small);
      from = omega (arith, then_more, least);
      below = omega (arith, then_more, most);
    }
