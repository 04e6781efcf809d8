-- ===== src/NmeaLog/Dates/Parts.antt =====
-- Dates of the log that main.cpp reads, and where their parts stand in the text.
use da_gis_service.Common.{
  ℕ, zero, suc, ◌+◌, ◌≡◌, ◌∙◌, refl, ap, [], ◌∷◌, ◌++◌, arith, Bytes, take, length,
}
use da_gis_service.Numerals.Decimals.{IsDecimal}
use da_gis_service.NmeaLog.Dates.{part}

-- The parts of a date, each in digits.
pub record Date : Type 0 where
  pub year : Bytes
  pub month : Bytes
  pub day : Bytes
  pub hour : Bytes
  pub min : Bytes
  pub sec : Bytes

-- `n` digits
pub record IsPart (n : ℕ) (s : Bytes) : Type 0 where
  pub decimal : IsDecimal s
  pub size : length s ≡ n

pub record IsDate (d : Date) : Type 0 where
  pub year : IsPart 4 d.year
  pub month : IsPart 2 d.month
  pub day : IsPart 2 d.day
  pub hour : IsPart 2 d.hour
  pub min : IsPart 2 d.min
  pub sec : IsPart 2 d.sec

-- The date as the log has it, such as 2021-05-07_10:11:12.345.
abbrev pub date_text : Date → (fraction : Bytes) → Bytes
date_text d f =
    d.year
    ++ b'-'
      ∷ (d.month
          ++ b'-' ∷ (d.day ++ b'_' ∷ (d.hour ++ b':' ∷ (d.min ++ b':' ∷ (d.sec ++ b'.' ∷ f)))))

part_here : (x rest : Bytes) (n : ℕ) → length x ≡ n → part 0 n (x ++ rest) ≡ x
part_here [] rest zero h = refl
part_here [] rest (suc n) h = absurd (omega (arith, h))
part_here (c ∷ x) rest zero h = absurd (omega (arith, h))
part_here (c ∷ x) rest (suc n) h = ap (λ t. c ∷ t) (part_here x rest n (omega (arith, h)))

part_later :
    (x rest : Bytes) (c n offset w : ℕ)
    → length x ≡ n
    → part (n + suc offset) w (x ++ c ∷ rest) ≡ part offset w rest
part_later [] rest c zero offset w h =
    let e : 0 + suc offset ≡ suc offset = omega arith in rw e refl
part_later [] rest c (suc n) offset w h = absurd (omega (arith, h))
part_later (a ∷ x) rest c zero offset w h = absurd (omega (arith, h))
part_later (a ∷ x) rest c (suc n) offset w h =
    let e : suc n + suc offset ≡ suc (n + suc offset) = omega arith in
    rw e (part_later x rest c n offset w (omega (arith, h)))

module _ (d : Date) (is : IsDate d) (f : Bytes) where
  abbrev from_sec : Bytes
  from_sec = d.sec ++ b'.' ∷ f

  abbrev from_min : Bytes
  from_min = d.min ++ b':' ∷ from_sec

  abbrev from_hour : Bytes
  from_hour = d.hour ++ b':' ∷ from_min

  abbrev from_day : Bytes
  from_day = d.day ++ b'_' ∷ from_hour

  abbrev from_month : Bytes
  from_month = d.month ++ b'-' ∷ from_day

  after_year : (k w : ℕ) → part (4 + suc k) w (date_text d f) ≡ part k w from_month
  after_year k w = part_later d.year from_month b'-' 4 k w is.year.size

  after_month : (k w : ℕ) → part (4 + suc (2 + suc k)) w (date_text d f) ≡ part k w from_day
  after_month k w = after_year (2 + suc k) w ∙ part_later d.month from_day b'-' 2 k w is.month.size

  after_day :
      (k w : ℕ) → part (4 + suc (2 + suc (2 + suc k))) w (date_text d f) ≡ part k w from_hour
  after_day k w = after_month (2 + suc k) w ∙ part_later d.day from_hour b'_' 2 k w is.day.size

  after_hour :
      (k w : ℕ)
      → part (4 + suc (2 + suc (2 + suc (2 + suc k)))) w (date_text d f) ≡ part k w from_min
  after_hour k w = after_day (2 + suc k) w ∙ part_later d.hour from_min b':' 2 k w is.hour.size

  after_min :
      (k w : ℕ)
      → part (4 + suc (2 + suc (2 + suc (2 + suc (2 + suc k))))) w (date_text d f)
        ≡ part k w from_sec
  after_min k w = after_hour (2 + suc k) w ∙ part_later d.min from_sec b':' 2 k w is.min.size

  after_sec :
      (k w : ℕ)
      → part (4 + suc (2 + suc (2 + suc (2 + suc (2 + suc (2 + suc k)))))) w (date_text d f)
        ≡ part k w f
  after_sec k w = after_min (2 + suc k) w ∙ part_later d.sec f b'.' 2 k w is.sec.size

  pub year_part : part 0 4 (date_text d f) ≡ d.year
  year_part = part_here d.year (b'-' ∷ from_month) 4 is.year.size

  pub month_part : part 5 2 (date_text d f) ≡ d.month
  month_part = after_year 0 2 ∙ part_here d.month (b'-' ∷ from_day) 2 is.month.size

  pub day_part : part 8 2 (date_text d f) ≡ d.day
  day_part = after_month 0 2 ∙ part_here d.day (b'_' ∷ from_hour) 2 is.day.size

  pub hour_part : part 11 2 (date_text d f) ≡ d.hour
  hour_part = after_day 0 2 ∙ part_here d.hour (b':' ∷ from_min) 2 is.hour.size

  pub min_part : part 14 2 (date_text d f) ≡ d.min
  min_part = after_hour 0 2 ∙ part_here d.min (b':' ∷ from_sec) 2 is.min.size

  pub sec_part : part 17 2 (date_text d f) ≡ d.sec
  sec_part = after_min 0 2 ∙ part_here d.sec (b'.' ∷ f) 2 is.sec.size

  pub fraction_part : (w : ℕ) → part 20 w (date_text d f) ≡ take w f
  fraction_part w = after_sec 0 w
