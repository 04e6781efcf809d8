-- ===== src/NmeaLog/Words.antt =====
-- getField of main.cpp on the lines of the log.
use da_gis_service.Common.{
  take, ◌+◌, ◌%◌, ◌^◌, ◌<◌, Bool, not, ◌&&◌, ◌||◌, bytes, length-append, All-append, ℕ, zero, suc,
  ◌≤◌, ◌≡◌, refl, ap, true, [], ◌∷◌, ◌++◌, arith, Bytes, length, All, ◌==◌,
}
use da_gis_service.Outcome.{ret}
use da_gis_service.Verify.{to_string}
use da_gis_service.Numerals.{to_unsigned}
use da_gis_service.Numerals.Decimals.{IsDigit, to_string-IsDecimal, atoi-to_string}
use da_gis_service.NmeaLog.{Conversions, read_token, read_tokens, get_field}
use da_gis_service.NmeaLog.Tokens.{
  IsPrintable, least, IsWord, AllWords, join_words, c_str-printable, read_words,
}

take-all : (n : ℕ) (s : Bytes) → length s ≡ n → take n s ≡ s
take-all zero [] h = refl
take-all zero (c ∷ s) h = absurd (omega (arith, h))
take-all (suc n) [] h = absurd (omega (arith, h))
take-all (suc n) (c ∷ s) h = ap (λ t. c ∷ t) (take-all n s (omega (arith, h)))

decimal-IsPrintable : (s : Bytes) → All IsDigit s → All IsPrintable s
decimal-IsPrintable [] h = tt
decimal-IsPrintable (c ∷ s) (d, h) =
    ((ground (arith, d), ground (arith, d)), decimal-IsPrintable s h)

abbrev pub is_printable : Bytes → Bool
is_printable [] = true
is_printable (c ∷ w) = not (c == 32 || c == 0) && is_printable w

pub is_printable-IsPrintable : (w : Bytes) → is_printable w ≡ true → All IsPrintable w
is_printable-IsPrintable [] h = tt
is_printable-IsPrintable (c ∷ w) h =
    ((ground (arith, h), ground (arith, h)), is_printable-IsPrintable w (ground (arith, h)))

-- A word of a name and a text.
append-IsWord :
    (k : ℕ) (name s : Bytes)
    → is_printable name ≡ true
    → All IsPrintable s
    → least k ≤ length name + length s
    → IsWord k (name ++ s)
append-IsWord k name s h text long = record {
  printable = All-append IsPrintable name s (is_printable-IsPrintable name h) text;
  is_long = rw (length-append name s) long;
}

module _ (v : Conversions) where
  -- A line of the log: each word is its name with its text; the last two have any text.
  abbrev pub log_line : (frame : ℕ) (speed date date_ns lat lon : Bytes) → Bytes
  log_line frame speed date date_ns lat lon = join_words (
      (bytes "frame=" ++ to_string frame)
      ∷ (bytes "speed=" ++ speed)
      ∷ (bytes "time=" ++ date)
      ∷ (bytes "xtime=" ++ date_ns)
      ∷ (bytes "lat=" ++ lat)
      ∷ (bytes "lon=" ++ lon)
      ∷ [])

  -- Texts without a blank or a NUL, and dates of 23 and of 29 bytes.
  pub record IsLine (speed date date_ns lat lon : Bytes) : Type 0 where
    pub speed_text : All IsPrintable speed
    pub date_text : All IsPrintable date
    pub date_size : length date ≡ 23
    pub date_ns_text : All IsPrintable date_ns
    pub date_ns_size : length date_ns ≡ 29
    pub lat_text : All IsPrintable lat
    pub lon_text : All IsPrintable lon

  line-AllWords :
      (frame : ℕ) (speed date date_ns lat lon : Bytes)
      → IsLine speed date date_ns lat lon
      → AllWords 0 (
          (bytes "frame=" ++ to_string frame)
          ∷ (bytes "speed=" ++ speed)
          ∷ (bytes "time=" ++ date)
          ∷ (bytes "xtime=" ++ date_ns)
          ∷ (bytes "lat=" ++ lat)
          ∷ (bytes "lon=" ++ lon)
          ∷ [])
  line-AllWords frame speed date date_ns lat lon h =
      let decimal = decimal-IsPrintable (to_string frame) (to_string-IsDecimal frame).digits in
      (
        append-IsWord 0 (bytes "frame=") (to_string frame) refl decimal (omega arith),
        (
          append-IsWord 1 (bytes "speed=") speed refl h.speed_text (omega arith),
          (
            append-IsWord 2 (bytes "time=") date refl h.date_text (omega (arith, h.date_size)),
            (
              append-IsWord 3 (bytes "xtime=") date_ns refl h.date_ns_text
                  (omega (arith, h.date_ns_size)),
              (
                append-IsWord 4 (bytes "lat=") lat refl h.lat_text (omega arith),
                (append-IsWord 5 (bytes "lon=") lon refl h.lon_text (omega arith), tt),
              ),
            ),
          ),
        ),
      )

  -- On a line of the log, getField gives the number of the frame, the speed that its text is, and the times that
  -- getCalcTime and getCalcTimeNs make of the two dates, which are taken not to throw; but 60 degrees of
  -- latitude and 30 of longitude, whatever the line has for them. The number is below 2^31.
  pub get_field-join_words :
      (frame : ℕ) (speed date date_ns lat lon : Bytes) (time xtime : ℕ)
      → frame < 2 ^ 31
      → IsLine speed date date_ns lat lon
      → v.get_calc_time date ≡ ret time
      → v.get_calc_time_ns date_ns ≡ ret xtime
      → get_field v (log_line frame speed date date_ns lat lon)
        ≡ ret (record {
          xtime = xtime;
          time = time;
          frame = frame;
          speed = v.atof speed;
          lon = v.thirty;
          lat = v.sixty;
          lat_disp = v.zero_double;
          lon_disp = v.zero_double;
        })
  unfolding read_tokens read_token to_unsigned
  get_field-join_words frame speed date date_ns lat lon time xtime small h dated dated_ns =
      let decimal = decimal-IsPrintable (to_string frame) (to_string-IsDecimal frame).digits in
      let number = atoi-to_string frame small in
      let low : frame % 2 ^ 64 ≡ frame = omega (arith, small) in
      let whole : take 23 date ≡ date = take-all 23 date h.date_size in
      let whole_ns : take 29 date_ns ≡ date_ns = take-all 29 date_ns h.date_ns_size in
      rw
        (
          read_words v _ (line-AllWords frame speed date date_ns lat lon h),
          c_str-printable (to_string frame) decimal,
          c_str-printable speed h.speed_text,
          number,
          low,
          whole,
          whole_ns,
          dated,
          dated_ns,
        )
        refl
