-- ===== src/NmeaLog.antt =====
-- The log of positions of main.cpp: addNmeaLog, getField and getTimeMcsFromArray. getCalcTime and
-- getCalcTimeNs read their arrays past the ends, and are seen as functions of the 23 and 29 bytes that
-- they copy, which may throw, as stoi does.
pub mod Tokens
pub mod Words
pub mod Lookup
pub mod Dates
mod Tests
use da_gis_service.Common.{
  ℕ, zero, suc, ◌+◌, ◌-◌, ◌*◌, ◌%◌, ◌^◌, ◌≡◌, Bool, true, false, ◌&&◌, Option, none, some, List, [],
  ◌∷◌, ◌++◌, Bytes, bytes, eqb, c_str, take, drop, ◌==◌, leb, if◌then◌else◌,
}
use da_gis_service.Numerals.{to_unsigned, atoi}
use da_gis_service.Outcome.{Outcome, ret, raise, ◌>>=◌}

-- What follows a pointer into a text that strtok has cut at the next blank.
unfoldable pub cut : Bytes → Bytes
cut [] = []
cut (c ∷ s) = if c == 32 then 0 ∷ s else c ∷ cut s

-- `strtok(s, " ")` again and again: for each token, what follows the pointer to it. `is_start` tells
-- whether no token is open.
unfoldable pub tokens : (is_start : Bool) → Bytes → List Bytes
tokens is_start [] = []
tokens is_start (c ∷ s) =
    if c == 32
    then tokens true s
    else if is_start
    then cut (c ∷ s) ∷ tokens false s
    else tokens false s

-- The C string `token + n`.
abbrev pub skip : ℕ → Bytes → Bytes
skip n token = c_str (drop n token)

-- nmea; `Double` stands for double, and times are numbers.
pub record Nmea (Double : Type 0) : Type 0 where
  pub xtime : ℕ
  pub time : ℕ
  pub frame : ℕ
  pub speed : Double
  pub lon : Double
  pub lat : Double
  pub lat_disp : Double
  pub lon_disp : Double

-- atof, the doubles 0, 60 and 30, and the two conversions of a date.
pub record Conversions : Type 1 where
  pub Double : Type 0
  pub atof : Bytes → Double
  pub zero_double : Double
  pub sixty : Double
  pub thirty : Double
  pub get_calc_time : Bytes → Outcome ℕ
  pub get_calc_time_ns : Bytes → Outcome ℕ

module _ (v : Conversions) where
  -- `nmea data = {0}`
  abbrev pub no_data : Nmea v.Double
  no_data = record {
    xtime = 0;
    time = 0;
    frame = 0;
    speed = v.zero_double;
    lon = v.zero_double;
    lat = v.zero_double;
    lat_disp = v.zero_double;
    lon_disp = v.zero_double;
  }

  -- The body of the loop of getField for token number `k`.
  unfoldable pub read_token : (k : ℕ) (token : Bytes) → Nmea v.Double → Outcome (Nmea v.Double)
  read_token zero token n = ret (record n { frame = to_unsigned 64 (atoi (skip 6 token)) })
  read_token (suc zero) token n = ret (record n { speed = v.atof (skip 6 token) })
  read_token (suc (suc zero)) token n =
      v.get_calc_time (take 23 (drop 5 token)) >>= λ t. ret (record n { time = t })
  read_token (suc (suc (suc zero))) token n =
      v.get_calc_time_ns (take 29 (drop 6 token)) >>= λ t. ret (record n { xtime = t })
  read_token (suc (suc (suc (suc zero)))) token n = ret (record n { lat = v.sixty })
  read_token (suc (suc (suc (suc (suc zero))))) token n = ret (record n { lon = v.thirty })
  read_token k token n = ret n

  -- The loop of getField from token number `k` on.
  unfoldable pub read_tokens : (k : ℕ) → List Bytes → Nmea v.Double → Outcome (Nmea v.Double)
  read_tokens k [] n = ret n
  read_tokens k (token ∷ rest) n = read_token k token n >>= λ next. read_tokens (suc k) rest next

  -- getField
  unfoldable pub get_field : Bytes → Outcome (Nmea v.Double)
  get_field str = read_tokens 0 (tokens true (c_str str)) no_data

  -- The loop of addNmeaLog over the lines of the file: `nmeaLog` after it.
  unfoldable pub add_lines : List Bytes → List (Nmea v.Double) → Outcome (List (Nmea v.Double))
  add_lines [] log = ret log
  add_lines (line ∷ lines) log =
      if eqb line []
      then add_lines lines log
      else get_field line >>= λ data_read. add_lines lines (log ++ data_read ∷ [])

  -- addNmeaLog, from the opening of the file on; it has no lines if it cannot be opened.
  unfoldable pub read_log :
      Option (List Bytes) → List (Nmea v.Double) → Outcome (List (Nmea v.Double))
  read_log none log = ret log
  read_log (some lines) log = add_lines lines log

  -- addNmeaLog
  unfoldable pub add_nmea_log :
      (open_file : Bytes → Option (List Bytes)) (path : Bytes)
      → List (Nmea v.Double)
      → Outcome (List (Nmea v.Double))
  add_nmea_log open_file path log =
      read_log (open_file (c_str (path ++ bytes "/gps-balka-stat.log"))) log

-- getTimeMcsFromArray of a number that is not negative; without such a frame the result is not set.
unfoldable pub get_time_mcs_from_array :
    {Double : Type 0} → (file_id : ℕ) → List (Nmea Double) → Option ℕ
get_time_mcs_from_array file_id [] = none
get_time_mcs_from_array file_id (n ∷ log) =
    if n.frame == file_id then some n.xtime else get_time_mcs_from_array file_id log
