-- ===== src/NmeaLog/Tests.antt =====
-- Lines of the log of positions that main.cpp reads.
use da_gis_service.Common.{
  ℕ, ◌≡◌, refl, Option, none, some, List, [], ◌∷◌, arith, Bytes, bytes, eqb, c_str, if◌then◌else◌,
}
use da_gis_service.Outcome.{ret}
use da_gis_service.Numerals.{
  to_unsigned, digits_value, to_int, to_long, atoi, signed_value, skip_spaces,
}
use da_gis_service.NmeaLog.{
  cut, tokens, Nmea, Conversions, read_token, read_tokens, get_field, add_lines, read_log,
  add_nmea_log, get_time_mcs_from_array,
}
use da_gis_service.NmeaLog.Tokens.{join_words}
use da_gis_service.NmeaLog.Words.{IsLine, log_line, is_printable-IsPrintable, get_field-join_words}
use da_gis_service.NmeaLog.Lookup.{Looked, get_time_mcs_from_array-add_nmea_log}

-- A double is its text, and a date its year.
abbrev texts : Conversions
texts = record {
  Double = Bytes;
  atof = λ s. s;
  zero_double = bytes "0";
  sixty = bytes "60";
  thirty = bytes "30";
  get_calc_time = λ s. ret (to_unsigned 64 (atoi s));
  get_calc_time_ns = λ s. ret (to_unsigned 64 (atoi s));
}

abbrev words : List Bytes
words =
    bytes "frame=12"
    ∷ bytes "speed=3.5"
    ∷ bytes "time=2021-05-07_10:11:12.345"
    ∷ bytes "xtime=2021-05-07_10:11:12.345678901"
    ∷ []

abbrev record_12 : Nmea Bytes
record_12 = record {
  xtime = 2021;
  time = 2021;
  frame = 12;
  speed = bytes "3.5";
  lon = bytes "0";
  lat = bytes "0";
  lat_disp = bytes "0";
  lon_disp = bytes "0";
}

code : Unit {0}
unfolding cut tokens digits_value to_int to_long atoi signed_value skip_spaces to_unsigned
    read_token read_tokens get_field add_lines read_log add_nmea_log get_time_mcs_from_array eqb
    c_str
code = tt

one_file : Bytes → Option (List Bytes)
one_file path =
    if eqb path (bytes "/log/gps-balka-stat.log") then some ([] ∷ join_words words ∷ []) else none

log_run :
    (get_field texts (join_words words) ≡ ret record_12)
    × (add_nmea_log texts one_file (bytes "/other") [] ≡ ret [])
    × (get_time_mcs_from_array 12 (record_12 ∷ []) ≡ some 2021)
unfolding code one_file
log_run = (refl, refl, refl)

abbrev date : Bytes
date = bytes "2021-05-07_10:11:12.345"

abbrev date_ns : Bytes
date_ns = bytes "2021-05-07_10:11:12.345678901"

texts-IsLine : IsLine texts (bytes "3.5") date date_ns (bytes "59.9") (bytes "30.3")
texts-IsLine = record {
  speed_text = is_printable-IsPrintable (bytes "3.5") refl;
  date_text = is_printable-IsPrintable date refl;
  date_size = refl;
  date_ns_text = is_printable-IsPrintable date_ns refl;
  date_ns_size = refl;
  lat_text = is_printable-IsPrintable (bytes "59.9") refl;
  lon_text = is_printable-IsPrintable (bytes "30.3") refl;
}

date_read : (texts.get_calc_time date ≡ ret 2021) × (texts.get_calc_time_ns date_ns ≡ ret 2021)
unfolding code
date_read = (refl, refl)

get_field-join_words_example :
    get_field texts (log_line texts 12 (bytes "3.5") date date_ns (bytes "59.9") (bytes "30.3"))
    ≡ ret (record {
      xtime = 2021;
      time = 2021;
      frame = 12;
      speed = bytes "3.5";
      lon = bytes "30";
      lat = bytes "60";
      lat_disp = bytes "0";
      lon_disp = bytes "0";
    })
get_field-join_words_example =
    get_field-join_words texts 12 (bytes "3.5") date date_ns (bytes "59.9") (bytes "30.3") 2021 2021
      (omega arith) texts-IsLine date_read.0 date_read.1

file_read : add_nmea_log texts one_file (bytes "/log") [] ≡ ret (record_12 ∷ [])
unfolding code one_file
file_read = refl

get_time_mcs_from_array-add_nmea_log_example :
    Looked 12 (record_12 ∷ []) (get_time_mcs_from_array 12 (record_12 ∷ []))
    × ((time : ℕ)
        → get_time_mcs_from_array {Double = Bytes} 12 [] ≡ some time
        → get_time_mcs_from_array 12 (record_12 ∷ []) ≡ some time)
get_time_mcs_from_array-add_nmea_log_example =
    get_time_mcs_from_array-add_nmea_log texts one_file (bytes "/log") [] (record_12 ∷ []) 12
      file_read
