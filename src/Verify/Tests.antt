-- ===== src/Verify/Tests.antt =====
-- Messages of prepareVerifyAnswer of main.cpp.
use da_gis_service.Common.{
  ◌*◌, ◌^◌, ◌≤◌, ◌<◌, ◌≡◌, refl, some, [], ◌∷◌, ◌++◌, arith, Bytes, bytes, c_str, length, take,
}
use da_gis_service.Verify.{
  SrvToCl, digits, to_string, append_all, store, str_json, prepare_verify_answer,
}
use da_gis_service.Verify.Framed.{read_message, prepare_verify_answer-read_message}
use da_gis_service.Samples.{zeros, length-zeros}
use da_gis_service.Verify.Fits.{IsBounded, prepare_verify_answer-IsBounded}

code : Unit {0}
unfolding digits append_all store str_json prepare_verify_answer c_str
code = tt

-- A double is its text.
abbrev nowhere : SrvToCl Bytes
nowhere = record {
  lat = bytes "0.000000";
  lon = bytes "0.000000";
  time = 1090;
  dist = bytes "234.600000";
  brightness_gain = 7;
  brightness_shutter = 56;
  brightness_gamma = 89;
}

abbrev same : Bytes → Bytes
same s = s

abbrev left : Bytes
left = bytes "QUJD" ++ 0 ∷ bytes "rest"

abbrev right : Bytes
right = bytes "REVG" ++ 0 ∷ []

abbrev json : Bytes
json = str_json Bytes same left right nowhere

to_string_run : (to_string 1090 ≡ bytes "1090") × (to_string 0 ≡ bytes "0")
unfolding code
to_string_run = (refl, refl)

json-length : length json ≡ 166
unfolding code
json-length = refl

prepare_verify_answer-read_message_example :
    let (size, buf) = prepare_verify_answer Bytes same left right nowhere (zeros (1024 * 1500)) in
    read_message (take size buf ++ bytes "next") ≡ some (json, bytes "next")
prepare_verify_answer-read_message_example =
    prepare_verify_answer-read_message Bytes same left right nowhere (zeros (1024 * 1500))
      (bytes "next") (length-zeros (1024 * 1500)) (omega (arith, json-length))

nowhere-IsBounded : IsBounded Bytes same left right nowhere
nowhere-IsBounded = record {
  left = omega arith;
  right = omega arith;
  lat = omega arith;
  lon = omega arith;
  dist = omega arith;
  time = omega arith;
  gain = omega arith;
  shutter = omega arith;
  gamma = omega arith;
}

prepare_verify_answer-IsBounded_example :
    let (size, buf) = prepare_verify_answer Bytes same left right nowhere (zeros (1024 * 1500)) in
    (size ≤ length (zeros (1024 * 1500)))
    × (length buf ≡ length (zeros (1024 * 1500)))
    × (length json < 2 ^ 31)
prepare_verify_answer-IsBounded_example =
    prepare_verify_answer-IsBounded Bytes same left right nowhere (zeros (1024 * 1500))
      nowhere-IsBounded (length-zeros (1024 * 1500))
