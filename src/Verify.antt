-- ===== src/Verify.antt =====
-- The message that main.cpp sends to its client: prepareVerifyAnswer, with what readAndCompress fills in.
pub mod Framed
pub mod Fits
pub mod Decimal
mod Tests
use da_gis_service.Common.{
  ℕ, zero, suc, ◌+◌, ◌*◌, ◌/◌, ◌%◌, ◌^◌, ◌≡◌, Bool, true, false, Option, none, some, List, [], ◌∷◌,
  ◌++◌, map, Bytes, bytes, c_str, length, take, drop, ltb, if◌then◌else◌,
}

-- srv_to_cl; `Double` stands for double.
pub record SrvToCl (Double : Type 0) : Type 0 where
  pub lat : Bytes
  pub lon : Bytes
  pub time : ℕ
  pub dist : Double
  pub brightness_gain : ℕ
  pub brightness_shutter : ℕ
  pub brightness_gamma : ℕ

-- The digits of a number, on enough fuel.
unfoldable pub digits : (fuel : ℕ) → ℕ → Bytes
digits zero n = []
digits (suc fuel) n =
    let earlier = digits fuel (n / 10) in (if ltb n 10 then [] else earlier) ++ (b'0' + n % 10) ∷ []

-- `std::to_string` of an unsigned number: a number has no more digits than itself and one.
abbrev pub to_string : ℕ → Bytes
to_string n = digits (suc n) n

-- The bytes of an `int` in memory, on a processor that stores the lowest first.
abbrev pub int_bytes : ℕ → Bytes
int_bytes n = n % 256 ∷ n / 256 % 256 ∷ n / 65536 % 256 ∷ n / 16777216 % 256 ∷ []

-- `append`, one after the other, on an empty string.
unfoldable pub append_all : List Bytes → Bytes
append_all [] = []
append_all (s ∷ ss) = s ++ append_all ss

-- `memcpy(buf + at, data, size)` for the bytes of `data`. An array that is longer after it than before has
-- been left: the bytes that are too many have gone to what lies behind it in memory.
unfoldable pub store : (at : ℕ) (data_bytes buf : Bytes) → Bytes
store at data_bytes buf = take at buf ++ (data_bytes ++ drop (at + length data_bytes) buf)

-- `std::to_string(double)`
module _ (Double : Type 0) (double_to_string : Double → Bytes) where
  -- What prepareVerifyAnswer appends to `strJson`.
  abbrev pub json_pieces : (left right : Bytes) → SrvToCl Double → List Bytes
  json_pieces left right s =
      bytes "[\r"
      ∷ bytes "{\r"
      ∷ bytes "\"videoL\":\""
      ∷ left
      ∷ bytes "\",\r"
      ∷ bytes "\"videoR\":\""
      ∷ right
      ∷ bytes "\",\r"
      ∷ bytes "\"lat\":\""
      ∷ s.lat
      ∷ bytes "\",\r"
      ∷ bytes "\"lon\":\""
      ∷ s.lon
      ∷ bytes "\",\r"
      ∷ bytes "\"time\":"
      ∷ to_string s.time
      ∷ bytes ",\r"
      ∷ bytes "\"dist\":"
      ∷ double_to_string s.dist
      ∷ bytes ",\r"
      ∷ bytes "\"brightness\":\r"
      ∷ bytes "[\r"
      ∷ bytes "{\r"
      ∷ bytes "\"gain\":"
      ∷ to_string s.brightness_gain
      ∷ bytes ",\r"
      ∷ bytes "\"shutter\":"
      ∷ to_string s.brightness_shutter
      ∷ bytes ",\r"
      ∷ bytes "\"gamma\":"
      ∷ to_string s.brightness_gamma
      ∷ bytes "\r"
      ∷ bytes "}\r"
      ∷ bytes "]\r"
      ∷ bytes "}\r"
      ∷ bytes "]"
      ∷ []

  -- `strJson`, from the NUL-terminated texts of the two images.
  unfoldable pub str_json : (left_b64 right_b64 : Bytes) → SrvToCl Double → Bytes
  str_json left_b64 right_b64 s = append_all (json_pieces (c_str left_b64) (c_str right_b64) s)

  -- prepareVerifyAnswer: its result, the bits of an int, and `send_json` after it.
  unfoldable pub prepare_verify_answer :
      (left_b64 right_b64 : Bytes) → SrvToCl Double → (send_json : Bytes) → ℕ × Bytes
  prepare_verify_answer left_b64 right_b64 s send_json =
      let json = str_json left_b64 right_b64 s in
      ((length json + 4) % 2 ^ 32, store 4 json (store 0 (int_bytes (length json)) send_json))
