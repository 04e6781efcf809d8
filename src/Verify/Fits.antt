-- ===== src/Verify/Fits.antt =====
-- prepareVerifyAnswer of main.cpp: how long the message gets, against the arrays that it goes through.
use native.Mathlib.Numerals.{unary_clauses}
use da_gis_service.Common.{
  ℕ, zero, suc, ◌+◌, ◌-◌, ◌*◌, ◌/◌, ◌%◌, ◌^◌, ◌≤◌, ◌<◌, ◌≡◌, refl, ap, ◌∙◌, true, List, [], ◌∷◌,
  ◌++◌, arith, Bytes, c_str, length, length-append, take, drop, ltb, ◌==◌, Bool-cases, inl, inr,
}
use da_gis_service.Verify.{
  SrvToCl, digits, int_bytes, append_all, json_pieces, store, str_json, prepare_verify_answer,
}

abbrev total : List Bytes → ℕ
total [] = 0
total (s ∷ ss) = length s + total ss

length-append_all : (ss : List Bytes) → length (append_all ss) ≡ total ss
unfolding append_all
length-append_all [] = refl
length-append_all (s ∷ ss) = omega (arith, length-append s (append_all ss), length-append_all ss)

-- A number below 10^k, but for 0, has at most k digits.
length-digits : (fuel k n : ℕ) → n < 10 ^ suc k → length (digits fuel n) ≤ suc k
unfolding digits
length-digits zero k n h = omega arith
length-digits (suc fuel) zero n h =
    let small : ltb n 10 ≡ true = ground (arith, h) in rw small (omega arith)
length-digits (suc fuel) (suc k) n h =
    let fewer : n / 10 < 10 ^ suc k = omega (arith, simp unary_clauses at h) in
    let earlier = length-digits fuel k (n / 10) fewer in
    elim (Bool-cases (ltb n 10)) [
      | inl e ↦ rw e (omega arith)
      | inr e ↦
          rw e (omega (arith, earlier, length-append (digits fuel (n / 10)) ((48 + n % 10) ∷ [])))
    ]

length-drop : (n : ℕ) (s : Bytes) → length (drop n s) ≡ length s - n
length-drop zero s = omega arith
length-drop (suc n) [] = omega arith
length-drop (suc n) (c ∷ s) = omega (arith, length-drop n s)

length-take : (n : ℕ) (s : Bytes) → n ≤ length s → length (take n s) ≡ n
length-take zero s h = refl
length-take (suc n) [] h = absurd (omega (arith, h))
length-take (suc n) (c ∷ s) h = ap suc (length-take n s (omega (arith, h)))

pub length-store :
    (at : ℕ) (data_bytes buf : Bytes)
    → at + length data_bytes ≤ length buf
    → length (store at data_bytes buf) ≡ length buf
unfolding store
length-store at data_bytes buf h =
    let end = drop (at + length data_bytes) buf in
    omega (
      arith,
      length-append (take at buf) (data_bytes ++ end),
      length-append data_bytes end,
      length-take at buf (omega (arith, h)),
      length-drop (at + length data_bytes) buf,
      h,
    )

length-c_str : (s : Bytes) → length (c_str s) ≤ length s
unfolding c_str
length-c_str [] = omega arith
length-c_str (c ∷ s) = elim (Bool-cases (c == 0)) [
  | inl e ↦ rw e (omega arith)
  | inr e ↦ rw e (omega (arith, length-c_str s))
]

module _ (Double : Type 0) (double_to_string : Double → Bytes) where
  -- What the arrays and the types of the program bound: the images are texts in arrays of 700 KiB, and
  -- the numbers are of 64 and of 32 bits. `std::to_string` writes a double with at most 320 bytes.
  pub record IsBounded (left_b64 right_b64 : Bytes) (s : SrvToCl Double) : Type 0 where
    pub left : length left_b64 ≤ 1024 * 700
    pub right : length right_b64 ≤ 1024 * 700
    pub lat : length s.lat ≤ 320
    pub lon : length s.lon ≤ 320
    pub dist : length (double_to_string s.dist) ≤ 320
    pub time : s.time < 2 ^ 64
    pub gain : s.brightness_gain < 2 ^ 32
    pub shutter : s.brightness_shutter < 2 ^ 32
    pub gamma : s.brightness_gamma < 2 ^ 32

  length-str_json :
      (left_b64 right_b64 : Bytes) (s : SrvToCl Double)
      → IsBounded left_b64 right_b64 s
      → length (str_json Double double_to_string left_b64 right_b64 s) + 4 ≤ 1024 * 1500
  unfolding str_json
  length-str_json left_b64 right_b64 s h = omega (
    arith,
    length-append_all (json_pieces Double double_to_string (c_str left_b64) (c_str right_b64) s),
    length-c_str left_b64,
    length-c_str right_b64,
    h.left,
    h.right,
    h.lat,
    h.lon,
    h.dist,
    length-digits (suc s.time) 19 s.time (omega (arith, h.time)),
    length-digits (suc s.brightness_gain) 9 s.brightness_gain (omega (arith, h.gain)),
    length-digits (suc s.brightness_shutter) 9 s.brightness_shutter (omega (arith, h.shutter)),
    length-digits (suc s.brightness_gamma) 9 s.brightness_gamma (omega (arith, h.gamma)),
  )

  pub length-prepare_verify_answer :
      (left_b64 right_b64 : Bytes) (s : SrvToCl Double) (send_json : Bytes)
      → length (str_json Double double_to_string left_b64 right_b64 s) + 4 ≤ length send_json
      → length (prepare_verify_answer Double double_to_string left_b64 right_b64 s send_json).1
        ≡ length send_json
  unfolding prepare_verify_answer
  length-prepare_verify_answer left_b64 right_b64 s send_json fits =
      let json = str_json Double double_to_string left_b64 right_b64 s in
      let head = length-store 0 (int_bytes (length json)) send_json (omega (arith, fits)) in
      length-store 4 json (store 0 (int_bytes (length json)) send_json) (omega (arith, head, fits))
      ∙ head

  -- The message and its length fit into send_json, which has 1500 KiB: prepareVerifyAnswer writes no
  -- byte outside it, and the length of the JSON is within the range of an int.
  pub prepare_verify_answer-IsBounded :
      (left_b64 right_b64 : Bytes) (s : SrvToCl Double) (send_json : Bytes)
      → IsBounded left_b64 right_b64 s
      → length send_json ≡ 1024 * 1500
      → let (size, buf) =
          prepare_verify_answer Double double_to_string left_b64 right_b64 s send_json in
        (size ≤ length send_json)
        × (length buf ≡ length send_json)
        × (length (str_json Double double_to_string left_b64 right_b64 s) < 2 ^ 31)
  unfolding prepare_verify_answer
  prepare_verify_answer-IsBounded left_b64 right_b64 s send_json h has =
      let json = str_json Double double_to_string left_b64 right_b64 s in
      let fits = length-str_json left_b64 right_b64 s h in
      (
        omega (arith, fits, has),
        length-prepare_verify_answer left_b64 right_b64 s send_json (omega (arith, fits, has)),
        omega (arith, fits),
      )
