-- ===== src/Verify/Framed.antt =====
-- prepareVerifyAnswer of main.cpp: what a client gets out of the bytes that are sent.
use da_gis_service.Common.{
  suc, ◌+◌, ◌*◌, ◌/◌, ◌%◌, ◌^◌, ◌≤◌, ◌<◌, ◌≡◌, refl, ap, Option, none, some, [], ◌∷◌, ◌++◌, arith,
  Bytes, length, take, drop,
}
use da_gis_service.Verify.{SrvToCl, int_bytes, store, str_json, prepare_verify_answer}

take-append : (s t : Bytes) → take (length s) (s ++ t) ≡ s
take-append [] t = refl
take-append (c ∷ s) t = ap (λ r. c ∷ r) (take-append s t)

drop-append : (s t : Bytes) → drop (length s) (s ++ t) ≡ t
drop-append [] t = refl
drop-append (c ∷ s) t = drop-append s t

-- A client: the length from the first four bytes, then so many bytes, and what follows.
abbrev pub read_message : Bytes → Option (Bytes × Bytes)
read_message (a ∷ b ∷ c ∷ d ∷ rest) =
    let size = a + b * 256 + c * 65536 + d * 16777216 in some (take size rest, drop size rest)
read_message _ = none

read_message-int_bytes :
    (json rest : Bytes)
    → length json < 2 ^ 32
    → read_message (int_bytes (length json) ++ (json ++ rest)) ≡ some (json, rest)
read_message-int_bytes json rest h =
    let n = length json in
    let size : n % 256
          + n / 256 % 256 * 256
          + n / 65536 % 256 * 65536
          + n / 16777216 % 256 * 16777216
        ≡ n =
      omega (arith, h) in
    rw (size, take-append json rest, drop-append json rest) refl

-- The bytes that hold the message, once it has been stored.
sent_bytes :
    (json buf : Bytes)
    → take (length json + 4) (store 4 json (store 0 (int_bytes (length json)) buf))
      ≡ int_bytes (length json) ++ json
unfolding store
sent_bytes json buf =
    let steps : length json + 4 ≡ suc (suc (suc (suc (length json)))) = omega arith in
    rw (steps, take-append json _) refl

module _ (Double : Type 0) (double_to_string : Double → Bytes) where
  -- Of the bytes that prepareVerifyAnswer announces, the first four are the length of the JSON and the others
  -- are the JSON: a client that reads a length and then so many bytes gets it, whatever it is sent after
  -- that. The JSON and its length are taken to fit into send_json, which has 1500 KiB.
  pub prepare_verify_answer-read_message :
      (left_b64 right_b64 : Bytes) (s : SrvToCl Double) (send_json rest : Bytes)
      → length send_json ≡ 1024 * 1500
      → length (str_json Double double_to_string left_b64 right_b64 s) + 4 ≤ 1024 * 1500
      → let (size, buf) =
          prepare_verify_answer Double double_to_string left_b64 right_b64 s send_json in
        read_message (take size buf ++ rest)
        ≡ some (str_json Double double_to_string left_b64 right_b64 s, rest)
  unfolding prepare_verify_answer
  prepare_verify_answer-read_message left_b64 right_b64 s send_json rest size h =
      let json = str_json Double double_to_string left_b64 right_b64 s in
      let whole : (length json + 4) % 2 ^ 32 ≡ length json + 4 = omega (arith, h) in
      rw (whole, sent_bytes json send_json) (read_message-int_bytes json rest (omega (arith, h)))
