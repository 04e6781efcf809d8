-- ===== src/Samples.antt =====
-- Small stand-ins for jwt-cpp and boost::json, for evaluation only: they show that the behaviour asked
-- of the two libraries can be had.
use da_gis_service.Common.{
  ℕ, zero, suc, ◌-◌, ◌≡◌, refl, ap, true, ◌||◌, Option, none, some, List, [], ◌∷◌, ◌++◌, map, arith,
  Bytes, bytes, c_str, length, ltb, ◌∙◌, if◌then◌else◌,
}
use da_gis_service.Jwt.{Claims, JwtCpp, JwtLaws}
use da_gis_service.Json.{BoostJson, JsonLaws, EndIsTrue, lookup}

-- A token is its two times and the user name.
abbrev sample_sign : Bytes → Claims → Bytes
sample_sign secret c = c.issued_at ∷ c.expires_at ∷ c.username

abbrev sample_decode : Bytes → Option (ℕ × ℕ)
sample_decode [] = none
sample_decode (a ∷ []) = none
sample_decode (a ∷ b ∷ _) = some (a, b)

abbrev pub sample_jwt : JwtCpp
sample_jwt = record {
  Decoded = ℕ × ℕ;
  sign = sample_sign;
  decode = sample_decode;
  rejects = λ secret issuer now d. ltb now d.0 || ltb d.1 now;
}

pub sample_jwt_laws : JwtLaws sample_jwt
sample_jwt_laws = record {
  decode-sign = λ secret c. (
    (c.issued_at, c.expires_at),
    refl,
    λ now from until. ground (arith, from, until),
    λ now late. ground (arith, late),
  );
}

-- A list of byte strings as one byte string: bytes move up by one, and 0 ends each string.
abbrev join : List Bytes → Bytes
join [] = []
join (s ∷ ss) = map suc s ++ 0 ∷ join ss

abbrev push : ℕ → List Bytes → List Bytes
push c [] = (c ∷ []) ∷ []
push c (s ∷ ss) = (c ∷ s) ∷ ss

abbrev split : Bytes → List Bytes
split [] = []
split (zero ∷ s) = [] ∷ split s
split (suc c ∷ s) = push c (split s)

split-map :
    (s rest : Bytes) (ss : List Bytes) → split rest ≡ ss → split (map suc s ++ 0 ∷ rest) ≡ s ∷ ss
split-map [] rest ss e = ap (λ t. [] ∷ t) e
split-map (c ∷ s) rest ss e = ap (push c) (split-map s rest ss e)

split-join : (ss : List Bytes) → split (join ss) ≡ ss
split-join [] = refl
split-join (s ∷ ss) = split-map s (join ss) ss (split-join ss)

abbrev of_pairs : List (Bytes × Bytes) → List Bytes
of_pairs [] = []
of_pairs ((k, v) ∷ pairs) = k ∷ v ∷ of_pairs pairs

abbrev to_pairs : List Bytes → List (Bytes × Bytes)
to_pairs [] = []
to_pairs (k ∷ []) = []
to_pairs (k ∷ v ∷ ss) = (k, v) ∷ to_pairs ss

to_pairs-of_pairs : (pairs : List (Bytes × Bytes)) → to_pairs (of_pairs pairs) ≡ pairs
to_pairs-of_pairs [] = refl
to_pairs-of_pairs ((k, v) ∷ pairs) = ap (λ t. (k, v) ∷ t) (to_pairs-of_pairs pairs)

-- A value is a byte string whose first byte is its kind: 0 text, 1 true, 2 false, 3 object.
abbrev sample_object : Bytes → Option (List (Bytes × Bytes))
sample_object (suc (suc (suc zero)) ∷ s) = some (to_pairs (split s))
sample_object _ = none

abbrev sample_string : Bytes → Option Bytes
sample_string (zero ∷ s) = some s
sample_string _ = none

-- The text of a value starts with a byte of its own; any other text is no JSON.
abbrev sample_parse : Bytes → Option Bytes
sample_parse (suc zero ∷ s) = some (map (λ n. n - 1) s)
sample_parse _ = none

abbrev sample_serialize : Bytes → Bytes
sample_serialize v = 1 ∷ map suc v

abbrev pub sample_json : BoostJson
sample_json = record {
  Value = Bytes;
  JsonObject = List (Bytes × Bytes);
  parse = sample_parse;
  serialize = sample_serialize;
  as_object = sample_object;
  as_string = sample_string;
  at = λ obj key. lookup key obj;
  find_bool = λ obj key. true;
  object = λ pairs. 3 ∷ join (of_pairs pairs);
  string = λ s. 0 ∷ s;
  bool = λ b. if b then 1 ∷ [] else 2 ∷ [];
}

map-pred-suc : (v : Bytes) → map (λ n. n - 1) (map suc v) ≡ v
map-pred-suc [] = refl
map-pred-suc (c ∷ v) = ground (arith, map-pred-suc v)

c_str-map : (v : Bytes) → c_str (map suc v) ≡ map suc v
unfolding c_str
c_str-map [] = refl
c_str-map (c ∷ v) = ground (arith, c_str-map v)

c_str-sample_serialize : (v : Bytes) → c_str (sample_serialize v) ≡ sample_serialize v
unfolding c_str
c_str-sample_serialize v = ap (λ t. 1 ∷ t) (c_str-map v)

pub sample_json_laws : JsonLaws sample_json
sample_json_laws = record {
  parse-serialize = λ v. ap some (map-pred-suc v);
  c_str-serialize = c_str-sample_serialize;
  as_string-string = λ s. refl;
  as_object-object = λ pairs. (
    pairs,
    ap some (ap to_pairs (split-join (of_pairs pairs)) ∙ to_pairs-of_pairs pairs),
    λ key. refl,
  );
  find_bool-at = λ obj key v found. refl;
}

pub sample_ends : EndIsTrue sample_json
sample_ends = record { find_bool-end = λ obj key missing. refl }

-- The JSON of an object with a user name and a password.
abbrev pub credentials_value : Bytes → Bytes → Bytes
credentials_value username password =
    3 ∷ join (bytes "username" ∷ (0 ∷ username) ∷ bytes "password" ∷ (0 ∷ password) ∷ [])

abbrev pub sample_credentials : Bytes → Bytes → Bytes
sample_credentials username password = sample_serialize (credentials_value username password)

-- An array of `n` zeros.
pub zeros : ℕ → Bytes
zeros zero = []
zeros (suc n) = 0 ∷ zeros n

pub length-zeros : (n : ℕ) → length (zeros n) ≡ n
unfolding zeros
length-zeros zero = refl
length-zeros (suc n) = omega (arith, length-zeros n)
