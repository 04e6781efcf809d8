-- ===== src/Jwt.antt =====
-- http_server/jwt/json_web_tokens.cpp: the tokens of the HTTP server, over the library jwt-cpp.
pub mod Lifetime
use da_gis_service.Common.{
  ℕ, ◌+◌, ◌≤◌, ◌<◌, ◌≡◌, Bool, true, false, not, Option, none, some, Bytes, bytes,
}
use da_gis_service.Outcome.{Outcome, ret, raise, invalid_token}

-- What the builder of jwt-cpp is given.
pub record Claims : Type 0 where
  pub issuer : Bytes
  pub typ : Bytes
  pub issued_at : ℕ
  pub expires_at : ℕ
  pub username : Bytes

-- jwt-cpp as the program calls it. Times are whole seconds of the system clock, rounded down.
pub record JwtCpp : Type 1 where
  pub Decoded : Type 0
  -- `jwt::create()…sign(hs256{secret})`
  pub sign : (secret : Bytes) → Claims → Bytes
  -- `jwt::decode(token)`; `none`: it throws
  pub decode : Bytes → Option Decoded
  -- whether `verifier.verify(decoded, ec)` sets `ec`
  pub rejects : (secret issuer : Bytes) (now : ℕ) → Decoded → Bool

-- The documented behaviour that the program relies on: a signed token decodes, and a verifier with
-- the token's secret and issuer objects to nothing but the clock. The clock is finer than a second: in the
-- second that a token expires in, the verifier may object or not.
pub record JwtLaws (jwt : JwtCpp) : Type 0 where
  pub decode-sign :
      (secret : Bytes) (c : Claims)
      → (d : jwt.Decoded) × (jwt.decode (jwt.sign secret c) ≡ some d)
        × ((now : ℕ)
            → c.issued_at ≤ now
            → now < c.expires_at
            → jwt.rejects secret c.issuer now d ≡ false)
        × ((now : ℕ) → c.expires_at < now → jwt.rejects secret c.issuer now d ≡ true)

-- SECRET_STRING and ISSUER
abbrev pub secret_string : Bytes
secret_string = bytes "secret_string"

abbrev pub issuer : Bytes
issuer = bytes "BLABBER"

-- The claims of a token; it expires a minute after the second reading of the clock.
abbrev pub claims : (issued now : ℕ) → Bytes → Claims
claims issued now username = record {
  issuer = issuer;
  typ = bytes "JWT";
  issued_at = issued;
  expires_at = now + 60;
  username = username;
}

module _ (jwt : JwtCpp) where
  open jwt use {sign, decode, rejects}

  -- Verify. The log line is left out.
  unfoldable pub verify : (now : ℕ) → Bytes → Outcome Bool
  verify now token = elim (decode token) [
    | none ↦ raise invalid_token
    | some decoded ↦ ret (not (rejects secret_string issuer now decoded))
  ]

  -- CreateToken. It reads the clock twice.
  unfoldable pub create_token : (issued now : ℕ) → Bytes → Bytes
  create_token issued now username = sign secret_string (claims issued now username)
