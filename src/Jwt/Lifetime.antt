-- ===== src/Jwt/Lifetime.antt =====
-- When a token that json_web_tokens.cpp issues is accepted.
use da_gis_service.Common.{ℕ, ◌+◌, ◌≤◌, ◌<◌, ◌≡◌, true, false, arith, Bytes}
use da_gis_service.Outcome.{ret}
use da_gis_service.Jwt.{JwtCpp, JwtLaws, secret_string, verify, create_token, claims}

module _ (jwt : JwtCpp) (laws : JwtLaws jwt) where
  -- A token issued at `issued`, with `now` the second reading of the clock, is valid from `issued` to less
  -- than a minute after `now`.
  pub verify-create_token :
      (issued now at : ℕ) (username : Bytes)
      → issued ≤ at
      → at < now + 60
      → verify jwt at (create_token jwt issued now username) ≡ ret true
  unfolding verify create_token
  verify-create_token issued now at username from until =
      let (d, decodes, accepts, _) = laws.decode-sign secret_string (claims issued now username) in
      ground (arith, decodes, accepts at from until)

  -- It is not valid any more when the minute is over.
  pub verify-expired :
      (issued now at : ℕ) (username : Bytes)
      → now + 60 < at
      → verify jwt at (create_token jwt issued now username) ≡ ret false
  unfolding verify create_token
  verify-expired issued now at username late =
      let (d, decodes, _, rejects) = laws.decode-sign secret_string (claims issued now username) in
      ground (arith, decodes, rejects at late)
