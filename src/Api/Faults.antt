-- ===== src/Api/Faults.antt =====
-- When an exception leaves HandleApiRequest of http_server/api/api_handler.h for a request with a token.
-- Nothing above the handler catches it, so it ends the server.
use da_gis_service.Common.{◌≡◌, ◌↔◌, ℕ, refl, true, none, arith, Bytes, Option-cases, inl, inr, ap}
use da_gis_service.Outcome.{Exception, invalid_token, raise}
use da_gis_service.Jwt.{JwtCpp, verify}
use da_gis_service.Json.{BoostJson}
use da_gis_service.Users.{UserData, token_exist}
use da_gis_service.Users.Access.{Session, Session-get_user_data, token_exist→Session}
use da_gis_service.Api.{Request, Server, Clock, Reply, handle_api_request}
use da_gis_service.Api.Handled.{
  HasToken, Handled, login, no_token, unknown, thrown, invalid, no_method, denied, served,
  handle_api_request-Handled, in_context,
}
use da_gis_service.Api.Authorized.{run_method-ok}

module _ (jwt : JwtCpp) where
  verify-raise_iff :
      (at : ℕ) (token : Bytes) (e : Exception)
      → (verify jwt at token ≡ raise e) ↔ ((e ≡ invalid_token) × (jwt.decode token ≡ none))
  unfolding verify
  verify-raise_iff at token e = elim (Option-cases (jwt.decode token)) [
    | inl bad ↦ ground (arith, bad)
    | inr (d, good) ↦ ground (arith, good)
  ]

module _ (jwt : JwtCpp) (js : BoostJson) (clock : Clock) (req : Request) (response : Bytes) where
  -- The token is part of a stored token, and no token itself.
  abbrev pub IsFragment : Server → Type 0
  IsFragment s =
      (jwt.decode req.authorization ≡ none)
      × ((user : UserData) × Session req.authorization s.users user)

  raise→IsFragment :
      (s : Server) (r : Reply) (e : Exception)
      → HasToken req
      → Handled jwt js clock req response s r
      → r.0 ≡ raise e
      → (e ≡ invalid_token) × IsFragment s
  raise→IsFragment s r e has (login l _) h = absurd (has.no_login l)
  raise→IsFragment s r e has (no_token _ _ q) h = absurd (ground arith)
  raise→IsFragment s r e has (unknown _ _ q) h = absurd (ground arith)
  raise→IsFragment s r e has (thrown _ known e' throws q) h =
      let same : e' ≡ e = ground arith in
      let (is_invalid, bad) = (verify-raise_iff jwt clock.at req.authorization e').0 throws in
      (rw (← same) is_invalid, (bad, (_, token_exist→Session req.authorization s.users known)))
  raise→IsFragment s r e has (invalid _ _ _ q) h = absurd (ground arith)
  raise→IsFragment s r e has (no_method _ _ _ _ q) h = absurd (ground arith)
  raise→IsFragment s r e has (denied _ _ _ _ q) h = absurd (ground arith)
  raise→IsFragment s r e has (served _ _ _ _ m _ q) h =
      absurd (ground (arith, run_method-ok js m response (in_context req s)))

  IsFragment→raise :
      (s : Server) (r : Reply)
      → HasToken req
      → Handled jwt js clock req response s r
      → IsFragment s
      → r ≡ (raise invalid_token, s)
  IsFragment→raise s r has handled (bad, (user, session)) = go handled
    where
      throws : verify jwt clock.at req.authorization ≡ raise invalid_token
      throws = (verify-raise_iff jwt clock.at req.authorization invalid_token).1 (refl, bad)

      known : token_exist req.authorization s.users ≡ true
      known = (Session-get_user_data req.authorization s.users user session).1

      go : Handled jwt js clock req response s r → r ≡ (raise invalid_token, s)
      go (login l _) = absurd (has.no_login l)
      go (no_token _ (inl e) _) = absurd (has.not_empty e)
      go (no_token _ (inr e) _) = absurd (has.not_undefined e)
      go (unknown _ strange _) = cc (strange, known)
      go (thrown _ _ e t q) = cc (t, throws, q)
      go (invalid _ _ v _) = cc (v, throws)
      go (no_method _ _ v _ _) = cc (v, throws)
      go (denied _ _ v _ _) = cc (v, throws)
      go (served _ _ v _ m _ _) = cc (v, throws)

  -- A request with a token makes the handler throw exactly when the token is part of a stored token
  -- and jwt-cpp cannot decode it. The exception is then that of the decoder, and nothing changes.
  pub handle_api_request-raise_iff :
      (s : Server)
      → HasToken req
      → (((e : Exception) × ((handle_api_request jwt js clock req response s).0 ≡ raise e))
          ↔ IsFragment s)
        × (IsFragment s → handle_api_request jwt js clock req response s ≡ (raise invalid_token, s))
  handle_api_request-raise_iff s has = (
    (
      λ (e, h). (raise→IsFragment s _ e has handled h).1,
      λ f. (invalid_token, ap (λ (r : Reply). r.0) (IsFragment→raise s _ has handled f)),
    ),
    IsFragment→raise s _ has handled,
  )
    where
      handled : Handled jwt js clock req response s (handle_api_request jwt js clock req response s)
      handled = handle_api_request-Handled jwt js clock req response s
