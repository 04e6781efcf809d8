-- ===== src/Api/Lifecycle.antt =====
-- A token from the login to the logout or its end, through HandleApiRequest of
-- http_server/api/api_handler.h.
use da_gis_service.Common.{
  ◌+◌, ◌≤◌, ◌<◌, ◌≡◌, ◌≢◌, ◌∙◌, c_str, refl, true, false, some, List, ◌∷◌, ◌++◌, arith, Bytes,
  bytes, eqb, sym, All, inl, inr,
}
use da_gis_service.Outcome.{ret}
use da_gis_service.Jwt.{JwtCpp, JwtLaws, create_token, verify}
use da_gis_service.Jwt.Lifetime.{verify-expired}
use da_gis_service.Json.{BoostJson, JsonLaws, EndIsTrue, lookup, token_of_json, json_to_struct}
use da_gis_service.Json.RoundTrip.{CredentialsIn}
use da_gis_service.Api.Login.{handle_api_request-LoginReply}
use da_gis_service.Api.Opened.{handle_api_request-Opened, LoginReply-Granted}
use da_gis_service.Users.{Credentials, UserData, disprove_user, token_exist}
use da_gis_service.Users.Login.{HasCredentials, first_unique}
use da_gis_service.Users.Logout.{occurrences}
use da_gis_service.Users.Parts.{all_parts, all_parts-disprove_user, token_exist-all_parts}
use da_gis_service.Users.Issued.{IsIssued}
use da_gis_service.Users.Access.{Listed, PartOfStored}
use da_gis_service.Api.{
  Request, ok, unauthorized, Server, with_users, Clock, RouteMethod, logout_user, route_methods,
  Reply, run_method, handle_api_request,
}
use da_gis_service.Api.Handled.{
  IsLogin, HasToken, Handled, login, no_token, unknown, thrown, invalid, no_method, denied, served,
  handle_api_request-Handled,
}
use da_gis_service.Api.Authorized.{reply_status}

module _ (jwt : JwtCpp) (laws : JwtLaws jwt) (js : BoostJson) (json_laws : JsonLaws js)
    (ends : EndIsTrue js) where
  -- A login with the credentials of a user, who is the first to have them, is answered by 200 and the JSON of
  -- a token. If the token was no part of a token stored before, it then opens each route of that user that
  -- has a method, from the first reading of the clock to less than a minute after the second, as long as the
  -- users are as the login left them.
  pub handle_api_request-Granted :
      (clock : Clock) (entry : Request) (response : Bytes) (s : Server)
      → IsLogin entry
      → (v : js.Value) → js.parse (c_str entry.body) ≡ some v
      → (creds : Credentials) → CredentialsIn js v creds
      → (earlier later : List UserData) (user : UserData) → s.users ≡ earlier ++ user ∷ later
      → HasCredentials creds.username creds.password user
      → All (λ u. ¬ HasCredentials creds.username creds.password u) earlier
      → All (λ u. ¬ PartOfStored (create_token jwt clock.issued clock.now creds.username) u) s.users
      → (clock' : Clock) (req : Request) (response' : Bytes) (s' : Server) (m : RouteMethod)
      → s'.users ≡ (handle_api_request jwt js clock entry response s).1.users
      → HasToken req
      → req.authorization ≡ create_token jwt clock.issued clock.now creds.username
      → Listed req.target user.routes
      → lookup req.target route_methods ≡ some m
      → clock.issued ≤ clock'.at
      → clock'.at < clock.now + 60
      → ((text : Bytes) × ((handle_api_request jwt js clock entry response s).0 ≡ ret (ok, text))
          × (json_to_struct js (token_of_json js) text
              ≡ ret (some (create_token jwt clock.issued clock.now creds.username))))
        × (reply_status (handle_api_request jwt js clock' req response' s') ≡ some ok)
  handle_api_request-Granted clock entry response s is_login v parsed creds c earlier later user
        stands owner first fresh clock' req response' s' m users has same allowed routed from
        until =
      let (answered, g) =
        LoginReply-Granted jwt js json_laws clock entry.body response s _
          (handle_api_request-LoginReply jwt js json_laws ends clock entry response s is_login) v
          parsed creds c earlier later user stands owner in
      let is_user : g.user ≡ user =
        first_unique (HasCredentials creds.username creds.password) g.earlier g.later earlier later
          g.user user (sym g.found ∙ stands) g.owner owner g.first first in
      (
        answered,
        handle_api_request-Opened jwt laws js clock.issued clock.now g fresh clock' req response' s'
            m users has same (rw is_user allowed) routed from until,
      )

route-logout : lookup (bytes "/api/logout") route_methods ≡ some logout_user
unfolding lookup eqb
route-logout = refl

module _ (jwt : JwtCpp) (js : BoostJson) (clock : Clock) (req : Request) (response : Bytes) where
  -- A served logout takes the token away.
  logout-users :
      (s : Server) (r : Reply)
      → HasToken req
      → req.target ≡ bytes "/api/logout"
      → Handled jwt js clock req response s r
      → reply_status r ≡ some ok
      → r.1.users ≡ disprove_user req.authorization s.users
  unfolding run_method
  logout-users s r has there (login l _) h = absurd (has.no_login l)
  logout-users s r has there (no_token _ _ q) h = absurd (ground arith)
  logout-users s r has there (unknown _ _ q) h = absurd (ground arith)
  logout-users s r has there (thrown _ _ _ _ q) h = absurd (ground arith)
  logout-users s r has there (invalid _ _ _ q) h = absurd (ground arith)
  logout-users s r has there (no_method _ _ _ _ q) h = absurd (ground arith)
  logout-users s r has there (denied _ _ _ _ q) h = absurd (ground arith)
  logout-users s r has there (served _ _ _ _ m routed q) h =
      let is_logout : m ≡ logout_user = ground (arith, route-logout, routed, there) in
      rw (q, is_logout) refl

  token_exist-unknown :
      (s : Server) (r : Reply)
      → HasToken req
      → token_exist req.authorization s.users ≡ false
      → Handled jwt js clock req response s r
      → r ≡ (ret (unauthorized, response), s)
  token_exist-unknown s r has gone (login l _) = absurd (has.no_login l)
  token_exist-unknown s r has gone (no_token _ (inl e) _) = absurd (has.not_empty e)
  token_exist-unknown s r has gone (no_token _ (inr e) _) = absurd (has.not_undefined e)
  token_exist-unknown s r has gone (unknown _ _ q) = q
  token_exist-unknown s r has gone (thrown _ known _ _ _) = cc
  token_exist-unknown s r has gone (invalid _ known _ _) = cc
  token_exist-unknown s r has gone (no_method _ known _ _ _) = cc
  token_exist-unknown s r has gone (denied _ known _ _ _) = cc
  token_exist-unknown s r has gone (served _ known _ _ _ _ _) = cc

module _ (jwt : JwtCpp) (js : BoostJson) where
  -- After a logout with a token that is stored once, and is part of no other stored token, each
  -- request with this token is refused with 401 and changes nothing.
  pub handle_api_request-logout :
      (clock : Clock) (req : Request) (response : Bytes) (s : Server)
      → HasToken req
      → req.target ≡ bytes "/api/logout"
      → reply_status (handle_api_request jwt js clock req response s) ≡ some ok
      → occurrences req.authorization s.users ≢ 0
      → all_parts req.authorization s.users ≡ 1
      → (clock' : Clock) (req' : Request) (response' : Bytes) (s' : Server)
      → s' ≡ (handle_api_request jwt js clock req response s).1
      → HasToken req'
      → req'.authorization ≡ req.authorization
      → handle_api_request jwt js clock' req' response' s' ≡ (ret (unauthorized, response'), s')
  handle_api_request-logout clock req response s has there accepted stored once clock' req'
        response' s' after has' same =
      token_exist-unknown jwt js clock' req' response' s' _ has' gone
        (handle_api_request-Handled jwt js clock' req' response' s')
    where
      users :
          (handle_api_request jwt js clock req response s).1.users
          ≡ disprove_user req.authorization s.users
      users =
          logout-users jwt js clock req response s _ has there
            (handle_api_request-Handled jwt js clock req response s) accepted

      none_left : all_parts req.authorization (disprove_user req.authorization s.users) ≡ 0
      none_left = omega (arith, all_parts-disprove_user req.authorization s.users stored)

      gone : token_exist req'.authorization s'.users ≡ false
      gone = rw (same, after, users) (token_exist-all_parts req.authorization _ none_left)

  -- The same token is refused when its minute is over, and then taken away from its user.
  pub handle_api_request-expired :
      (laws : JwtLaws jwt) (clock : Clock) (req : Request) (response : Bytes) (s : Server)
      (username : Bytes)
      → HasToken req
      → (i : IsIssued jwt username req.authorization) → token_exist req.authorization s.users ≡ true
      → i.now + 60 < clock.at
      → handle_api_request jwt js clock req response s
        ≡ (ret (unauthorized, response), with_users s (disprove_user req.authorization s.users))
  handle_api_request-expired laws clock req response s username has i known late =
      go _ (handle_api_request-Handled jwt js clock req response s)
    where
      stale : verify jwt clock.at req.authorization ≡ ret false
      stale = rw i.made (verify-expired jwt laws i.issued i.now clock.at username late)

      go :
          (r : Reply)
          → Handled jwt js clock req response s r
          → r
            ≡ (ret (unauthorized, response), with_users s (disprove_user req.authorization s.users))
      go r (login l _) = absurd (has.no_login l)
      go r (no_token _ (inl e) _) = absurd (has.not_empty e)
      go r (no_token _ (inr e) _) = absurd (has.not_undefined e)
      go r (unknown _ strange _) = cc (strange, known)
      go r (thrown _ _ e t _) = cc (t, stale)
      go r (invalid _ _ _ q) = q
      go r (no_method _ _ v _ _) = cc (v, stale)
      go r (denied _ _ v _ _) = cc (v, stale)
      go r (served _ _ v _ m _ _) = cc (v, stale)
