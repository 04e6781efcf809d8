-- ===== src/Api/Authorized.antt =====
-- Who is served by HandleApiRequest of http_server/api/api_handler.h.
use da_gis_service.Common.{◌≡◌, ◌↔◌, inl, inr, refl, true, Option, none, some, arith, Bytes}
use da_gis_service.Outcome.{ret, raise}
use da_gis_service.Jwt.{JwtCpp, verify}
use da_gis_service.Json.{BoostJson, lookup}
use da_gis_service.Users.{UserData, token_exist, check_access}
use da_gis_service.Users.Access.{Listed, Session, Session-get_user_data, check_access_iff}
use da_gis_service.Api.{
  Request, Status, ok, Server, Clock, RouteMethod, logout_user, secret_test, info_user,
  route_methods, Reply, run_method, status_of, handle_api_request,
}
use da_gis_service.Api.Handled.{
  HasToken, Handled, login, no_token, unknown, thrown, invalid, no_method, denied, served,
  handle_api_request-Handled,
}

-- The status of a reply; `none`: an exception left the handler.
abbrev pub reply_status : Reply → Option Status
reply_status (ret (status, _), _) = some status
reply_status (raise _, _) = none

pub run_method-ok :
    (js : BoostJson) (m : RouteMethod) (response : Bytes) (s : Server)
    → reply_status (status_of js (run_method js m response s)) ≡ some ok
unfolding run_method
run_method-ok js logout_user response s = refl
run_method-ok js secret_test response s = refl
run_method-ok js info_user response s = refl

module _ (jwt : JwtCpp) (js : BoostJson) (clock : Clock) (req : Request) (response : Bytes) where
  -- The token verifies now, it is part of a stored token, the first user with such a token may call
  -- the route, and the route has a method.
  pub record IsAuthorized (s : Server) : Type 0 where
    pub valid : verify jwt clock.at req.authorization ≡ ret true
    pub user : UserData
    pub session : Session req.authorization s.users user
    pub allowed : Listed req.target user.routes
    pub method : RouteMethod
    pub routed : lookup req.target route_methods ≡ some method

  ok→IsAuthorized :
      (s : Server) (r : Reply)
      → HasToken req
      → Handled jwt js clock req response s r
      → reply_status r ≡ some ok
      → IsAuthorized s
  ok→IsAuthorized s r has (login l _) h = absurd (has.no_login l)
  ok→IsAuthorized s r has (no_token _ _ e) h = absurd (ground arith)
  ok→IsAuthorized s r has (unknown _ _ e) h = absurd (ground arith)
  ok→IsAuthorized s r has (thrown _ _ _ _ e) h = absurd (ground arith)
  ok→IsAuthorized s r has (invalid _ _ _ e) h = absurd (ground arith)
  ok→IsAuthorized s r has (no_method _ _ _ _ e) h = absurd (ground arith)
  ok→IsAuthorized s r has (denied _ _ _ _ e) h = absurd (ground arith)
  ok→IsAuthorized s r has (served _ _ valid granted m routed _) h =
      let (user, session, allowed) = (check_access_iff _ _ s.users).0 granted in
      record {
        valid = valid;
        user = user;
        session = session;
        allowed = allowed;
        method = m;
        routed = routed;
      }

  IsAuthorized→ok :
      (s : Server) (r : Reply)
      → HasToken req
      → Handled jwt js clock req response s r
      → IsAuthorized s
      → reply_status r ≡ some ok
  IsAuthorized→ok s r has handled a = go handled
    where
      granted : check_access req.authorization req.target s.users ≡ true
      granted = (check_access_iff _ _ s.users).1 (a.user, a.session, a.allowed)

      known : token_exist req.authorization s.users ≡ true
      known = (Session-get_user_data _ s.users a.user a.session).1

      valid : verify jwt clock.at req.authorization ≡ ret true
      valid = a.valid

      routed : lookup req.target route_methods ≡ some a.method
      routed = a.routed

      go : Handled jwt js clock req response s r → reply_status r ≡ some ok
      go (login l _) = absurd (has.no_login l)
      go (no_token _ (inl e) _) = absurd (has.not_empty e)
      go (no_token _ (inr e) _) = absurd (has.not_undefined e)
      go (unknown _ strange _) = cc (strange, known)
      go (thrown _ _ e t _) = cc (t, valid)
      go (invalid _ _ v _) = cc (v, valid)
      go (no_method _ _ _ missing _) = cc (missing, routed)
      go (denied _ _ _ refused _) = cc (refused, granted)
      go (served _ _ _ _ m _ e) = rw e (run_method-ok js m response _)

  -- A request with a token is answered with 200 exactly when it is authorised.
  pub handle_api_request-ok_iff :
      (s : Server)
      → HasToken req
      → (reply_status (handle_api_request jwt js clock req response s) ≡ some ok) ↔ IsAuthorized s
  handle_api_request-ok_iff s has =
      let handled = handle_api_request-Handled jwt js clock req response s in
      (ok→IsAuthorized s _ has handled, IsAuthorized→ok s _ has handled)
