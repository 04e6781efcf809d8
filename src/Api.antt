-- ===== src/Api.antt =====
-- http_server/api/api_handler.{h,cpp}: the API of the HTTP server. `Server` is the state of the two
-- singletons, CUsersData and CAPIHandler; HandleApiRequest holds the mutex of CAPIHandler, so one
-- request is one step. The clock is read up to three times in a request.
pub mod Handled
pub mod Login
pub mod Opened
pub mod Authorized
pub mod Faults
pub mod Lifecycle
pub mod Reach
pub mod Replies
mod Tests
use da_gis_service.Common.{
  ℕ, ◌≡◌, Bool, true, false, ◌&&◌, ◌||◌, Option, none, some, List, [], ◌∷◌, ◌++◌, Bytes, bytes, eqb,
  if◌then◌else◌,
}
use da_gis_service.Outcome.{Outcome, ret, raise, out_of_range}
use da_gis_service.Jwt.{JwtCpp}
use da_gis_service.Json.{
  BoostJson, JsUserInfo, lookup, credentials_of_json, json_of_token, json_of_user_info,
  json_to_struct, struct_to_json,
}
use da_gis_service.Users.{
  Credentials, UserData, initial_users, authenticate_credentials, disprove_user, get_user_data,
  check_access, verify_token,
}

-- http::verb; `other` stands for the verbs that the program never names.
pub data Verb : Type 0 where
  get head post options other : Verb

abbrev pub is_post : Verb → Bool
is_post post = true
is_post _ = false

-- The parts of an http::request that are read. A field that is absent reads as "".
pub record Request : Type 0 where
  pub method : Verb
  pub target : Bytes
  pub version : ℕ
  pub keep_alive : Bool
  pub authorization : Bytes
  pub control_request_headers : Bytes
  pub control_request_method : Bytes
  pub body : Bytes

-- The values of http::status that the program sends.
pub data Status : Type 0 where
  ok created bad_request unauthorized forbidden not_found internal_server_error : Status

pub record RequestContext : Type 0 where
  pub route : Bytes
  pub token : Bytes
  pub body : Bytes

pub record Server : Type 0 where
  pub users : List UserData
  pub context : RequestContext

-- The constructors of the two singletons.
abbrev pub initial_server : Server
initial_server = record {
  users = initial_users;
  context = record { route = []; token = []; body = [] };
}

abbrev pub with_users : Server → List UserData → Server
with_users s users = record s { users = users }

-- Readings of the system clock: two in CreateToken, one in Verify.
pub record Clock : Type 0 where
  pub issued : ℕ
  pub now : ℕ
  pub at : ℕ

-- The functions in `route_methods_`.
pub data RouteMethod : Type 0 where
  logout_user secret_test info_user : RouteMethod

-- `route_methods_`, filled by the constructor CAPIHandler() and never changed.
abbrev pub route_methods : List (Bytes × RouteMethod)
route_methods =
    (bytes "/api/logout", logout_user)
    ∷ (bytes "/api/secret", secret_test)
    ∷ (bytes "/api/info", info_user)
    ∷ []

-- A status and the response body.
abbrev pub Reply : Type 0
Reply = Outcome (Status × Bytes) × Server

abbrev pub login_path : Bytes
login_path = bytes "/api/login"

module _ (js : BoostJson) where
  -- LogoutUser, SecretTest and InfoUser: what they return, the response and the state after.
  unfoldable pub run_method : RouteMethod → Bytes → Server → (Bool × Bytes) × Server
  run_method logout_user response s =
      ((true, response), with_users s (disprove_user s.context.token s.users))
  run_method secret_test response s = ((true, bytes "secret method called"), s)
  run_method info_user response s =
      let user = get_user_data s.context.token s.users in
      let info : JsUserInfo = record {
        is_admin = user.is_admin;
        is_user = user.is_user;
        first_login = user.first_login;
        name = user.name;
        position = user.position;
      } in
      ((true, struct_to_json js (json_of_user_info js) info), s)

  abbrev pub status_of : (Bool × Bytes) × Server → Reply
  status_of ((true, response), s) = (ret (ok, response), s)
  status_of ((false, response), s) = (ret (internal_server_error, response), s)

  -- ExecuteRouteMethod and the status that HandleApiRequest makes of it; `at` may throw.
  unfoldable pub execute_route_method : Bytes → Server → Reply
  execute_route_method response s = elim (lookup s.context.route route_methods) [
    | none ↦ (raise out_of_range, s)
    | some m ↦ status_of (run_method m response s)
  ]

  -- HandleApiRequest, from "is method exists" on.
  unfoldable pub call_route : Request → Bytes → Server → Reply
  call_route req response s = elim (lookup req.target route_methods) [
    | none ↦ (ret (bad_request, bytes "Method not found: " ++ req.target), s)
    | some _ ↦
        if check_access req.authorization req.target s.users
        then execute_route_method response (record s {
          context = record { route = req.target; token = req.authorization; body = req.body };
        })
        else (ret (forbidden, response), s)
  ]

  -- HandleApiRequest, from the result of VerifyToken on.
  abbrev pub after_verify : Request → Bytes → Server → Outcome Bool × List UserData → Reply
  after_verify req response s (raise e, users) = (raise e, with_users s users)
  after_verify req response s (ret false, users) =
      (ret (unauthorized, response), with_users s users)
  after_verify req response s (ret true, users) = call_route req response (with_users s users)

  -- The end of LoginUser, from the result of AuthenticateUser on.
  abbrev pub after_login : Bytes → Server → Option Bytes × List UserData → Reply
  after_login response s (none, users) = (ret (unauthorized, response), with_users s users)
  after_login response s (some token, users) =
      (ret (ok, struct_to_json js (json_of_token js) token), with_users s users)

module _ (jwt : JwtCpp) (js : BoostJson) where
  -- LoginUser, from the result of JsonToStruct on.
  abbrev pub login_with : Clock → Bytes → Server → Outcome (Option Credentials) → Reply
  login_with clock response s (raise e) = (raise e, s)
  login_with clock response s (ret none) = (ret (bad_request, bytes "Invalid json"), s)
  login_with clock response s (ret (some creds)) =
      after_login js response s (authenticate_credentials jwt clock.issued clock.now creds s.users)

  -- LoginUser
  unfoldable pub login_user : Clock → Bytes → Bytes → Server → Reply
  login_user clock body response s =
      login_with clock response s (json_to_struct js (credentials_of_json js) body)

  -- HandleApiRequest
  unfoldable pub handle_api_request : Clock → Request → Bytes → Server → Reply
  handle_api_request clock req response s =
      if is_post req.method && eqb req.target login_path
      then login_user clock req.body response s
      else if eqb req.authorization [] || eqb req.authorization (bytes "undefined")
      then (ret (unauthorized, response), s)
      else after_verify js req response s (verify_token jwt clock.at req.authorization s.users)
