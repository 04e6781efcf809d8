-- ===== src/Api/Tests.antt =====
-- Runs of the API of http_server/api, and the theorems about it at concrete requests.
use da_gis_service.Common.{
  ℕ, ◌≡◌, ◌↔◌, ◌∙◌, sym, refl, true, some, [], ◌∷◌, arith, Bytes, bytes, eqb, contains, is_prefix,
  c_str, any,
}
use da_gis_service.Outcome.{Exception, ret, raise, invalid_token}
use da_gis_service.Jwt.{verify, create_token}
use da_gis_service.Json.{
  lookup, string_at, object_of, token_of_json, json_of_token, credentials_at, credentials_of_json,
  json_of_user_info, json_to_struct, struct_to_json,
}
use da_gis_service.Users.{
  UserData, with_tokens, erase_token, disprove_user, holds_token, get_user_data, token_exist,
  check_access, authenticate_user, authenticate_credentials, verify_token, initial_users, admin,
  gosha,
}
use da_gis_service.Api.{
  Verb, get, post, Request, ok, bad_request, unauthorized, Server, with_users, initial_server,
  Clock, Reply, secret_test, login_path, run_method, execute_route_method, call_route, login_user,
  handle_api_request,
}
use da_gis_service.Api.Handled.{HasToken, IsLogin}
use da_gis_service.Api.Authorized.{reply_status, IsAuthorized, handle_api_request-ok_iff}
use da_gis_service.Api.Login.{LoginReply, handle_api_request-LoginReply}
use da_gis_service.Api.Reach.{Reach, start, next, IsSafe, Reach-IsSafe}
use da_gis_service.Api.Faults.{IsFragment, handle_api_request-raise_iff}
use da_gis_service.Api.Lifecycle.{handle_api_request-Granted, handle_api_request-logout}
use da_gis_service.Json.RoundTrip.{CredentialsIn}
use da_gis_service.Users.Logout.{occurrences, count_token}
use da_gis_service.Users.Parts.{parts, all_parts}
use da_gis_service.Users.Access.{PartOfStored, cons-not-nil}
use da_gis_service.Samples.{
  sample_jwt, sample_jwt_laws, sample_json, sample_json_laws, sample_ends, sample_credentials,
  credentials_value,
}

-- Opens the code for the runs below.
code : Unit {0}
unfolding handle_api_request login_user call_route execute_route_method run_method verify_token
    authenticate_credentials authenticate_user check_access token_exist get_user_data holds_token
    disprove_user erase_token json_to_struct struct_to_json credentials_of_json credentials_at
    token_of_json json_of_token json_of_user_info object_of string_at lookup verify create_token eqb
    contains is_prefix c_str any
code = tt

abbrev ask : Verb → Bytes → Bytes → Bytes → Request
ask method target authorization body = record {
  method = method;
  target = target;
  version = 11;
  keep_alive = true;
  authorization = authorization;
  control_request_headers = [];
  control_request_method = [];
  body = body;
}

abbrev clock_at : ℕ → Clock
clock_at t = record { issued = t; now = t; at = t }

abbrev handle : ℕ → Request → Server → Reply
handle t req s = handle_api_request sample_jwt sample_json (clock_at t) req [] s

abbrev login_request : Request
login_request = ask post login_path [] (sample_credentials (bytes "admin") (bytes "123"))

-- The token that a login of admin at 1000 gives.
abbrev admin_token : Bytes
admin_token = 1000 ∷ 1060 ∷ bytes "admin"

abbrev logged_in : Server
logged_in = with_users initial_server (with_tokens admin (admin_token ∷ []) ∷ gosha ∷ [])

login_run :
    ((handle 1000 login_request initial_server).1 ≡ logged_in)
    × ((handle 1000
          (ask post login_path [] (sample_credentials (bytes "admin") (bytes "124")))
          initial_server)
        ≡ (ret (unauthorized, []), initial_server))
    × ((handle 1000 (ask post login_path [] []) initial_server)
        ≡ (ret (bad_request, bytes "Invalid json"), initial_server))
    × ((handle 1000 (ask get login_path [] []) initial_server)
        ≡ (ret (unauthorized, []), initial_server))
unfolding code
login_run = (refl, refl, refl, refl)

abbrev secret_request : Request
secret_request = ask get (bytes "/api/secret") admin_token []

abbrev logout_request : Request
logout_request = ask post (bytes "/api/logout") admin_token []

session_run :
    ((handle 1030 secret_request logged_in).0 ≡ ret (ok, bytes "secret method called"))
    × ((handle 1061 secret_request logged_in) ≡ (ret (unauthorized, []), initial_server))
    × ((handle 1030 logout_request logged_in).1.users ≡ initial_users)
    × ((handle 1030 (ask get (bytes "/api/settings") admin_token []) logged_in).0
        ≡ ret (bad_request, bytes "Method not found: /api/settings"))
unfolding code
session_run = (refl, refl, refl, refl)

-- One letter of a stored token: no session, and an exception of the decoder.
fragment_run :
    (handle 1030 (ask get (bytes "/api/info") (bytes "d") []) logged_in)
    ≡ (raise invalid_token, logged_in)
unfolding code
fragment_run = refl

secret_HasToken : HasToken secret_request
secret_HasToken = record { no_login = λ l. cc (l.0); not_empty = λ e. cc; not_undefined = λ e. cc }

logout_HasToken : HasToken logout_request
logout_HasToken = record { no_login = λ l. cc (l.1); not_empty = λ e. cc; not_undefined = λ e. cc }

request_IsLogin : IsLogin login_request
request_IsLogin = (refl, refl)

initial-Reach : Reach sample_jwt sample_json initial_server
initial-Reach = start

admin_reply : (b : Bytes) × (handle 1000 login_request initial_server ≡ (ret (ok, b), logged_in))
unfolding code
admin_reply = (_, refl)

state-Reach : Reach sample_jwt sample_json logged_in
state-Reach = next start (clock_at 1000) login_request [] admin_reply.1

handle_api_request-ok_iff_example :
    (reply_status (handle 1030 secret_request logged_in) ≡ some ok)
    ↔ IsAuthorized sample_jwt sample_json (clock_at 1030) secret_request [] logged_in
handle_api_request-ok_iff_example =
    handle_api_request-ok_iff sample_jwt sample_json (clock_at 1030) secret_request [] logged_in
      secret_HasToken

handle_api_request-LoginReply_example :
    LoginReply sample_jwt sample_json
      (clock_at 1000)
      (sample_credentials (bytes "admin") (bytes "123"))
      []
      initial_server
      (handle 1000 login_request initial_server)
handle_api_request-LoginReply_example =
    handle_api_request-LoginReply sample_jwt sample_json sample_json_laws sample_ends
      (clock_at 1000) login_request [] initial_server request_IsLogin

Reach-IsSafe_example : IsSafe sample_jwt sample_json logged_in
Reach-IsSafe_example = Reach-IsSafe sample_jwt sample_json state-Reach

abbrev fragment_request : Request
fragment_request = ask get (bytes "/api/info") (bytes "d") []

fragment_HasToken : HasToken fragment_request
fragment_HasToken = record {
  no_login = λ l. cc (l.0);
  not_empty = λ e. cc;
  not_undefined = λ e. cc;
}

handle_api_request-raise_iff_example :
    (((e : Exception) × ((handle 1030 fragment_request logged_in).0 ≡ raise e))
      ↔ IsFragment sample_jwt sample_json (clock_at 1030) fragment_request [] logged_in)
    × (IsFragment sample_jwt sample_json (clock_at 1030) fragment_request [] logged_in
        → handle 1030 fragment_request logged_in ≡ (raise invalid_token, logged_in))
handle_api_request-raise_iff_example =
    handle_api_request-raise_iff sample_jwt sample_json (clock_at 1030) fragment_request []
      logged_in fragment_HasToken

abbrev logged_out : Server
logged_out = (handle 1030 logout_request logged_in).1

handle_api_request-logout_example :
    handle 1031 secret_request logged_out ≡ (ret (unauthorized, []), logged_out)
unfolding code occurrences count_token all_parts parts
handle_api_request-logout_example =
    handle_api_request-logout sample_jwt sample_json (clock_at 1030) logout_request [] logged_in
      logout_HasToken refl refl (omega arith) refl (clock_at 1031) secret_request [] logged_out refl
      secret_HasToken refl

nothing_stored : (token : Bytes) (user : UserData) → user.tokens ≡ [] → ¬ PartOfStored token user
nothing_stored token user e p = cons-not-nil p.in_list.0 p.stored p.in_list.1 (sym p.in_list.2 ∙ e)

admin_credentials :
    CredentialsIn sample_json (credentials_value (bytes "admin") (bytes "123")) admin.credentials
unfolding code
admin_credentials = record {
  obj = (bytes "username", 0 ∷ bytes "admin") ∷ (bytes "password", 0 ∷ bytes "123") ∷ [];
  is_object = refl;
  username = record { member = 0 ∷ bytes "admin"; found = refl; text = refl };
  password = record { member = 0 ∷ bytes "123"; found = refl; text = refl };
}

handle_api_request-Granted_example :
    ((text : Bytes) × ((handle 1000 login_request initial_server).0 ≡ ret (ok, text))
      × (json_to_struct sample_json (token_of_json sample_json) text
          ≡ ret (some (create_token sample_jwt 1000 1000 (bytes "admin")))))
    × (reply_status (handle 1030 secret_request logged_in) ≡ some ok)
unfolding code
handle_api_request-Granted_example =
    handle_api_request-Granted sample_jwt sample_jwt_laws sample_json sample_json_laws sample_ends
      (clock_at 1000) login_request [] initial_server request_IsLogin
      (credentials_value (bytes "admin") (bytes "123")) refl admin.credentials admin_credentials []
      (gosha ∷ []) admin refl (refl, refl) tt
      (nothing_stored _ admin refl, (nothing_stored _ gosha refl, tt)) (clock_at 1030)
      secret_request [] logged_in secret_test refl secret_HasToken refl
      (bytes "/api/settings" ∷ bytes "/api/logout" ∷ bytes "/api/info" ∷ [], [], refl) refl
      (omega arith) (omega arith)
