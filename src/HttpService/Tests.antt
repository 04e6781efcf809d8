-- ===== src/HttpService/Tests.antt =====
-- The server of http_server/httpserver.cpp at concrete connections: one client logs in, another uses the token
-- that the first has got.
use da_gis_service.Common.{
  ◌≡◌, refl, Bool, true, not, none, [], ◌∷◌, Bytes, bytes, eqb, contains, is_prefix, c_str, any,
  inl,
}
use da_gis_service.Outcome.{ret}
use da_gis_service.Jwt.{verify, create_token}
use da_gis_service.Json.{
  lookup, string_at, object_of, token_of_json, json_of_token, credentials_at, credentials_of_json,
  json_to_struct, struct_to_json,
}
use da_gis_service.Users.{
  with_tokens, holds_token, get_user_data, token_exist, check_access, authenticate_user,
  authenticate_credentials, verify_token, admin, gosha,
}
use da_gis_service.Api.{
  Verb, get, post, Request, ok, Server, Clock, with_users, login_path, run_method,
  execute_route_method, call_route, login_user, handle_api_request, initial_server,
}
use da_gis_service.HttpResponse.{Response, Opened, no_such_file, api_response}
use da_gis_service.Http.{dispatch, handle_request, is_illegal}
use da_gis_service.Http.Listener.{
  Setup, Listener, accepted, listener, listen_step, bind_step, set_option_step, run, launch,
  on_accept, do_accept,
}
use da_gis_service.Http.Connection.{
  reading, request, fresh, do_read, send_lambda, send_answer, on_read,
}
use da_gis_service.HttpService.{
  Connection, World, connection, world, new_connection, Serving, Was, begin, accepts, reads,
}
use da_gis_service.Http.Connection.Moments.{Moment}
use da_gis_service.HttpService.Sound.{IsSound, Serving-IsSound}
use da_gis_service.HttpService.Secret.{secret, FromAdmin, Serving-FromAdmin}
use da_gis_service.Samples.{sample_jwt, sample_json, sample_json_laws, sample_credentials}

code : Unit {0}
unfolding on_read send_answer send_lambda do_read handle_request dispatch is_illegal api_response
    listener listen_step bind_step set_option_step run launch on_accept do_accept handle_api_request
    login_user call_route execute_route_method run_method verify_token authenticate_credentials
    authenticate_user check_access token_exist get_user_data holds_token json_to_struct
    struct_to_json credentials_of_json credentials_at token_of_json json_of_token object_of
    string_at lookup verify create_token eqb contains is_prefix c_str any
code = tt

-- The API needs no files.
abbrev disk : Bytes → Opened
disk path = no_such_file

abbrev root : Bytes
root = bytes "/srv"

abbrev closes : Response → Bool
closes msg = not msg.keep_alive

abbrev setup : Setup
setup = record {
  open_error = none;
  set_option_error = none;
  bind_error = none;
  listen_error = none;
}

abbrev noon : Clock
noon = record { issued = 1000; now = 1000; at = 1000 }

abbrev ask : Verb → Bytes → Bytes → Bytes → Request
ask method target authorization body = record {
  method = method;
  target = target;
  version = 11;
  keep_alive = true;
  authorization = authorization;
  control_request_headers = [];
  control_request_method = [];
  body = body;
}

abbrev login_request : Request
login_request = ask post login_path [] (sample_credentials (bytes "admin") (bytes "123"))

abbrev admin_token : Bytes
admin_token = 1000 ∷ 1060 ∷ bytes "admin"

abbrev secret_request : Request
secret_request = ask get secret admin_token []

abbrev logged_in : Server
logged_in = with_users initial_server (with_tokens admin (admin_token ∷ []) ∷ gosha ∷ [])

abbrev Here : World → Type 0
Here = Serving closes (bytes "Boost.Beast") disk sample_jwt sample_json root setup

abbrev two_sockets : Listener
two_sockets = record { is_accepting = true; launched = 4 ∷ 5 ∷ []; errors = [] }

two_connections : Here (world two_sockets (new_connection ∷ new_connection ∷ []) initial_server)
unfolding code
two_connections = accepts (accepts begin refl (accepted 4)) refl (accepted 5)

abbrev login_msg : Response
login_msg = api_response (bytes "Boost.Beast") login_request ok (
    struct_to_json sample_json (json_of_token sample_json)
      (create_token sample_jwt 1000 1000 (bytes "admin")))

abbrev secret_msg : Response
secret_msg = api_response (bytes "Boost.Beast") secret_request ok (bytes "secret method called")

abbrev login_moment : Moment
login_moment = record {
  clock = noon;
  asked_for = login_request;
  before = initial_server;
  after = logged_in;
}

abbrev login_connection : Connection
login_connection = connection (login_moment ∷ []) (send_lambda closes login_msg (do_read fresh))

-- The second request finds the first answered.
abbrev secret_moment : Server → Moment
secret_moment s = record { clock = noon; asked_for = secret_request; before = logged_in; after = s }

abbrev secret_connection : Server → Connection
secret_connection s =
    connection (secret_moment s ∷ []) (send_lambda closes secret_msg (do_read fresh))

waits : (do_read fresh).pending ≡ reading
unfolding do_read
waits = refl

login_answered :
    on_read closes
      (bytes "Boost.Beast")
      disk
      sample_jwt
      sample_json
      root
      (request noon login_request)
      (do_read fresh)
      initial_server
    ≡ (ret (send_lambda closes login_msg (do_read fresh)), logged_in)
unfolding code
login_answered = refl

-- The first connection logs in, then the second asks for the secret.
served : (s' : Server) × Here (world two_sockets (login_connection ∷ secret_connection s' ∷ []) s')
unfolding code
served = (
  _,
  reads (login_connection ∷ []) [] [] (do_read fresh) _
      (reads [] (new_connection ∷ []) [] (do_read fresh) _ two_connections waits
        (request noon login_request) login_answered)
      waits (request noon secret_request) refl,
)

Serving-IsSound_example :
    IsSound (bytes "Boost.Beast") disk sample_jwt sample_json root closes setup served.1
Serving-IsSound_example =
    Serving-IsSound (bytes "Boost.Beast") disk sample_jwt sample_json root closes setup served.1

Serving-FromAdmin_example :
    FromAdmin (secret_moment served.0)
    × Was closes (bytes "Boost.Beast") disk sample_jwt sample_json root setup served.1 logged_in
unfolding code
Serving-FromAdmin_example =
    Serving-FromAdmin (bytes "Boost.Beast") disk sample_jwt sample_json sample_json_laws root closes
      served.1 1 0 (secret_connection served.0) (secret_moment served.0) secret_msg refl refl refl
      (inl refl) refl refl
