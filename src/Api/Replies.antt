-- ===== src/Api/Replies.antt =====
-- What the replies of HandleApiRequest of http_server/api/api_handler.h hold, for the code that sends them.
use da_gis_service.Common.{◌≡◌, ◌≢◌, refl, Option, none, some, List, [], Bytes, c_str}
use da_gis_service.Outcome.{Outcome, ret, raise}
use da_gis_service.Jwt.{JwtCpp}
use da_gis_service.Json.{BoostJson, JsonLaws, json_to_struct, credentials_of_json, struct_to_json}
use da_gis_service.Users.{Credentials, UserData}
use da_gis_service.Api.{
  Request, ok, created, Server, Clock, RouteMethod, logout_user, secret_test, info_user, Reply,
  run_method, status_of, after_login, login_with, login_user, handle_api_request,
}
use da_gis_service.Api.Handled.{
  Handled, login, no_token, unknown, thrown, invalid, no_method, denied, served,
  handle_api_request-Handled, in_context,
}

-- A reply is never 201, and the body of a 200 has no NUL.
abbrev pub IsSendable : Reply → Type 0
IsSendable (raise e, s) = Unit
IsSendable (ret (status, body), s) = (status ≢ created) × (status ≡ ok → c_str body ≡ body)

module _ (js : BoostJson) (laws : JsonLaws js) where
  struct_to_json-c_str :
      {A : Type 0} (value_from : A → js.Value) (a : A)
      → c_str (struct_to_json js value_from a) ≡ struct_to_json js value_from a
  unfolding struct_to_json
  struct_to_json-c_str value_from a = laws.c_str-serialize (value_from a)

  run_method-IsSendable :
      (m : RouteMethod) (s : Server) → IsSendable (status_of js (run_method js m [] s))
  unfolding run_method c_str
  run_method-IsSendable logout_user s = (λ e. cc, λ _. refl)
  run_method-IsSendable secret_test s = (λ e. cc, λ _. refl)
  run_method-IsSendable info_user s = (λ e. cc, λ _. struct_to_json-c_str _ _)

  after_login-IsSendable :
      (s : Server) (a : Option Bytes × List UserData) → IsSendable (after_login js [] s a)
  after_login-IsSendable s (none, users) = (λ e. cc, λ e. cc)
  after_login-IsSendable s (some token, users) = (λ e. cc, λ _. struct_to_json-c_str _ _)

  login_with-IsSendable :
      (jwt : JwtCpp) (clock : Clock) (s : Server) (c : Outcome (Option Credentials))
      → IsSendable (login_with jwt js clock [] s c)
  login_with-IsSendable jwt clock s (raise e) = tt
  login_with-IsSendable jwt clock s (ret none) = (λ e. cc, λ e. cc)
  login_with-IsSendable jwt clock s (ret (some creds)) = after_login-IsSendable s _

  Handled-IsSendable :
      {jwt : JwtCpp} {clock : Clock} {req : Request} {s : Server} {r : Reply}
      → Handled jwt js clock req [] s r
      → IsSendable r
  unfolding login_user
  Handled-IsSendable {jwt} {clock} {req} {s} (login _ q) =
      rw q (login_with-IsSendable jwt clock s (json_to_struct js (credentials_of_json js) req.body))
  Handled-IsSendable (no_token _ _ q) = rw q (λ e. cc, λ e. cc)
  Handled-IsSendable (unknown _ _ q) = rw q (λ e. cc, λ e. cc)
  Handled-IsSendable (thrown _ _ _ _ q) = rw q tt
  Handled-IsSendable (invalid _ _ _ q) = rw q (λ e. cc, λ e. cc)
  Handled-IsSendable (no_method _ _ _ _ q) = rw q (λ e. cc, λ e. cc)
  Handled-IsSendable (denied _ _ _ _ q) = rw q (λ e. cc, λ e. cc)
  Handled-IsSendable {req} {s} (served _ _ _ _ m _ q) =
      rw q (run_method-IsSendable m (in_context req s))

  pub handle_api_request-IsSendable :
      (jwt : JwtCpp) (clock : Clock) (req : Request) (s : Server)
      → IsSendable (handle_api_request jwt js clock req [] s)
  handle_api_request-IsSendable jwt clock req s =
      Handled-IsSendable (handle_api_request-Handled jwt js clock req [] s)
