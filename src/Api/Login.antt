-- ===== src/Api/Login.antt =====
-- LoginUser of http_server/api/api_handler.cpp: the reply to a login, for every body.
use da_gis_service.Common.{
  ◌≡◌, refl, Option, none, some, List, arith, Bytes, bytes, c_str, All, Option-cases, inl, inr,
}
use da_gis_service.Outcome.{Exception, ret, raise}
use da_gis_service.Jwt.{JwtCpp, create_token}
use da_gis_service.Json.{
  BoostJson, JsonLaws, EndIsTrue, token_of_json, credentials_of_json, json_to_struct,
}
use da_gis_service.Json.RoundTrip.{
  CredentialsIn, LacksCredentials, json_to_struct-struct_to_json, credentials_of_json-CredentialsIn,
  credentials_of_json-cases,
}
use da_gis_service.Users.{Credentials, UserData, authenticate_credentials}
use da_gis_service.Users.Login.{HasCredentials, Granted, LoginPost, authenticate_user-LoginPost}
use da_gis_service.Api.{
  Request, ok, bad_request, unauthorized, Server, with_users, Clock, Reply, after_login, login_user,
  handle_api_request,
}
use da_gis_service.Api.Handled.{
  IsLogin, Handled, login, no_token, unknown, thrown, invalid, no_method, denied, served,
  handle_api_request-Handled,
}

module _ (jwt : JwtCpp) (js : BoostJson) (clock : Clock) (body response : Bytes) where
  abbrev fresh : Credentials → Bytes
  fresh creds = create_token jwt clock.issued clock.now creds.username

  -- The replies to a login with the given body: `r` is the reply and the state after.
  pub data LoginReply (s : Server) (r : Reply) : Type 0 where
    not_json :
        js.parse (c_str body) ≡ none
        → r ≡ (ret (bad_request, bytes "Invalid json"), s)
        → LoginReply s r
    no_credentials :
        (v : js.Value)
        → js.parse (c_str body) ≡ some v
        → LacksCredentials js v
        → (e : Exception) → r ≡ (raise e, s)
        → LoginReply s r
    refused :
        (v : js.Value)
        → js.parse (c_str body) ≡ some v
        → (creds : Credentials) → CredentialsIn js v creds
        → All (λ u. ¬ HasCredentials creds.username creds.password u) s.users
        → r ≡ (ret (unauthorized, response), s)
        → LoginReply s r
    granted :
        (v : js.Value)
        → js.parse (c_str body) ≡ some v
        → (creds : Credentials) → CredentialsIn js v creds
        → (users : List UserData)
        → Granted creds.username creds.password (fresh creds) s.users users
        → (text : Bytes) → json_to_struct js (token_of_json js) text ≡ ret (some (fresh creds))
        → r ≡ (ret (ok, text), with_users s users)
        → LoginReply s r

  module _ (laws : JsonLaws js) (ends : EndIsTrue js) (s : Server) where
    after_login-LoginReply :
        (v : js.Value)
        → js.parse (c_str body) ≡ some v
        → (creds : Credentials) → CredentialsIn js v creds
        → (a : Option Bytes × List UserData)
        → LoginPost creds.username creds.password (fresh creds) s.users a
        → LoginReply s (after_login js response s a)
    after_login-LoginReply v p creds c (none, users) (same, others) =
        refused v p creds c others (rw same)
    after_login-LoginReply v p creds c (some t, users) (same, g) =
        granted v p creds c users g _ (json_to_struct-struct_to_json js laws (fresh creds))
          (rw same)

    login_user-LoginReply : LoginReply s (login_user jwt js clock body response s)
    unfolding login_user json_to_struct authenticate_credentials
    login_user-LoginReply = elim (Option-cases (js.parse (c_str body))) [
      | inl bad ↦ not_json bad (rw (bad, login_user, json_to_struct))
      | inr (v, p) ↦ elim (credentials_of_json-cases js laws ends v) [
        | inr (e, lacks, throws) ↦ no_credentials v p lacks e (ground (arith, p, throws))
        | inl (creds, c) ↦
            let reads = credentials_of_json-CredentialsIn js laws v creds c in
            let parsed : json_to_struct js (credentials_of_json js) body ≡ ret (some creds) =
              ground (arith, p, reads) in
            rw (parsed, login_user)
              (after_login-LoginReply v p creds c _ (
                authenticate_user-LoginPost jwt clock.issued clock.now creds.username creds.password
                  s.users))
      ]
    ]

  module _ (laws : JsonLaws js) (ends : EndIsTrue js) (req : Request) where
    open_login :
        (s : Server) (r : Reply)
        → req.body ≡ body
        → IsLogin req
        → Handled jwt js clock req response s r
        → LoginReply s r
    open_login s r b l (login _ e) = rw (e, b) (login_user-LoginReply laws ends s)
    open_login s r b l (no_token other _ _) = absurd (other l)
    open_login s r b l (unknown has _ _) = absurd (has.no_login l)
    open_login s r b l (thrown has _ _ _ _) = absurd (has.no_login l)
    open_login s r b l (invalid has _ _ _) = absurd (has.no_login l)
    open_login s r b l (no_method has _ _ _ _) = absurd (has.no_login l)
    open_login s r b l (denied has _ _ _ _) = absurd (has.no_login l)
    open_login s r b l (served has _ _ _ _ _ _) = absurd (has.no_login l)

module _ (jwt : JwtCpp) (js : BoostJson) (laws : JsonLaws js) (ends : EndIsTrue js) where
  -- A login is answered by 400 and no change if the body is no JSON; by an exception and no change if the JSON
  -- is no object or lacks a user name or a password that is a string; by 401 and no change if nobody has the
  -- credentials; and else by 200 with the JSON of a token that the first such user now holds.
  pub handle_api_request-LoginReply :
      (clock : Clock) (req : Request) (response : Bytes) (s : Server)
      → IsLogin req
      → LoginReply jwt js clock req.body response s (handle_api_request jwt js clock req response s)
  handle_api_request-LoginReply clock req response s l =
      open_login jwt js clock req.body response laws ends req s _ refl l
        (handle_api_request-Handled jwt js clock req response s)
