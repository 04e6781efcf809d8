-- ===== src/Api/Opened.antt =====
-- What opens a route of http_server/api/api_handler.h: a token that was granted to its user.
use da_gis_service.Common.{
  ℕ, ◌+◌, ◌≤◌, ◌<◌, ◌≡◌, refl, ◌∙◌, c_str, some, List, [], ◌∷◌, ◌++◌, Bytes, bytes, sym, All,
  All-left, All-middle,
}
use mathlib.Core.List.{append-nil}
use da_gis_service.Outcome.{ret}
use da_gis_service.Jwt.{JwtCpp, JwtLaws, create_token}
use da_gis_service.Jwt.Lifetime.{verify-create_token}
use da_gis_service.Json.{BoostJson, JsonLaws, lookup, token_of_json, json_to_struct}
use da_gis_service.Json.RoundTrip.{
  CredentialsIn, LacksCredentials, no_object, no_username, no_password, NoStringAt, no_member,
  no_string, StringAt, credentials_of_json-CredentialsIn,
}
use da_gis_service.Api.Login.{LoginReply, not_json, no_credentials, refused, granted}
use da_gis_service.Users.{Credentials, UserData, with_tokens}
use da_gis_service.Users.Login.{HasCredentials, Granted}
use da_gis_service.Users.Access.{Listed, PartOfStored, Session}
use da_gis_service.Api.{
  Request, ok, Server, Clock, RouteMethod, route_methods, Reply, handle_api_request,
}
use da_gis_service.Api.Handled.{HasToken}
use da_gis_service.Api.Authorized.{reply_status, handle_api_request-ok_iff}

Session-Granted :
    {username password token : Bytes} {before after : List UserData}
    → (g : Granted username password token before after) → All (λ u. ¬ PartOfStored token u) before
    → Session token after (with_tokens g.user (g.user.tokens ++ token ∷ []))
Session-Granted {token} g fresh = record {
  earlier = g.earlier;
  later = g.later;
  found = g.added;
  holder = record {
    stored = token;
    in_list = (g.user.tokens, [], refl);
    left = [];
    right = [];
    part = sym (append-nil token);
  };
  first = All-left (λ u. ¬ PartOfStored token u) g.earlier (g.user ∷ g.later) (rw g.found at fresh);
}

module _ (jwt : JwtCpp) (laws : JwtLaws jwt) (js : BoostJson) where
  -- A token that is granted opens each route of its user that has a method, if it was no part of a token stored
  -- before.
  pub handle_api_request-Opened :
      (issued now : ℕ) {username password : Bytes} {before after : List UserData}
      → (g : Granted username password (create_token jwt issued now username) before after)
      → All (λ u. ¬ PartOfStored (create_token jwt issued now username) u) before
      → (clock : Clock) (req : Request) (response : Bytes) (s : Server) (m : RouteMethod)
      → s.users ≡ after
      → HasToken req
      → req.authorization ≡ create_token jwt issued now username
      → Listed req.target g.user.routes
      → lookup req.target route_methods ≡ some m
      → issued ≤ clock.at
      → clock.at < now + 60
      → reply_status (handle_api_request jwt js clock req response s) ≡ some ok
  handle_api_request-Opened issued now {username} g fresh clock req response s m users has same
        allowed routed from until =
      (handle_api_request-ok_iff jwt js clock req response s has).1 (record {
        valid = rw same (verify-create_token jwt laws issued now clock.at username from until);
        user = with_tokens g.user (g.user.tokens ++ create_token jwt issued now username ∷ []);
        session = rw (same, users) (Session-Granted g fresh);
        allowed = allowed;
        method = m;
        routed = routed;
      })

module _ (jwt : JwtCpp) (js : BoostJson) (laws : JsonLaws js) where
  CredentialsIn-same :
      (v : js.Value) (a b : Credentials) → CredentialsIn js v a → CredentialsIn js v b → a ≡ b
  CredentialsIn-same v a b ca cb =
      let read : ret a ≡ ret b =
        sym (credentials_of_json-CredentialsIn js laws v a ca)
        ∙ credentials_of_json-CredentialsIn js laws v b cb in
      cc

  NoStringAt-StringAt :
      (obj : js.JsonObject) (key s : Bytes) → NoStringAt js obj key → ¬ StringAt js obj key s
  NoStringAt-StringAt obj key s (no_member none_there) a = cc (none_there, a.found)
  NoStringAt-StringAt obj key s (no_string member there none_there) a =
      let same : member ≡ a.member = cc in cc (none_there, a.text, same)

  LacksCredentials-CredentialsIn :
      (v : js.Value) (creds : Credentials) → LacksCredentials js v → ¬ CredentialsIn js v creds
  LacksCredentials-CredentialsIn v creds (no_object none_there) c = cc (none_there, c.is_object)
  LacksCredentials-CredentialsIn v creds (no_username obj is_object lacks) c =
      let same : obj ≡ c.obj = cc in
      NoStringAt-StringAt c.obj (bytes "username") creds.username (rw (← same) lacks) c.username
  LacksCredentials-CredentialsIn v creds (no_password obj is_object lacks) c =
      let same : obj ≡ c.obj = cc in
      NoStringAt-StringAt c.obj (bytes "password") creds.password (rw (← same) lacks) c.password

  -- A login with the credentials of a user is answered by 200 with the JSON of a fresh token, which is granted.
  pub LoginReply-Granted :
      (clock : Clock) (body response : Bytes) (s : Server) (r : Reply)
      → LoginReply jwt js clock body response s r
      → (v : js.Value) → js.parse (c_str body) ≡ some v
      → (creds : Credentials) → CredentialsIn js v creds
      → (earlier later : List UserData) (user : UserData) → s.users ≡ earlier ++ user ∷ later
      → HasCredentials creds.username creds.password user
      → let token = create_token jwt clock.issued clock.now creds.username in
        ((text : Bytes) × (r.0 ≡ ret (ok, text))
          × (json_to_struct js (token_of_json js) text ≡ ret (some token)))
        × Granted creds.username creds.password token s.users r.1.users
  LoginReply-Granted clock body response s r (not_json bad _) v p creds c earlier later user e h =
      cc (bad, p)
  LoginReply-Granted clock body response s r (no_credentials w q lacks _ _) v p creds c earlier
        later user e h =
      let same : w ≡ v = cc in absurd (LacksCredentials-CredentialsIn v creds (rw (← same) lacks) c)
  LoginReply-Granted clock body response s r (refused w q other d others _) v p creds c earlier
        later user e h =
      let same : w ≡ v = cc in
      let equal = CredentialsIn-same v other creds (rw (← same) d) c in
      absurd (
        All-middle (λ u. ¬ HasCredentials other.username other.password u) earlier user later
          (rw (← e) others) (rw equal h))
  LoginReply-Granted clock body response s r (granted w q other d users g text reads answered) v p
        creds c earlier later user e h =
      let same : w ≡ v = cc in
      let equal = CredentialsIn-same v other creds (rw (← same) d) c in
      rw (← equal, answered) ((text, refl, reads), g)
