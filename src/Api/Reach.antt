-- ===== src/Api/Reach.antt =====
-- The states that the server of http_server/api/api_handler.h reaches by handling requests, and what
-- holds in all of them.
use mathlib.Core.List.{map-append}
use da_gis_service.Common.{
  ◌≡◌, ◌∙◌, ap, refl, true, Option, none, some, List, [], ◌∷◌, ◌++◌, map, ◌⊎◌, inl, inr, Bytes,
  bytes, eqb, any,
}
use da_gis_service.Outcome.{Outcome, ret, raise}
use da_gis_service.Jwt.{JwtCpp}
use da_gis_service.Json.{BoostJson, json_to_struct, credentials_of_json}
use da_gis_service.Users.{
  Credentials, UserData, disprove_user, initial_users, admin, gosha, authenticate_credentials,
}
use da_gis_service.Users.Login.{LoginPost, authenticate_user-LoginPost}
use da_gis_service.Users.Logout.{profile, disprove_user-revokes}
use da_gis_service.Users.Issued.{
  AllIssued, AllIssued-initial_users, disprove_user-AllIssued, authenticate_user-AllIssued,
}
use da_gis_service.Users.Access.{Listed, Session, any-append}
use da_gis_service.Api.{
  Request, Status, ok, Server, with_users, initial_server, Clock, RouteMethod, logout_user,
  secret_test, info_user, Reply, run_method, status_of, after_login, login_with, login_user,
  handle_api_request,
}
use da_gis_service.Api.Handled.{
  HasToken, Handled, login, no_token, unknown, thrown, invalid, no_method, denied, served,
  handle_api_request-Handled, in_context,
}
use da_gis_service.Api.Authorized.{reply_status, handle_api_request-ok_iff}

module _ (jwt : JwtCpp) (js : BoostJson) where
  -- States after requests that were answered; an exception ends the server.
  pub data Reach : Server → Type 0 where
    start : Reach initial_server
    next :
        {s s' : Server} {answer : Status × Bytes}
        → Reach s
        → (clock : Clock) (req : Request) (response : Bytes)
        → handle_api_request jwt js clock req response s ≡ (ret answer, s')
        → Reach s'

  -- The users are those of the start but for their tokens, and each token was issued to its user.
  pub record IsSafe (s : Server) : Type 0 where
    pub profiles : map profile s.users ≡ map profile initial_users
    pub issued : AllIssued jwt s.users

  IsSafe-disprove_user :
      (token : Bytes) (s : Server) → IsSafe s → IsSafe (with_users s (disprove_user token s.users))
  IsSafe-disprove_user token s h = record {
    profiles = (disprove_user-revokes token token s.users).1 ∙ h.profiles;
    issued = disprove_user-AllIssued jwt token s.users h.issued;
  }

  LoginPost-profile :
      (username password token : Bytes) (users : List UserData) (r : Option Bytes × List UserData)
      → LoginPost username password token users r
      → map profile r.1 ≡ map profile users
  LoginPost-profile username password token users (none, after) (e, _) = ap (map profile) e
  LoginPost-profile username password token users (some t, after) (_, g) =
      rw (g.added, g.found) (simp map-append)

  after_login-IsSafe :
      (response : Bytes) (s : Server) (a : Option Bytes × List UserData)
      → IsSafe (with_users s a.1)
      → IsSafe (after_login js response s a).1
  after_login-IsSafe response s (none, users) h = h
  after_login-IsSafe response s (some t, users) h = h

  login_with-IsSafe :
      (clock : Clock) (response : Bytes) (s : Server) (c : Outcome (Option Credentials))
      → IsSafe s
      → IsSafe (login_with jwt js clock response s c).1
  unfolding authenticate_credentials
  login_with-IsSafe clock response s (raise e) h = h
  login_with-IsSafe clock response s (ret none) h = h
  login_with-IsSafe clock response s (ret (some creds)) h =
      let post =
        authenticate_user-LoginPost jwt clock.issued clock.now creds.username creds.password
          s.users in
      after_login-IsSafe response s _ (record {
        profiles = LoginPost-profile creds.username creds.password _ s.users _ post ∙ h.profiles;
        issued =
            authenticate_user-AllIssued jwt clock.issued clock.now creds.username creds.password
              s.users h.issued;
      })

  run_method-IsSafe :
      (m : RouteMethod) (response : Bytes) (s : Server)
      → IsSafe s
      → IsSafe (status_of js (run_method js m response s)).1
  unfolding run_method
  run_method-IsSafe logout_user response s h = IsSafe-disprove_user s.context.token s h
  run_method-IsSafe secret_test response s h = record { profiles = h.profiles; issued = h.issued }
  run_method-IsSafe info_user response s h = record { profiles = h.profiles; issued = h.issued }

  Handled-IsSafe :
      {clock : Clock} {req : Request} {response : Bytes} {s : Server} {r : Reply}
      → Handled jwt js clock req response s r
      → IsSafe s
      → IsSafe r.1
  unfolding login_user
  Handled-IsSafe {clock} {req} {response} {s} (login _ q) h =
      rw q
        (login_with-IsSafe clock response s (json_to_struct js (credentials_of_json js) req.body) h)
  Handled-IsSafe (no_token _ _ q) h = rw q h
  Handled-IsSafe (unknown _ _ q) h = rw q h
  Handled-IsSafe (thrown _ _ _ _ q) h = rw q h
  Handled-IsSafe {req} {s} (invalid _ _ _ q) h = rw q (IsSafe-disprove_user req.authorization s h)
  Handled-IsSafe (no_method _ _ _ _ q) h = rw q h
  Handled-IsSafe (denied _ _ _ _ q) h = rw q h
  Handled-IsSafe {req} {response} {s} (served _ _ _ _ m _ q) h = rw q (
      run_method-IsSafe m response (in_context req s)
        (record { profiles = h.profiles; issued = h.issued }))

  -- However the requests come, users are neither added nor lost, their credentials, routes and other
  -- data are those of the constructor, and each stored token was issued in the name of its user.
  pub Reach-IsSafe : {s : Server} → Reach s → IsSafe s
  Reach-IsSafe start = record { profiles = refl; issued = AllIssued-initial_users jwt }
  Reach-IsSafe (next {s} before clock req response answered) = rw answered at (
      Handled-IsSafe (handle_api_request-Handled jwt js clock req response s) (Reach-IsSafe before))

-- Each user of a list with the profiles of the start has the profile of one of the two.
profile_cases :
    (earlier : List UserData) (user : UserData) (later : List UserData)
    → map profile (earlier ++ user ∷ later) ≡ map profile initial_users
    → (profile user ≡ admin) ⊎ (profile user ≡ gosha)
profile_cases [] user later h = inl cc
profile_cases (u ∷ []) user later h = inr cc
profile_cases (u ∷ v ∷ []) user later h = absurd cc
profile_cases (u ∷ v ∷ w ∷ earlier) user later h = absurd cc

secret_not_gosha : ¬ Listed (bytes "/api/secret") gosha.routes
unfolding any eqb
secret_not_gosha (before, after, e) =
    let p = λ (r : Bytes). eqb r (bytes "/api/secret") in
    cc (ap (any p) e, any-append p before (bytes "/api/secret") after refl)

module _ (jwt : JwtCpp) (js : BoostJson) where
  -- In every reachable state only a token of an administrator opens /api/secret.
  pub secret-is_admin :
      {s : Server}
      → Reach jwt js s
      → (clock : Clock) (req : Request) (response : Bytes) → HasToken req
      → req.target ≡ bytes "/api/secret"
      → reply_status (handle_api_request jwt js clock req response s) ≡ some ok
      → (user : UserData) × Session req.authorization s.users user × (user.is_admin ≡ true)
  secret-is_admin {s} reach clock req response has there answered =
      let a = (handle_api_request-ok_iff jwt js clock req response s has).0 answered in
      let same : map profile (a.session.earlier ++ a.user ∷ a.session.later)
          ≡ map profile initial_users =
        rw a.session.found at (Reach-IsSafe jwt js reach).profiles in
      elim (profile_cases a.session.earlier a.user a.session.later same) [
        | inl is_admin ↦ (a.user, a.session, ap (λ (u : UserData). u.is_admin) is_admin)
        | inr is_gosha ↦
            absurd (
              secret_not_gosha (rw (← there, ← ap (λ (u : UserData). u.routes) is_gosha) a.allowed))
      ]
