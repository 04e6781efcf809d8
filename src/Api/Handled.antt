-- ===== src/Api/Handled.antt =====
-- What HandleApiRequest of http_server/api/api_handler.h does, as a table of cases.
use da_gis_service.Common.{
  ◌≡◌, ◌≢◌, ◌⊎◌, ◌↔◌, inl, inr, refl, Bool, true, false, ◌&&◌, ◌||◌, none, some, [], ◌++◌, Bytes,
  bytes, eqb, eqb_iff, Bool-cases, Option-cases,
}
use mathlib.Core.Bool.{and-eq-true_iff}
use da_gis_service.Outcome.{Outcome, Exception, ret, raise}
use da_gis_service.Jwt.{JwtCpp, verify}
use da_gis_service.Json.{BoostJson, lookup}
use da_gis_service.Users.{disprove_user, token_exist, check_access, verify_token, drop_invalid}
use da_gis_service.Api.{
  is_post, Request, bad_request, unauthorized, forbidden, RequestContext, Server, with_users, Clock,
  RouteMethod, route_methods, Reply, login_path, run_method, status_of, execute_route_method,
  call_route, after_verify, login_user, handle_api_request,
}

or_elim {ℓ κ} :
    {P : Type ℓ} {Q : Type κ} (a b : Bool)
    → (a ≡ true → P)
    → (b ≡ true → Q)
    → (a || b) ≡ true
    → P ⊎ Q
or_elim true b p q h = inl (p refl)
or_elim false b p q h = inr (q h)

or_right : (a b : Bool) → b ≡ true → (a || b) ≡ true
or_right true b h = refl
or_right false b h = h

abbrev pub IsLogin : Request → Type 0
IsLogin req = (is_post req.method ≡ true) × (req.target ≡ login_path)

-- A request that is no login and comes with a token.
pub record HasToken (req : Request) : Type 0 where
  pub no_login : ¬ IsLogin req
  pub not_empty : req.authorization ≢ []
  pub not_undefined : req.authorization ≢ bytes "undefined"

abbrev pub context_of : Request → RequestContext
context_of req = record { route = req.target; token = req.authorization; body = req.body }

abbrev pub in_context : Request → Server → Server
in_context req s = record s { context = context_of req }

is_post_path_iff :
    (req : Request) → ((is_post req.method && eqb req.target login_path) ≡ true) ↔ IsLogin req
is_post_path_iff req = (
  λ h. let (p, q) = (and-eq-true_iff _ _).0 h in (p, (eqb_iff req.target login_path).0 q),
  λ l. (and-eq-true_iff _ _).1 (l.0, (eqb_iff req.target login_path).1 l.1),
)

not-IsLogin :
    (req : Request) → (is_post req.method && eqb req.target login_path) ≡ false → ¬ IsLogin req
not-IsLogin req h l = cc (h, (is_post_path_iff req).1 l)

is_missing_iff :
    (t : Bytes)
    → ((eqb t [] || eqb t (bytes "undefined")) ≡ true) ↔ ((t ≡ []) ⊎ (t ≡ bytes "undefined"))
is_missing_iff t =
    let (e, f) = eqb_iff t [] in
    let (g, h) = eqb_iff t (bytes "undefined") in
    (
      or_elim (eqb t []) (eqb t (bytes "undefined")) e g,
      elim [
        | inl p ↦ rw (f p) refl
        | inr q ↦ or_right (eqb t []) (eqb t (bytes "undefined")) (h q)
      ],
    )

has_token :
    (req : Request)
    → (is_post req.method && eqb req.target login_path) ≡ false
    → (eqb req.authorization [] || eqb req.authorization (bytes "undefined")) ≡ false
    → HasToken req
has_token req other present = record {
  no_login = not-IsLogin req other;
  not_empty = λ e. cc (present, (is_missing_iff req.authorization).1 (inl e));
  not_undefined = λ e. cc (present, (is_missing_iff req.authorization).1 (inr e));
}

module _ (jwt : JwtCpp) (js : BoostJson) (clock : Clock) (req : Request) (response : Bytes) where
  abbrev token : Bytes
  token = req.authorization

  -- The cases in the order in which they are tried. In each `r` is the reply and the state after.
  pub data Handled (s : Server) (r : Reply) : Type 0 where
    login : IsLogin req → r ≡ login_user jwt js clock req.body response s → Handled s r
    no_token :
        ¬ IsLogin req
        → (token ≡ []) ⊎ (token ≡ bytes "undefined")
        → r ≡ (ret (unauthorized, response), s)
        → Handled s r
    unknown :
        HasToken req
        → token_exist token s.users ≡ false
        → r ≡ (ret (unauthorized, response), s)
        → Handled s r
    thrown :
        HasToken req
        → token_exist token s.users ≡ true
        → (e : Exception) → verify jwt clock.at token ≡ raise e
        → r ≡ (raise e, s)
        → Handled s r
    invalid :
        HasToken req
        → token_exist token s.users ≡ true
        → verify jwt clock.at token ≡ ret false
        → r ≡ (ret (unauthorized, response), with_users s (disprove_user token s.users))
        → Handled s r
    no_method :
        HasToken req
        → token_exist token s.users ≡ true
        → verify jwt clock.at token ≡ ret true
        → lookup req.target route_methods ≡ none
        → r ≡ (ret (bad_request, bytes "Method not found: " ++ req.target), s)
        → Handled s r
    denied :
        HasToken req
        → token_exist token s.users ≡ true
        → verify jwt clock.at token ≡ ret true
        → check_access token req.target s.users ≡ false
        → r ≡ (ret (forbidden, response), s)
        → Handled s r
    served :
        HasToken req
        → token_exist token s.users ≡ true
        → verify jwt clock.at token ≡ ret true
        → check_access token req.target s.users ≡ true
        → (m : RouteMethod) → lookup req.target route_methods ≡ some m
        → r ≡ status_of js (run_method js m response (in_context req s))
        → Handled s r

  call_route-Handled :
      (s : Server)
      → HasToken req
      → token_exist token s.users ≡ true
      → verify jwt clock.at token ≡ ret true
      → Handled s (call_route js req response s)
  unfolding call_route execute_route_method
  call_route-Handled s has known valid = elim (Option-cases (lookup req.target route_methods)) [
    | inl missing ↦ no_method has known valid missing (rw (missing, call_route))
    | inr (m, found) ↦ elim (Bool-cases (check_access token req.target s.users)) [
      | inl granted ↦
          served has known valid granted m found
            (rw (found, granted, call_route) (rw (found, execute_route_method)))
      | inr refused ↦ denied has known valid refused (rw (found, refused, call_route))
    ]
  ]

  token-Handled :
      (s : Server) (v : Outcome Bool)
      → HasToken req
      → token_exist token s.users ≡ true
      → verify jwt clock.at token ≡ v
      → Handled s (after_verify js req response s (drop_invalid token s.users v))
  token-Handled s (raise e) has known v = thrown has known e v refl
  token-Handled s (ret false) has known v = invalid has known v refl
  token-Handled s (ret true) has known v = call_route-Handled s has known v

  -- Every request falls into one of the cases, and is answered as the case says.
  pub handle_api_request-Handled :
      (s : Server) → Handled s (handle_api_request jwt js clock req response s)
  unfolding handle_api_request verify_token
  handle_api_request-Handled s =
      elim (Bool-cases (is_post req.method && eqb req.target login_path)) [
        | inl log ↦ login ((is_post_path_iff req).0 log) (rw (log, handle_api_request))
        | inr other ↦ elim (Bool-cases (eqb token [] || eqb token (bytes "undefined"))) [
          | inl missing ↦
              no_token (not-IsLogin req other) ((is_missing_iff token).0 missing)
                (rw (other, missing, handle_api_request))
          | inr present ↦
              let has = has_token req other present in
              elim (Bool-cases (token_exist token s.users)) [
                | inl known ↦
                    rw (other, present, known, handle_api_request)
                      (token-Handled s _ has known refl)
                | inr strange ↦
                    unknown has strange (rw (other, present, strange, handle_api_request))
              ]
        ]
      ]
