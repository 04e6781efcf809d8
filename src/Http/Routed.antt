-- ===== src/Http/Routed.antt =====
-- The branches of handle_request of http_server/httpserver.cpp, as a table of cases.
use da_gis_service.Common.{
  ◌≡◌, ◌⊎◌, refl, true, false, Bytes, bytes, eqb, take, c_str, Bool-cases, inl, inr,
}
use da_gis_service.Outcome.{Outcome, ret}
use da_gis_service.Jwt.{JwtCpp}
use da_gis_service.Json.{BoostJson}
use da_gis_service.Api.{Verb, get, head, post, options, other, Request, Server, Clock}
use da_gis_service.HttpResponse.{Response, Opened, head_file, get_file, preflight, bad_request}
use da_gis_service.Http.{is_known, is_illegal, file_path, call_api, dispatch, handle_request}

abbrev pub HasApiPrefix : Request → Type 0
HasApiPrefix req = eqb (take 4 req.target) (bytes "/api") ≡ true

-- A request that goes to HandleApiRequest: an accepted POST, or an accepted GET below /api.
abbrev pub IsApi : Request → Type 0
IsApi req =
    (is_illegal req.target ≡ false)
    × ((req.method ≡ post) ⊎ ((req.method ≡ get) × HasApiPrefix req))

abbrev pub IsPreflight : Request → Type 0
IsPreflight req = (is_illegal req.target ≡ false) × (req.method ≡ options)

module _ (beast_version : Bytes) (open_file : Bytes → Opened) (jwt : JwtCpp) (js : BoostJson)
    (root : Bytes) (clock : Clock) (req : Request) where
  abbrev path : Bytes
  path = file_path root req.target

  -- `r` is the response and the state after.
  pub data Routed (s : Server) (r : Outcome Response × Server) : Type 0 where
    refused :
        (is_known req.method ≡ false) ⊎ (is_illegal req.target ≡ true)
        → (why : Bytes) → r ≡ (ret (bad_request beast_version req why), s)
        → Routed s r
    to_api : IsApi req → r ≡ call_api beast_version open_file jwt js clock req s → Routed s r
    head_of :
        is_illegal req.target ≡ false
        → req.method ≡ head
        → r ≡ (ret (head_file beast_version req path (open_file (c_str path))), s)
        → Routed s r
    file_of :
        is_illegal req.target ≡ false
        → req.method ≡ get
        → ¬ HasApiPrefix req
        → r ≡ (ret (get_file beast_version req path (open_file (c_str path))), s)
        → Routed s r
    preflight_of : IsPreflight req → r ≡ (ret (preflight beast_version req), s) → Routed s r

  dispatch-Routed :
      (v : Verb) (s : Server)
      → req.method ≡ v
      → is_known v ≡ true
      → is_illegal req.target ≡ false
      → Routed s (dispatch beast_version open_file jwt js v clock req path s)
  unfolding dispatch
  dispatch-Routed get s v known legal = elim (Bool-cases (eqb (take 4 req.target) (bytes "/api"))) [
    | inl api ↦ to_api (legal, inr (v, api)) (rw (api, dispatch))
    | inr plain ↦ file_of legal v (λ api. cc (plain, api)) (rw (plain, dispatch))
  ]
  dispatch-Routed head s v known legal = head_of legal v refl
  dispatch-Routed post s v known legal = to_api (legal, inl v) refl
  dispatch-Routed options s v known legal = preflight_of (legal, v) refl
  dispatch-Routed other s v known legal = cc

  -- Every request falls into one of the cases, and is answered as the case says.
  pub handle_request-Routed :
      (s : Server) → Routed s (handle_request beast_version open_file jwt js root clock req s)
  unfolding handle_request
  handle_request-Routed s = elim (Bool-cases (is_known req.method)) [
    | inr unknown ↦
        refused (inl unknown) (bytes "Unknown HTTP-method") (rw (unknown, handle_request))
    | inl known ↦ elim (Bool-cases (is_illegal req.target)) [
      | inl illegal ↦
          refused (inr illegal) (bytes "Illegal request-target")
            (rw (known, illegal, handle_request))
      | inr legal ↦
          rw (known, legal, handle_request) (dispatch-Routed req.method s refl known legal)
    ]
  ]
