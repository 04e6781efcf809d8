-- ===== src/HttpService/Exchanges.antt =====
-- The states that the answers of http_server/httpserver.cpp lead to.
use da_gis_service.Common.{◌≡◌, ◌∙◌, sym, refl, [], Bytes}
use da_gis_service.Outcome.{Outcome, ret, raise}
use da_gis_service.Jwt.{JwtCpp}
use da_gis_service.Json.{BoostJson}
use da_gis_service.Api.{Request, Server, Clock, Reply, handle_api_request}
use da_gis_service.Api.Reach.{Reach, next}
use da_gis_service.HttpResponse.{Response, Opened}
use da_gis_service.Http.{answer, handle_request}
use da_gis_service.Http.Routed.{
  Routed, refused, to_api, head_of, file_of, preflight_of, handle_request-Routed,
}

module _ (beast_version : Bytes) (open_file : Bytes → Opened) (jwt : JwtCpp) (js : BoostJson)
    (doc_root : Bytes) where
  answer-Reach :
      (clock : Clock) (req : Request) (msg : Response) (s s' : Server) (r : Reply)
      → Reach jwt js s
      → handle_api_request jwt js clock req [] s ≡ r
      → answer beast_version req r ≡ (ret msg, s')
      → Reach jwt js s'
  answer-Reach clock req msg s s' (raise e, after) reach h q = absurd cc
  answer-Reach clock req msg s s' (ret (status, body), after) reach h q =
      let same : after ≡ s' = cc in
      let stepped : Reach jwt js after = next reach clock req [] h in rw (← same) stepped

  Routed-Reach :
      (clock : Clock) (req : Request) (msg : Response) (s s' : Server)
      (r : Outcome Response × Server)
      → Reach jwt js s
      → Routed beast_version open_file jwt js doc_root clock req s r
      → r ≡ (ret msg, s')
      → Reach jwt js s'
  Routed-Reach clock req msg s s' r reach (refused _ _ q) h =
      let same : s ≡ s' = cc in rw (← same) reach
  Routed-Reach clock req msg s s' r reach (to_api _ q) h =
      answer-Reach clock req msg s s' _ reach refl (sym q ∙ h)
  Routed-Reach clock req msg s s' r reach (head_of _ _ q) h =
      let same : s ≡ s' = cc in rw (← same) reach
  Routed-Reach clock req msg s s' r reach (file_of _ _ _ q) h =
      let same : s ≡ s' = cc in rw (← same) reach
  Routed-Reach clock req msg s s' r reach (preflight_of _ q) h =
      let same : s ≡ s' = cc in rw (← same) reach

  -- An answer of handle_request leads from a state that the server reaches to another.
  pub handle_request-Reach :
      (clock : Clock) (req : Request) (msg : Response) (s s' : Server)
      → Reach jwt js s
      → handle_request beast_version open_file jwt js doc_root clock req s ≡ (ret msg, s')
      → Reach jwt js s'
  handle_request-Reach clock req msg s s' reach h =
      Routed-Reach clock req msg s s' _ reach
        (handle_request-Routed beast_version open_file jwt js doc_root clock req s) h
