-- ===== src/Http/Connection/Served.antt =====
-- Sessions of http_server/httpserver.cpp that get all their requests answered.
use mathlib.Core.List.{append-nil, append_assoc}
use da_gis_service.Common.{◌≡◌, refl, ◌∙◌, Bool, false, none, List, [], ◌∷◌, ◌++◌, map, Bytes}
use da_gis_service.Outcome.{ret}
use da_gis_service.Jwt.{JwtCpp}
use da_gis_service.Json.{BoostJson}
use da_gis_service.Api.{Request, Server, Clock}
use da_gis_service.HttpResponse.{Response, Opened}
use da_gis_service.Http.{handle_request}
use da_gis_service.Http.Connection.{
  reading, HttpSession, request, fresh, do_read, on_write, send_lambda, send_answer, on_read,
}
use da_gis_service.Http.Connection.Ordered.{Run, begin, reads, writes}

module _ (need_eof : Response → Bool) (beast_version : Bytes) (open_file : Bytes → Opened)
    (jwt : JwtCpp) (js : BoostJson) (doc_root : Bytes) where
  abbrev Here : List Request → HttpSession → Server → Type 0
  Here = Run need_eof beast_version open_file jwt js doc_root

  -- handle_request answers each of the requests, one after the other, with these responses, all of which leave
  -- the connection open, and leads from the first of the states to the second.
  abbrev pub Serves : List (Clock × Request) → Server → List Response → Server → Type 0
  Serves [] s msgs s' = (msgs ≡ []) × (s ≡ s')
  Serves (asked ∷ more) s [] s' = ⊥
  Serves ((clock, req) ∷ more) s (msg ∷ msgs) s' =
      (need_eof msg ≡ false)
      × (mid : Server) × (handle_request beast_version open_file jwt js doc_root clock req s
          ≡ (ret msg, mid))
      × Serves more mid msgs s'

  -- The session after it has got a response out that leaves the connection open.
  abbrev after_response : Response → HttpSession → HttpSession
  after_response msg c = on_write (need_eof msg) none (send_lambda need_eof msg c)

  one_exchange :
      (reqs : List Request) (c : HttpSession) (s mid : Server) (clock : Clock) (req : Request)
      (msg : Response)
      → Here reqs c s
      → c.pending ≡ reading
      → handle_request beast_version open_file jwt js doc_root clock req s ≡ (ret msg, mid)
      → Here (reqs ++ req ∷ []) (after_response msg c) mid
  unfolding on_read send_answer send_lambda
  one_exchange reqs c s mid clock req msg run can handled =
      let answered : on_read need_eof beast_version open_file jwt js doc_root (request clock req) c
            s
          ≡ (ret (send_lambda need_eof msg c), mid) =
        rw handled refl in
      writes (reads run can (request clock req) answered) (need_eof msg) refl none

  -- The session waits for the next request, with the response written after those before.
  after_response-waits :
      (msg : Response) (c : HttpSession)
      → need_eof msg ≡ false
      → ((after_response msg c).pending ≡ reading)
        × ((after_response msg c).written ≡ c.written ++ msg ∷ [])
  unfolding on_write send_lambda do_read
  after_response-waits msg c keeps = rw keeps (refl, refl)

  -- A session that has read these requests, written these responses, and waits for the next request.
  pub record IsServed (reqs : List Request) (msgs : List Response) (s : Server) : Type 0 where
    pub session : HttpSession
    pub reached : Here reqs session s
    pub waits : session.pending ≡ reading
    pub responses : session.written ≡ msgs

  serve_more :
      (reqs : List Request) (c : HttpSession) (s s' : Server) (asked : List (Clock × Request))
      (msgs : List Response)
      → Here reqs c s
      → c.pending ≡ reading
      → Serves asked s msgs s'
      → IsServed (reqs ++ map (λ (a : Clock × Request). a.1) asked) (c.written ++ msgs) s'
  serve_more reqs c s s' [] msgs run can (none_left, same) = record {
    session = c;
    reached = rw (append-nil reqs, ← same) run;
    waits = can;
    responses = rw (none_left, append-nil c.written) refl;
  }
  serve_more reqs c s s' (a ∷ asked) [] run can h = elim h [ ]
  serve_more reqs c s s' ((clock, req) ∷ asked) (msg ∷ msgs) run can (keeps, mid, handled, h) =
      let after = after_response-waits msg c keeps in
      let rest =
        serve_more (reqs ++ req ∷ []) (after_response msg c) mid s' asked msgs
          (one_exchange reqs c s mid clock req msg run can handled) after.0 h in
      record {
        session = rest.session;
        reached =
            rw (append_assoc reqs (req ∷ []) (map (λ (a : Clock × Request). a.1) asked)) at
              rest.reached;
        waits = rest.waits;
        responses = rest.responses ∙ rw after.1 (append_assoc c.written (msg ∷ []) msgs);
      }

  -- If handle_request answers each of some requests and all the responses leave the connection open, then a
  -- new session has a run that reads these requests, writes exactly these responses, in this order, and ends
  -- waiting for the next request.
  pub Serves-IsServed :
      (asked : List (Clock × Request)) (s s' : Server) (msgs : List Response)
      → Serves asked s msgs s'
      → IsServed (map (λ (a : Clock × Request). a.1) asked) msgs s'
  unfolding do_read
  Serves-IsServed asked s s' msgs h = serve_more [] (do_read fresh) s s' asked msgs (begin s) refl h
