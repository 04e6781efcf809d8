-- ===== src/Http/Connection/Moments.antt =====
-- The moments at which a session of http_server/httpserver.cpp reads a request: the request with the users and
-- the context as they are then, and as the answer leaves them.
use mathlib.Core.List.{map-append}
use da_gis_service.Common.{ℕ, zero, suc, ◌≡◌, some, List, [], ◌∷◌, ◌++◌, map, Bytes, get_elem?}
use da_gis_service.Outcome.{ret}
use da_gis_service.Jwt.{JwtCpp}
use da_gis_service.Json.{BoostJson}
use da_gis_service.Api.{Request, Server, Clock}
use da_gis_service.HttpResponse.{Response, Opened}
use da_gis_service.Http.{handle_request}
use da_gis_service.Http.Connection.{ReadEnd, request, end_of_stream, read_error}

-- The request that a read ends with, if any.
abbrev pub requests_of : ReadEnd → List Request
requests_of (request clock req) = req ∷ []
requests_of _ = []

-- `before` is the state in which the read ended, and `after` that in which its handler left it.
pub record Moment : Type 0 where
  pub clock : Clock
  pub asked_for : Request
  pub before : Server
  pub after : Server

-- The moment of a read, if it ends with a request.
abbrev pub moments_at : ReadEnd → (before after : Server) → List Moment
moments_at (request clock req) s s' =
    record { clock = clock; asked_for = req; before = s; after = s' } ∷ []
moments_at _ s s' = []

abbrev pub requests : List Moment → List Request
requests moments = map (λ (m : Moment). m.asked_for) moments

pub requests-moments_at :
    (moments : List Moment) (end : ReadEnd) (s s' : Server)
    → requests (moments ++ moments_at end s s') ≡ requests moments ++ requests_of end
requests-moments_at moments (request clock req) s s' = simp map-append
requests-moments_at moments end_of_stream s s' = simp map-append
requests-moments_at moments (read_error message) s s' = simp map-append

module _ (beast_version : Bytes) (open_file : Bytes → Opened) (jwt : JwtCpp) (js : BoostJson)
    (doc_root : Bytes) where
  -- The response is that of handle_request to the request, in the state of that moment.
  abbrev pub IsAnswer : Moment → Response → Type 0
  IsAnswer m msg =
      handle_request beast_version open_file jwt js doc_root m.clock m.asked_for m.before
      ≡ (ret msg, m.after)

  -- As many responses as moments, each the answer to the one at its place.
  abbrev pub Answered : List Moment → List Response → Type 0
  Answered [] [] = Unit
  Answered (m ∷ moments) (msg ∷ msgs) = IsAnswer m msg × Answered moments msgs
  Answered _ _ = ⊥

  pub snoc-Answered :
      (moments : List Moment) (msgs : List Response) (m : Moment) (msg : Response)
      → Answered moments msgs
      → IsAnswer m msg
      → Answered (moments ++ m ∷ []) (msgs ++ msg ∷ [])
  snoc-Answered [] [] m msg h e = (e, tt)
  snoc-Answered [] (n ∷ msgs) m msg h e = elim h [ ]
  snoc-Answered (n ∷ moments) [] m msg h e = elim h [ ]
  snoc-Answered (n ∷ moments) (other ∷ msgs) m msg (first, h) e =
      (first, snoc-Answered moments msgs m msg h e)

  pub Answered-get_elem? :
      (moments : List Moment) (msgs : List Response) (i : ℕ) (m : Moment) (msg : Response)
      → Answered moments msgs
      → get_elem? moments i ≡ some m
      → get_elem? msgs i ≡ some msg
      → IsAnswer m msg
  Answered-get_elem? [] msgs i m msg h e f = absurd cc
  Answered-get_elem? (n ∷ moments) [] i m msg h e f = elim h [ ]
  Answered-get_elem? (n ∷ moments) (other ∷ msgs) zero m msg (first, h) e f =
      let same_moment : n ≡ m = cc in
      let same_response : other ≡ msg = cc in rw (← same_moment, ← same_response) first
  Answered-get_elem? (n ∷ moments) (other ∷ msgs) (suc i) m msg (first, h) e f =
      Answered-get_elem? moments msgs i m msg h e f
