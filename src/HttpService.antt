-- ===== src/HttpService.antt =====
-- The server of http_server/httpserver.cpp as a whole: the listener that main starts, the sessions that it
-- launches, and the users and the request context that all of them share. An exception that leaves a handler
-- ends the server, so that no state follows it.
pub mod Exchanges
pub mod Sound
pub mod Secret
mod Tests
use da_gis_service.Common.{
  ℕ, zero, suc, ◌≡◌, Bool, true, false, Option, none, some, List, [], ◌∷◌, ◌++◌, ◌⊎◌, Bytes,
}
use da_gis_service.Outcome.{Outcome, ret, raise}
use da_gis_service.Jwt.{JwtCpp}
use da_gis_service.Json.{BoostJson}
use da_gis_service.Api.{Request, Server, Clock, initial_server}
use da_gis_service.HttpResponse.{Response, Opened}
use da_gis_service.Http.Listener.{
  Listener, Setup, AcceptEnd, failed, accepted, listener, run, on_accept,
}
use da_gis_service.Http.Connection.{
  reading, writing, HttpSession, ReadEnd, fresh, do_read, on_read, on_write,
}
use da_gis_service.Http.Connection.Moments.{Moment, moments_at}

-- A session with the moments at which it has read a request.
pub record Connection : Type 0 where
  pub asked : List Moment
  pub session : HttpSession

pub record World : Type 0 where
  pub listener : Listener
  pub connections : List Connection
  pub server : Server

abbrev pub connection : List Moment → HttpSession → Connection
connection asked session = record { asked = asked; session = session }

abbrev pub world : Listener → List Connection → Server → World
world l connections server = record { listener = l; connections = connections; server = server }

-- A session as session::run leaves it.
abbrev pub new_connection : Connection
new_connection = connection [] (do_read fresh)

-- main, up to ioc.run
abbrev pub started : Setup → World
started setup = world (run (listener setup)) [] initial_server

-- The sessions after an accept.
abbrev pub connect : AcceptEnd → List Connection → List Connection
connect (failed message) connections = connections
connect (accepted socket) connections = connections ++ new_connection ∷ []

module _ (need_eof : Response → Bool) (beast_version : Bytes) (open_file : Bytes → Opened)
    (jwt : JwtCpp) (js : BoostJson) (doc_root : Bytes) (setup : Setup) where
  -- The states that the server reaches. Each step is one handler that ioc.run calls.
  pub data Serving : World → Type 0 where
    begin : Serving (started setup)
    accepts :
        {l : Listener} {connections : List Connection} {s : Server}
        → Serving (world l connections s)
        → l.is_accepting ≡ true
        → (end : AcceptEnd) → Serving (world (on_accept end l) (connect end connections) s)
    reads :
        (earlier later : List Connection) (asked : List Moment) (c : HttpSession) (c' : HttpSession)
        {l : Listener} {s s' : Server}
        → Serving (world l (earlier ++ connection asked c ∷ later) s)
        → c.pending ≡ reading
        → (end : ReadEnd)
        → on_read need_eof beast_version open_file jwt js doc_root end c s ≡ (ret c', s')
        → Serving (world l (earlier ++ connection (asked ++ moments_at end s s') c' ∷ later) s')
    writes :
        (earlier later : List Connection) (asked : List Moment) (c : HttpSession)
        → {l : Listener} {s : Server} → Serving (world l (earlier ++ connection asked c ∷ later) s)
        → (close : Bool) → c.pending ≡ writing close
        → (ec : Option Bytes)
        → Serving (world l (earlier ++ connection asked (on_write close ec c) ∷ later) s)

  -- A state that the server was in on its way to this one, or is in.
  abbrev pub Was : {w : World} → Serving w → Server → Type 0
  Was begin t = t ≡ initial_server
  Was (accepts before can end) t = Was before t
  Was (reads earlier later asked c c' {l} {s} {s'} before can end q) t = (t ≡ s') ⊎ Was before t
  Was (writes earlier later asked c before close can ec) t = Was before t
