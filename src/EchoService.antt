-- ===== src/EchoService.antt =====
-- The server of websocket_srv/webserver.cpp as a whole: its listener, in the same words as that of
-- http_server/httpserver.cpp, and the sessions that it launches.
pub mod Sound
mod Tests
use da_gis_service.Common.{◌≡◌, true, Option, List, [], ◌∷◌, ◌++◌, Bytes, bytes}
use da_gis_service.Http.Listener.{
  Listener, Setup, AcceptEnd, failed, accepted, listener, run, on_accept,
}
use da_gis_service.EchoServer as EchoServer
use da_gis_service.EchoServer.{accepting, reading, writing, Message, EchoSession, ReadEnd, on_run}
use da_gis_service.EchoServer.Echoes.{echoes_of, failures_of, failure}

-- A session with the messages to echo and the failures of its handlers so far.
pub record Member : Type 0 where
  pub sent : List Message
  pub lost : List (Bytes × Bytes)
  pub session : EchoSession

pub record EchoWorld : Type 0 where
  pub listener : Listener
  pub members : List Member

abbrev pub member : List Message → List (Bytes × Bytes) → EchoSession → Member
member sent lost session = record { sent = sent; lost = lost; session = session }

abbrev pub echo_world : Listener → List Member → EchoWorld
echo_world l members = record { listener = l; members = members }

-- `std::make_shared<CWSSession>(std::move(socket))->run()`
abbrev pub new_member : Member
new_member = member [] [] on_run

-- listener::listener and listener::run of websocket_srv/webserver.cpp, as main calls them
unfoldable pub websocket_listener : Setup → EchoWorld
websocket_listener setup = echo_world (run (listener setup)) []

-- The sessions after an accept.
abbrev pub launch_session : AcceptEnd → List Member → List Member
launch_session (failed message) members = members
launch_session (accepted socket) members = members ++ new_member ∷ []

-- listener::on_accept of websocket_srv/webserver.cpp
unfoldable pub websocket_on_accept : AcceptEnd → EchoWorld → EchoWorld
websocket_on_accept end w = echo_world (on_accept end w.listener) (launch_session end w.members)

-- A handler of a session.
pub data Handles : Member → Member → Type 0 where
  accepts :
      {sent : List Message} {lost : List (Bytes × Bytes)} {c : EchoSession}
      → c.pending ≡ accepting
      → (ec : Option Bytes)
      → Handles
          (member sent lost c)
          (member sent (lost ++ failure (bytes "accept") ec) (EchoServer.on_accept ec c))
  reads :
      {sent : List Message} {lost : List (Bytes × Bytes)} {c : EchoSession}
      → c.pending ≡ reading
      → (end : ReadEnd)
      → Handles
          (member sent lost c)
          (member (sent ++ echoes_of end) (lost ++ failures_of end) (EchoServer.on_read end c))
  writes :
      {sent : List Message} {lost : List (Bytes × Bytes)} {c : EchoSession}
      → c.pending ≡ writing
      → (ec : Option Bytes)
      → Handles
          (member sent lost c)
          (member sent (lost ++ failure (bytes "write") ec) (EchoServer.on_write ec c))

-- The states that the server reaches, each step one handler that ioc.run calls.
pub data EchoServing (setup : Setup) : EchoWorld → Type 0 where
  begin : EchoServing setup (websocket_listener setup)
  launches :
      {w : EchoWorld}
      → EchoServing setup w
      → w.listener.is_accepting ≡ true
      → (end : AcceptEnd) → EchoServing setup (websocket_on_accept end w)
  handles :
      (earlier later : List Member) (m m' : Member) {l : Listener}
      → EchoServing setup (echo_world l (earlier ++ m ∷ later))
      → Handles m m'
      → EchoServing setup (echo_world l (earlier ++ m' ∷ later))
