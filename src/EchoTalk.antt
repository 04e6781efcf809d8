-- ===== src/EchoTalk.antt =====
-- The client of wxUI/websocket_client.cpp in conversation with a session of websocket_srv/webserver.cpp.
-- A message that one has begun to write arrives at the other whole, once and in order, or not at all.
pub mod Messages
pub mod Client
pub mod Heard
pub mod Ends
mod Tests
use da_gis_service.Common.{◌≡◌, Bool, true, false, Option, none, some, List, [], ◌∷◌, ◌++◌, Bytes}
use da_gis_service.EchoClient
use da_gis_service.EchoClient.{
  Pending, idle, resolving, connecting, handshaking, writing, reading, closing, Operation, resolve,
  connect, handshake, write, read, close, ClientSession, Results, run, complete,
}
use da_gis_service.EchoServer
use da_gis_service.EchoServer.{Message, EchoSession, message, closed, on_run, on_accept}

-- The messages that a client has begun to write; a stream sends text unless told otherwise.
unfoldable pub sent_of : List Operation → List Message
sent_of [] = []
sent_of (resolve _ _ ∷ started) = sent_of started
sent_of (connect ∷ started) = sent_of started
sent_of (handshake _ _ ∷ started) = sent_of started
sent_of (write text ∷ started) = (true, text) ∷ sent_of started
sent_of (read ∷ started) = sent_of started
sent_of (close ∷ started) = sent_of started

-- The states of both after the client was called, with the messages that the server and the client have read.
-- Each operation may fail, but for the reads.
pub data Talk (host port text : Bytes)
    : (seen heard : List Message) → ClientSession → EchoSession → Type 0 where
  calls : Talk host port text [] [] (run host port text) on_run
  goes_on :
      {seen heard : List Message} {c : ClientSession} {e : EchoSession}
      → Talk host port text seen heard c e
      → (p : Pending) (r : Results) → c.pending ≡ p
      → ¬ (p ≡ reading)
      → Talk host port text seen heard (complete p r c) e
  hears :
      {seen heard : List Message} {c : ClientSession} {e : EchoSession} (m : Message)
      (rest : List Message)
      → Talk host port text seen heard c e
      → c.pending ≡ reading
      → heard ++ m ∷ rest ≡ e.written
      → Talk host port text seen
          (heard ++ m ∷ [])
          (EchoClient.on_read none (record c { buffer = c.buffer ++ m.1 }))
          e
  accepts :
      {seen heard : List Message} {c : ClientSession} {e : EchoSession} (ec : Option Bytes)
      → Talk host port text seen heard c e
      → e.pending ≡ EchoServer.accepting
      → Talk host port text seen heard c (on_accept ec e)
  sees :
      {seen heard : List Message} {c : ClientSession} {e : EchoSession} (m : Message)
      (rest : List Message)
      → Talk host port text seen heard c e
      → e.pending ≡ EchoServer.reading
      → seen ++ m ∷ rest ≡ sent_of c.started
      → Talk host port text (seen ++ m ∷ []) heard c (EchoServer.on_read (message m.0 m.1) e)
  is_closed :
      {seen heard : List Message} {c : ClientSession} {e : EchoSession}
      → Talk host port text seen heard c e
      → e.pending ≡ EchoServer.reading
      → c.pending ≡ closing
      → Talk host port text seen heard c (EchoServer.on_read closed e)
  answers :
      {seen heard : List Message} {c : ClientSession} {e : EchoSession} (ec : Option Bytes)
      → Talk host port text seen heard c e
      → e.pending ≡ EchoServer.writing
      → Talk host port text seen heard c (EchoServer.on_write ec e)
