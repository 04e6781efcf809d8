-- ===== src/EchoClient.antt =====
-- wxUI/websocket_client.cpp: a client that sends one text over a WebSocket, reads one message and
-- closes. The network is seen as the way each operation ends.
pub mod Script
mod Tests
use da_gis_service.Common.{
  ℕ, zero, suc, ◌≡◌, Option, none, some, List, [], ◌∷◌, ◌++◌, Bytes, bytes, c_str,
}

-- The operation that the session waits for.
pub data Pending : Type 0 where
  idle resolving connecting handshaking writing reading closing : Pending

-- The operations that it starts, with what they are given.
pub data Operation : Type 0 where
  resolve : (host port : Bytes) → Operation
  connect : Operation
  handshake : (host target : Bytes) → Operation
  write : (text : Bytes) → Operation
  read : Operation
  close : Operation

-- CWSSession; `started` and `errors` are the operations it started and what it gave to `fail`, in order.
pub record ClientSession : Type 0 where
  pub pending : Pending
  pub host : Bytes
  pub text : Bytes
  pub buffer : Bytes
  pub started : List Operation
  pub errors : List (Bytes × Bytes)

-- How each operation ends, if it is started: with the message of an error, or none. A connection also has the
-- port of its other end, in decimals, and a read the bytes of a message.
pub record Results : Type 0 where
  pub resolve_error : Option Bytes
  pub connect_error : Option Bytes
  pub port : Bytes
  pub handshake_error : Option Bytes
  pub write_error : Option Bytes
  pub read_error : Option Bytes
  pub message : Bytes
  pub close_error : Option Bytes

-- An asynchronous call.
abbrev pub start : Operation → Pending → ClientSession → ClientSession
start operation pending c = record c { pending = pending; started = c.started ++ operation ∷ [] }

-- `return fail(ec, what)`
abbrev pub fail : (message what : Bytes) → ClientSession → ClientSession
fail message what c = record c { pending = idle; errors = c.errors ++ (what, message) ∷ [] }

-- CWSSession::run on a new session.
unfoldable pub run : (host port text : Bytes) → ClientSession
run host port text = record {
  pending = resolving;
  host = host;
  text = text;
  buffer = [];
  started = resolve host port ∷ [];
  errors = [];
}

unfoldable pub on_resolve : (ec : Option Bytes) → ClientSession → ClientSession
on_resolve (some message) c = fail message (bytes "resolve") c
on_resolve none c = start connect connecting c

unfoldable pub on_connect : (ec : Option Bytes) (port : Bytes) → ClientSession → ClientSession
on_connect (some message) port c = fail message (bytes "connect") c
on_connect none port c =
    let host = c.host ++ b':' ∷ port in
    start (handshake host (bytes "/")) handshaking (record c { host = host })

unfoldable pub on_handshake : (ec : Option Bytes) → ClientSession → ClientSession
on_handshake (some message) c = fail message (bytes "handshake") c
on_handshake none c = start (write c.text) writing c

unfoldable pub on_write : (ec : Option Bytes) → ClientSession → ClientSession
on_write (some message) c = fail message (bytes "write") c
on_write none c = start read reading c

unfoldable pub on_read : (ec : Option Bytes) → ClientSession → ClientSession
on_read (some message) c = fail message (bytes "read") c
on_read none c = start close closing c

unfoldable pub on_close : (ec : Option Bytes) → ClientSession → ClientSession
on_close (some message) c = fail message (bytes "close") c
on_close none c = record c { pending = idle }

-- The handler of the pending operation, called with its end; a read fills the buffer.
unfoldable pub complete : Pending → Results → ClientSession → ClientSession
complete idle r c = c
complete resolving r c = on_resolve r.resolve_error c
complete connecting r c = on_connect r.connect_error r.port c
complete handshaking r c = on_handshake r.handshake_error c
complete writing r c = on_write r.write_error c
complete reading r c = on_read r.read_error (record c { buffer = c.buffer ++ r.message })
complete closing r c = on_close r.close_error c

-- `ioc.run()`, for a number of handlers.
unfoldable pub run_handlers : ℕ → Results → ClientSession → ClientSession
run_handlers zero r c = c
run_handlers (suc n) r c = run_handlers n r (complete c.pending r c)

-- spawn_client; no session has more than six handlers.
unfoldable pub spawn_client : Results → (host port text : Bytes) → ClientSession
spawn_client r host port text = run_handlers 6 r (run (c_str host) (c_str port) (c_str text))
