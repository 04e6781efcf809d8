-- ===== src/EchoClient/Script.antt =====
-- spawn_client of wxUI/websocket_client.cpp against the list of what it is to do.
use da_gis_service.Common.{◌≡◌, refl, Option, none, some, List, [], ◌∷◌, ◌++◌, Bytes, bytes, c_str}
use da_gis_service.EchoClient.{
  idle, Operation, resolve, connect, handshake, write, read, close, ClientSession, Results, run,
  on_resolve, on_connect, on_handshake, on_write, on_read, on_close, complete, run_handlers,
  spawn_client,
}

-- A step of the script: an operation, its name, and the error that it ends with, if any.
abbrev pub Step : Type 0
Step = Operation × Bytes × Option Bytes

-- All that the client is to do.
abbrev pub script : Results → (host port text : Bytes) → List Step
script r host port text =
    (resolve host port, bytes "resolve", r.resolve_error)
    ∷ (connect, bytes "connect", r.connect_error)
    ∷ (handshake (host ++ b':' ∷ r.port) (bytes "/"), bytes "handshake", r.handshake_error)
    ∷ (write text, bytes "write", r.write_error)
    ∷ (read, bytes "read", r.read_error)
    ∷ (close, bytes "close", r.close_error)
    ∷ []

-- A script is followed up to and with the first error.
abbrev pub follow : List Step → List Operation × List (Bytes × Bytes)
follow [] = ([], [])
follow ((operation, what, some message) ∷ steps) = (operation ∷ [], (what, message) ∷ [])
follow ((operation, what, none) ∷ steps) = let rest = follow steps in (operation ∷ rest.0, rest.1)

abbrev pub history : ClientSession → List Operation × List (Bytes × Bytes)
history c = (c.started, c.errors)

abbrev results : (a b c d e f : Option Bytes) (port message : Bytes) → Results
results a b c d e f port message = record {
  resolve_error = a;
  connect_error = b;
  port = port;
  handshake_error = c;
  write_error = d;
  read_error = e;
  message = message;
  close_error = f;
}

follow-run :
    (a b c d e f : Option Bytes) (port message host service text : Bytes)
    → let end = run_handlers 6 (results a b c d e f port message) (run host service text) in
      (history end ≡ follow (script (results a b c d e f port message) host service text))
      × (end.pending ≡ idle)
unfolding run_handlers run complete on_resolve on_connect on_handshake on_write on_read on_close
follow-run (some _) b c d e f port message host service text = (refl, refl)
follow-run none (some _) c d e f port message host service text = (refl, refl)
follow-run none none (some _) d e f port message host service text = (refl, refl)
follow-run none none none (some _) e f port message host service text = (refl, refl)
follow-run none none none none (some _) f port message host service text = (refl, refl)
follow-run none none none none none (some _) port message host service text = (refl, refl)
follow-run none none none none none none port message host service text = (refl, refl)

-- spawn_client starts the operations resolve, connect, handshake (with host and port of the other end),
-- write (of the text), read and close in this order, up to the first that fails; it reports that failure
-- and no other; and after at most six handlers it waits for nothing. Each text ends at its first NUL.
pub spawn_client-follow :
    (r : Results) (host port text : Bytes)
    → (history (spawn_client r host port text)
        ≡ follow (script r (c_str host) (c_str port) (c_str text)))
      × ((spawn_client r host port text).pending ≡ idle)
unfolding spawn_client
spawn_client-follow r host port text =
    follow-run r.resolve_error r.connect_error r.handshake_error r.write_error r.read_error
      r.close_error r.port r.message (c_str host) (c_str port) (c_str text)
