-- ===== src/Http/Listener.antt =====
-- class listener of http_server/httpserver.cpp, and in the same words of websocket_srv/webserver.cpp:
-- it sets up an acceptor and launches a session for each connection. Sockets are numbers.
pub mod Launched
mod Tests
use da_gis_service.Common.{
  ℕ, Bool, true, false, Option, none, some, List, [], ◌∷◌, ◌++◌, Bytes, bytes,
}

-- `launched` are the sockets that sessions were made for, and `errors` what was given to `fail`.
pub record Listener : Type 0 where
  pub is_accepting : Bool
  pub launched : List ℕ
  pub errors : List (Bytes × Bytes)

-- How the calls that set up the acceptor end: each with the message of an error, or none.
pub record Setup : Type 0 where
  pub open_error : Option Bytes
  pub set_option_error : Option Bytes
  pub bind_error : Option Bytes
  pub listen_error : Option Bytes

-- How an accept ends.
pub data AcceptEnd : Type 0 where
  failed : (message : Bytes) → AcceptEnd
  accepted : (socket : ℕ) → AcceptEnd

abbrev pub with_errors : List (Bytes × Bytes) → Listener
with_errors errors = record { is_accepting = false; launched = []; errors = errors }

-- The constructor, from `acceptor_.listen` on, and from each of the calls before it on.
unfoldable pub listen_step : Setup → Listener
listen_step s = elim s.listen_error [
  | some message ↦ with_errors ((bytes "listen", message) ∷ [])
  | none ↦ with_errors []
]

unfoldable pub bind_step : Setup → Listener
bind_step s = elim s.bind_error [
  | some message ↦ with_errors ((bytes "bind", message) ∷ [])
  | none ↦ listen_step s
]

unfoldable pub set_option_step : Setup → Listener
set_option_step s = elim s.set_option_error [
  | some message ↦ with_errors ((bytes "set_option", message) ∷ [])
  | none ↦ bind_step s
]

-- listener::listener
unfoldable pub listener : Setup → Listener
listener s = elim s.open_error [
  | some message ↦ with_errors ((bytes "open", message) ∷ [])
  | none ↦ set_option_step s
]

-- do_accept
unfoldable pub do_accept : Listener → Listener
do_accept l = record l { is_accepting = true }

-- run
unfoldable pub run : Listener → Listener
run l = do_accept l

-- The body of on_accept before the next accept.
unfoldable pub launch : AcceptEnd → Listener → Listener
launch (failed message) l = record l { errors = l.errors ++ (bytes "accept", message) ∷ [] }
launch (accepted socket) l = record l { launched = l.launched ++ socket ∷ [] }

-- on_accept
unfoldable pub on_accept : AcceptEnd → Listener → Listener
on_accept end l = do_accept (launch end l)
