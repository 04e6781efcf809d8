-- ===== src/EchoClient/Tests.antt =====
-- A call of spawn_client of wxUI/websocket_client.cpp that fails at the read.
use da_gis_service.Common.{◌≡◌, refl, none, some, [], ◌∷◌, bytes, c_str}
use da_gis_service.EchoClient.{
  idle, ClientSession, Results, run, on_resolve, on_connect, on_handshake, on_write, on_read,
  on_close, complete, run_handlers, spawn_client,
}
use da_gis_service.EchoClient.Script.{script, follow, history, spawn_client-follow}

abbrev read_fails : Results
read_fails = record {
  resolve_error = none;
  connect_error = none;
  port = bytes "8088";
  handshake_error = none;
  write_error = none;
  read_error = some (bytes "reset");
  message = [];
  close_error = none;
}

abbrev called : ClientSession
called = spawn_client read_fails (bytes "localhost") (bytes "8088") (bytes "hi")

client_run :
    (called.errors ≡ (bytes "read", bytes "reset") ∷ []) × (called.host ≡ bytes "localhost:8088")
unfolding spawn_client run_handlers run complete on_resolve on_connect on_handshake on_write on_read
    on_close c_str
client_run = (refl, refl)

spawn_client-follow_example :
    (history called
      ≡ follow (
          script read_fails
            (c_str (bytes "localhost"))
            (c_str (bytes "8088"))
            (c_str (bytes "hi"))))
    × (called.pending ≡ idle)
spawn_client-follow_example =
    spawn_client-follow read_fails (bytes "localhost") (bytes "8088") (bytes "hi")
