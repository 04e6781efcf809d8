-- ===== src/Http/Listener/Tests.antt =====
-- A listener of http_server/httpserver.cpp that cannot bind its port.
use da_gis_service.Common.{◌≡◌, refl, none, some, List, [], ◌∷◌, bytes}
use da_gis_service.Http.Listener.{
  Listener, Setup, AcceptEnd, failed, accepted, listen_step, bind_step, set_option_step, listener,
  do_accept, run, launch, on_accept,
}
use da_gis_service.Http.Listener.Launched.{Run, begin, accepts, IsServing, Run-IsServing}

abbrev bind_fails : Setup
bind_fails = record {
  open_error = none;
  set_option_error = none;
  bind_error = some (bytes "in use");
  listen_error = none;
}

abbrev twice : Listener
twice = on_accept (accepted 7) (on_accept (failed (bytes "closed")) (run (listener bind_fails)))

code : Unit {0}
unfolding listener set_option_step bind_step listen_step do_accept run launch on_accept
code = tt

listener_run :
    (twice.launched ≡ 7 ∷ [])
    × (twice.errors ≡ (bytes "bind", bytes "in use") ∷ (bytes "accept", bytes "closed") ∷ [])
unfolding code
listener_run = (refl, refl)

abbrev ends : List AcceptEnd
ends = failed (bytes "closed") ∷ accepted 7 ∷ []

two_accepts : Run bind_fails ends twice
unfolding code
two_accepts = accepts (accepts begin refl (failed (bytes "closed"))) refl (accepted 7)

Run-IsServing_example : IsServing bind_fails ends twice
Run-IsServing_example = Run-IsServing two_accepts
