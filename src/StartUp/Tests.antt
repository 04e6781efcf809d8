-- ===== src/StartUp/Tests.antt =====
-- Starts of the two servers, http_server/httpserver.cpp and websocket_srv/webserver.cpp.
use da_gis_service.Common.{◌≡◌, refl, none, List, [], ◌∷◌, Bytes, bytes, c_str, arith}
use da_gis_service.Numerals.{
  digits_value, signed_value, skip_spaces, to_int, to_long, atoi, to_unsigned,
}
use da_gis_service.Verify.{digits}
use da_gis_service.Http.Listener.{Setup}
use da_gis_service.EchoService.{EchoWorld, websocket_listener}
use da_gis_service.HttpService.{World, started}
use da_gis_service.StartUp.{
  ioc_run, Running, runs, max_1, emplace_threads, port_of, threads_of, run_threads, http_main,
  websocket_main,
}
use da_gis_service.StartUp.Threads.{runners, main-to_string}

code : Unit {0}
unfolding http_main websocket_main run_threads emplace_threads port_of threads_of max_1 to_int
    to_long atoi to_unsigned signed_value skip_spaces digits_value digits c_str
code = tt

abbrev setup : Setup
setup = record {
  open_error = none;
  set_option_error = none;
  bind_error = none;
  listen_error = none;
}

abbrev arguments : List Bytes
arguments = bytes "http_server" ∷ bytes "8080" ∷ bytes "." ∷ bytes "3" ∷ []

abbrev three : Running (Bytes × World)
three = record {
  port = 8080;
  concurrency_hint = 3;
  v = ioc_run ∷ ioc_run ∷ [];
  state = (bytes ".", started setup);
}

-- Ports above 2^16 and below 0 wrap around; a negative number of threads is one.
start_run :
    (http_main setup arguments ≡ runs three)
    × (port_of (bytes "73616") ≡ 8080)
    × (port_of (bytes " -1x") ≡ 65535)
    × (threads_of (bytes "-4") ≡ 1)
    × (threads_of (bytes "many") ≡ 1)
unfolding code
start_run = (refl, refl, refl, refl, refl)

main-to_string_example :
    ((r : Running (Bytes × World)) × (http_main setup arguments ≡ runs r)
      × (r.port ≡ 8080)
      × (runners r ≡ 3)
      × (r.state ≡ (bytes ".", started setup)))
    × ((r : Running EchoWorld) × (websocket_main setup
            (bytes "http_server" ∷ bytes "8080" ∷ bytes "3" ∷ [])
          ≡ runs r)
        × (r.port ≡ 8080)
        × (runners r ≡ 3)
        × (r.state ≡ websocket_listener setup))
unfolding code
main-to_string_example =
    main-to_string setup (bytes "http_server") (bytes ".") 8080 3 (omega arith) (omega arith)
      (omega arith)
