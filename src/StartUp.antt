-- ===== src/StartUp.antt =====
-- main of http_server/httpserver.cpp and of websocket_srv/webserver.cpp, up to the call `ioc.run()` of the
-- main thread. The program's arguments are C strings; the set-up of the logging library is left out.
pub mod Threads
mod Tests
use da_gis_service.Common.{
  ℕ, zero, suc, ◌-◌, ◌+◌, ◌≡◌, List, [], ◌∷◌, ◌++◌, Bytes, bytes, length, c_str, ◌==◌, not,
  if◌then◌else◌,
}
use da_gis_service.Numerals.{ℤ, pos, negsuc, to_unsigned, atoi}
use da_gis_service.Http.Listener.{Setup}
use da_gis_service.EchoService.{EchoWorld, websocket_listener}
use da_gis_service.HttpService.{World, started}

-- What a thread of the vector `v` does.
pub data Thread : Type 0 where
  ioc_run : Thread

-- The port, the number given to the io_context, the threads of `v`, and what main has started on them.
pub record Running {ℓ} (A : Type ℓ) : Type ℓ where
  pub port : ℕ
  pub concurrency_hint : ℕ
  pub v : List Thread
  pub state : A

-- How main comes to an end, or to `ioc.run()`: `usage` prints a text and returns EXIT_FAILURE.
pub data Main {ℓ} (A : Type ℓ) : Type ℓ where
  usage : (text : Bytes) → Main A
  runs : Running A → Main A

-- `std::max<int>(1, n)`
unfoldable pub max_1 : ℤ → ℕ
max_1 (pos zero) = 1
max_1 (pos (suc n)) = suc n
max_1 (negsuc n) = 1

-- The loop `for(auto i = threads - 1; i > 0; --i)` with the threads in `v`.
unfoldable pub emplace_threads : (i : ℕ) → List Thread → List Thread
emplace_threads zero v = v
emplace_threads (suc i) v = emplace_threads i (v ++ ioc_run ∷ [])

-- `static_cast<unsigned short>(std::atoi(argument))`
unfoldable pub port_of : Bytes → ℕ
port_of argument = to_unsigned 16 (atoi argument)

-- `std::max<int>(1, std::atoi(argument))`
unfoldable pub threads_of : Bytes → ℕ
threads_of argument = max_1 (atoi argument)

-- From the io_context to `ioc.run()`, for either server.
unfoldable pub run_threads {ℓ} : {A : Type ℓ} → (port threads : ℕ) → A → Running A
run_threads port threads state = record {
  port = port;
  concurrency_hint = threads;
  v = emplace_threads (threads - 1) [];
  state = state;
}

-- main of http_server/httpserver.cpp; its state is the root of the documents and the server.
unfoldable pub http_main : Setup → List Bytes → Main (Bytes × World)
http_main setup (program ∷ port ∷ doc_root ∷ threads ∷ []) =
    runs (run_threads (port_of port) (threads_of threads) (c_str doc_root, started setup))
http_main setup argv =
    usage
      (bytes "Usage: http_server <port> <doc_root> <threads>\nExample:\n    http_server 8080 . 1\n")

-- main of websocket_srv/webserver.cpp
unfoldable pub websocket_main : Setup → List Bytes → Main EchoWorld
websocket_main setup (program ∷ port ∷ threads ∷ []) =
    runs (run_threads (port_of port) (threads_of threads) (websocket_listener setup))
websocket_main setup argv =
    usage (bytes "Usage: websocket_srv <port> <threads>\nExample:\n    websocket_srv 8083 1\n")
