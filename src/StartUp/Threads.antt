-- ===== src/StartUp/Threads.antt =====
-- The threads and the port of the two servers, http_server/httpserver.cpp and websocket_srv/webserver.cpp.
use da_gis_service.Common.{
  ℕ, zero, suc, ◌+◌, ◌-◌, ◌^◌, ◌≤◌, ◌<◌, ◌≡◌, ◌≢◌, refl, List, [], ◌∷◌, ◌++◌, arith, Bytes, length,
  length-append, c_str,
}
use da_gis_service.Numerals.{ℤ, pos, negsuc, to_unsigned, atoi}
use da_gis_service.Numerals.Decimals.{atoi-to_string}
use da_gis_service.Verify.{to_string}
use da_gis_service.Http.Listener.{Setup}
use da_gis_service.EchoService.{EchoWorld, websocket_listener}
use da_gis_service.HttpService.{World, started}
use da_gis_service.StartUp.{
  Thread, ioc_run, Running, Main, usage, runs, max_1, emplace_threads, port_of, threads_of,
  run_threads, http_main, websocket_main,
}

length-emplace_threads : (i : ℕ) (v : List Thread) → length (emplace_threads i v) ≡ length v + i
unfolding emplace_threads
length-emplace_threads zero v = omega arith
length-emplace_threads (suc i) v =
    omega (arith, length-emplace_threads i (v ++ ioc_run ∷ []), length-append v (ioc_run ∷ []))

-- Threads of the vector and the main thread: all that call `ioc.run()`.
abbrev pub runners {ℓ} : {A : Type ℓ} → Running A → ℕ
runners r = suc (length r.v)

max_1-positive : (n : ℤ) → 1 ≤ max_1 n
unfolding max_1
max_1-positive (pos zero) = omega arith
max_1-positive (pos (suc n)) = omega arith
max_1-positive (negsuc n) = omega arith

to_unsigned-bound : (n : ℤ) → to_unsigned 16 n < 2 ^ 16
unfolding to_unsigned
to_unsigned-bound (pos n) = omega arith
to_unsigned-bound (negsuc n) = omega arith

port-bound : (s : Bytes) → port_of s < 2 ^ 16
unfolding port_of
port-bound s = to_unsigned-bound (atoi s)

-- A port of 16 bits, at least one thread that runs the io_context, as many as it was told, and the state.
pub record IsRunning {ℓ} {A : Type ℓ} (state : A) (r : Running A) : Type ℓ where
  pub port : r.port < 2 ^ 16
  pub threads : runners r ≡ r.concurrency_hint
  pub same : r.state ≡ state

run_threads-IsRunning {ℓ} :
    {A : Type ℓ} (port threads : Bytes) (state : A)
    → IsRunning state (run_threads (port_of port) (threads_of threads) state)
unfolding run_threads threads_of
run_threads-IsRunning port threads state = record {
  port = port-bound port;
  threads =
      omega (
        arith,
        max_1-positive (atoi threads),
        length-emplace_threads (max_1 (atoi threads) - 1) [],
      );
  same = refl;
}

-- How main starts: with another number of arguments it fails, and nothing has been started.
pub data Starts {A : Type 0} (argc : ℕ) (IsStart : A → Type 0) (argv : List Bytes) (m : Main A)
    : Type 0 where
  fails : length argv ≢ argc → (text : Bytes) → m ≡ usage text → Starts argc IsStart argv m
  starts :
      length argv ≡ argc
      → (r : Running A) → m ≡ runs r
      → (state : A) → IsStart state
      → IsRunning state r
      → Starts argc IsStart argv m

abbrev pub HttpStart : Setup → Bytes × World → Type 0
HttpStart setup s = s.1 ≡ started setup

abbrev pub WebsocketStart : Setup → EchoWorld → Type 0
WebsocketStart setup l = l ≡ websocket_listener setup

http_main-Starts :
    (setup : Setup) (argv : List Bytes) → Starts 4 (HttpStart setup) argv (http_main setup argv)
unfolding http_main
http_main-Starts setup [] = fails (omega arith) _ refl
http_main-Starts setup (a ∷ []) = fails (omega arith) _ refl
http_main-Starts setup (a ∷ b ∷ []) = fails (omega arith) _ refl
http_main-Starts setup (a ∷ b ∷ c ∷ []) = fails (omega arith) _ refl
http_main-Starts setup (a ∷ port ∷ root ∷ threads ∷ []) =
    starts refl _ refl _ refl (run_threads-IsRunning port threads (c_str root, started setup))
http_main-Starts setup (a ∷ b ∷ c ∷ d ∷ e ∷ argv) = fails (omega arith) _ refl

websocket_main-Starts :
    (setup : Setup) (argv : List Bytes)
    → Starts 3 (WebsocketStart setup) argv (websocket_main setup argv)
unfolding websocket_main
websocket_main-Starts setup [] = fails (omega arith) _ refl
websocket_main-Starts setup (a ∷ []) = fails (omega arith) _ refl
websocket_main-Starts setup (a ∷ b ∷ []) = fails (omega arith) _ refl
websocket_main-Starts setup (a ∷ port ∷ threads ∷ []) =
    starts refl _ refl _ refl (run_threads-IsRunning port threads (websocket_listener setup))
websocket_main-Starts setup (a ∷ b ∷ c ∷ d ∷ argv) = fails (omega arith) _ refl

-- Whatever the arguments: each server fails, with nothing started, exactly if their number is not the one it
-- asks for; else it runs its listener on a port below 2^16, with at least one thread, the main one counted, and
-- as many threads run the io_context as it was told.
pub main-Starts :
    (setup : Setup) (argv : List Bytes)
    → Starts 4 (HttpStart setup) argv (http_main setup argv)
      × Starts 3 (WebsocketStart setup) argv (websocket_main setup argv)
main-Starts setup argv = (http_main-Starts setup argv, websocket_main-Starts setup argv)

port_of-to_string : (port : ℕ) → port < 2 ^ 16 → port_of (to_string port) ≡ port
unfolding port_of to_unsigned
port_of-to_string port h = rw (atoi-to_string port (omega (arith, h))) (omega (arith, h))

threads_of-to_string :
    (threads : ℕ) → 1 ≤ threads → threads < 2 ^ 31 → threads_of (to_string threads) ≡ threads
unfolding threads_of max_1
threads_of-to_string zero h few = absurd (omega (arith, h))
threads_of-to_string (suc n) h few = rw (atoi-to_string (suc n) few) refl

-- With a port below 2^16 and a positive number of threads below 2^31 in decimals, each server runs on this port, and so
-- many threads, the main one counted, run its io_context.
pub main-to_string :
    (setup : Setup) (program doc_root : Bytes) (port threads : ℕ)
    → port < 2 ^ 16
    → 1 ≤ threads
    → threads < 2 ^ 31
    → ((r : Running (Bytes × World)) × (http_main setup
            (program ∷ to_string port ∷ doc_root ∷ to_string threads ∷ [])
          ≡ runs r)
        × (r.port ≡ port)
        × (runners r ≡ threads)
        × (r.state ≡ (c_str doc_root, started setup)))
      × ((r : Running EchoWorld) × (websocket_main setup
              (program ∷ to_string port ∷ to_string threads ∷ [])
            ≡ runs r)
          × (r.port ≡ port)
          × (runners r ≡ threads)
          × (r.state ≡ websocket_listener setup))
unfolding http_main websocket_main run_threads
main-to_string setup program doc_root port threads small positive few =
    let p = port_of-to_string port small in
    let t = threads_of-to_string threads positive few in
    let count : length (emplace_threads (threads_of (to_string threads) - 1) []) ≡ threads - 1 =
      rw t (omega (arith, length-emplace_threads (threads - 1) [])) in
    let n : suc (length (emplace_threads (threads_of (to_string threads) - 1) [])) ≡ threads =
      omega (arith, count, positive) in
    ((_, refl, p, n, refl), (_, refl, p, n, refl))
