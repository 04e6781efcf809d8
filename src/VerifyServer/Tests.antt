-- ===== src/VerifyServer/Tests.antt =====
-- Turns of the loop of thrVerifyServer of main.cpp.
use da_gis_service.Common.{
  ℕ, zero, suc, ◌+◌, ◌*◌, ◌≤◌, length, c_str, ◌≡◌, refl, true, false, Option, none, some, [], ◌∷◌,
  arith, Bytes, bytes,
}
use da_gis_service.Frames.{Memory, Frame, memcpy, read_ids, read_at, read_frame}
use da_gis_service.VerifyServer.{
  verify_time, verify_server_mode, Doubles, Surroundings, Globals, wait_gps, read_position,
  compress, read_and_compress, sent, error, send_end, send_verify_answer, Sockets, no_sockets,
  Calls, accept_client, accept_connection_verify, without, close_positive, reaccept_verify,
  after_send,
}
use da_gis_service.VerifyServer.Collected.{Collected, read_and_compress-Collected}
use da_gis_service.Verify.{append_all, digits, str_json}
use da_gis_service.VerifyServer.Loop.{
  Loop, Turn, nowhere_json, take_turns, SendsNowhere, take_turns-SendsNowhere,
}
use da_gis_service.Samples.{zeros, length-zeros}
use da_gis_service.VerifyServer.Commands.{vrf_null, Received}
use da_gis_service.VerifyServer.Sending.{IsLimited, send_verify_answer-result_of}
use da_gis_service.VerifyServer.Descriptors.{Run, begin, turn, HasAll, Run-HasAll}

-- A double is its text.
abbrev texts : Doubles
texts = record {
  Double = Bytes;
  to_string = λ s. s;
  zero_double = bytes "0.000000";
  dist = bytes "234.600000";
}

abbrev frames : ℕ → Frame Bytes
frames i = record {
  buf = λ a. i;
  time = 5;
  id = 9;
  time_gns = 6;
  lat = bytes "60.0";
  lon = bytes "30.0";
}

abbrev one_frame : Surroundings texts
one_frame = record {
  attempts = none ∷ some 1 ∷ [];
  is_free = true;
  frame = frames;
  gps_attempts = false ∷ true ∷ [];
  gps_from_pipe = record { time = 8; lat = bytes "59.0"; lon = bytes "29.0" };
}

abbrev first_byte : Memory → ℕ → Bytes × Bytes
first_byte m time = (m 0 ∷ [], m 1 ∷ [])

abbrev globals : Globals texts
globals = record {
  reader = record { imgsum = λ a. 0; last_time = 0; last_index = 0 };
  left_b64 = [];
  right_b64 = [];
  send_to_client = record {
    lat = [];
    lon = [];
    time = 0;
    dist = [];
    brightness_gain = 0;
    brightness_shutter = 0;
    brightness_gamma = 0;
  };
}

abbrev sent_lat : Option (Globals texts) → Bytes
sent_lat none = []
sent_lat (some g) = g.send_to_client.lat

code : Unit {0}
unfolding memcpy read_ids read_at read_frame wait_gps read_position compress read_and_compress
    send_end send_verify_answer accept_client accept_connection_verify without close_positive
    reaccept_verify after_send
code = tt

collect_run :
    (sent_lat (read_and_compress texts 2 first_byte verify_time one_frame globals) ≡ bytes "60.0")
    × (sent_lat (read_and_compress texts 2 first_byte verify_server_mode one_frame globals)
        ≡ bytes "0.000000")
unfolding code
collect_run = (refl, refl)

read_and_compress-Collected_example :
    Collected texts 2 first_byte verify_time one_frame globals
      (read_and_compress texts 2 first_byte verify_time one_frame globals)
read_and_compress-Collected_example =
    read_and_compress-Collected texts 2 first_byte verify_time one_frame globals

-- A socket with an error pending: the value 104 is stored if there is room.
abbrev reset_by_peer : ℕ → ℕ → ℕ × ℕ
reset_by_peer err_code zero = (err_code, 0)
reset_by_peer err_code (suc size) = (104, suc size)

reset_by_peer-IsLimited : IsLimited reset_by_peer
reset_by_peer-IsLimited = record { stores_nothing = λ err_code. refl }

send_verify_answer-result_of_example :
    send_verify_answer reset_by_peer reset_by_peer (some 3) ≡ sent 3
send_verify_answer-result_of_example =
    send_verify_answer-result_of reset_by_peer reset_by_peer (some 3) reset_by_peer-IsLimited
      reset_by_peer-IsLimited

abbrev all_succeed : ℕ → ℕ → Calls
all_succeed socket client = record {
  socket = some socket;
  bind_succeeds = true;
  listen_succeeds = true;
  accept = some client;
}

abbrev bind_fails : Calls
bind_fails = record {
  socket = some 3;
  bind_succeeds = false;
  listen_succeeds = true;
  accept = none;
}

abbrev two_turns : Sockets
two_turns =
    after_send (error 1) (all_succeed 3 4)
      (after_send (error 1) bind_fails (accept_connection_verify (all_succeed 3 4) no_sockets).1)

two_turns-Run : Run two_turns
two_turns-Run =
    turn
      (turn (begin (all_succeed 3 4) (omega arith) (omega arith)) (error 1) bind_fails (omega arith)
        tt)
      (error 1) (all_succeed 3 4) (omega arith) (omega arith)

sockets_run : two_turns.opened ≡ 4 ∷ 3 ∷ []
unfolding code
sockets_run = refl

Run-HasAll_example : HasAll two_turns
Run-HasAll_example = Run-HasAll two_turns-Run

-- Two turns of the loop, with nothing in memory; the first message gets out, the second does not.
abbrev first_turn : Turn texts
first_turn = record {
  blocks = false;
  surroundings = one_frame;
  before_send = reset_by_peer;
  after_sent = reset_by_peer;
  n = some 3;
  calls = all_succeed 3 4;
}

abbrev second_turn : Turn texts
second_turn = record {
  blocks = false;
  surroundings = one_frame;
  before_send = reset_by_peer;
  after_sent = reset_by_peer;
  n = none;
  calls = all_succeed 5 6;
}

abbrev start_loop : Loop texts
start_loop = record {
  globals = globals;
  send_json = zeros (1024 * 1500);
  sockets = no_sockets;
  outbox = [];
}

short_json : length (nowhere_json texts 2 first_byte (λ a. 0)) + 4 ≤ 1024 * 1500
unfolding str_json append_all digits c_str
short_json = omega arith

take_turns-SendsNowhere_example :
    (l' : Loop texts) × (take_turns texts 2 first_byte (first_turn ∷ second_turn ∷ []) start_loop
      ≡ some l')
    × SendsNowhere texts 2 first_byte (λ a. 0) l'
take_turns-SendsNowhere_example =
    take_turns-SendsNowhere texts 2 first_byte (first_turn ∷ second_turn ∷ []) (λ a. 0) short_json
      (refl, (refl, tt)) start_loop
      (record { array = length-zeros (1024 * 1500); same_memory = refl; sent = tt })

-- A command of the client.
abbrev received : Received
received = record { buf_recv_vrf = λ a. 7; cmd = vrf_null; params = []; printed = [] }
