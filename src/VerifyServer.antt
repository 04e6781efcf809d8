-- ===== src/VerifyServer.antt =====
-- thrVerifyServer of main.cpp: it collects a position and two images, sends them to its client, and
-- takes another client when that fails. The system's calls are seen as their results, file descriptors
-- and results as numbers, none for a negative one.
pub mod Collected
pub mod Sending
pub mod Descriptors
pub mod Commands
pub mod Loop
mod Tests
use da_gis_service.Common.{
  ℕ, zero, suc, ◌≡◌, Bool, true, false, not, Option, none, some, List, [], ◌∷◌, ◌++◌, Bytes, bytes,
  length, ◌==◌, if◌then◌else◌,
}
use da_gis_service.Frames.{Memory, Frame, Reader, Position, read_frame}
use da_gis_service.Verify.{SrvToCl}

-- MODE_VERIFY
pub data ModeVerify : Type 0 where
  verify_time verify_coord verify_dist mode_time : ModeVerify

-- The mode that thrVerifyServer sets.
abbrev pub verify_server_mode : ModeVerify
verify_server_mode = mode_time

-- `std::to_string(double)` and the two constants of type double of readAndCompress: 0 and 234.6.
pub record Doubles : Type 1 where
  pub Double : Type 0
  pub to_string : Double → Bytes
  pub zero_double : Double
  pub dist : Double

module _ (d : Doubles) where
  -- gns_actualy, with the fields that the program reads.
  pub record GnsActualy : Type 0 where
    pub time : ℕ
    pub lat : d.Double
    pub lon : d.Double

  -- What a call of readAndCompress finds: for readFrame, the attempts at the mutex of the index, whether
  -- that of the frame is free, and the frames; and the attempts at the mutex of the position of the pipe,
  -- which succeed or not, with that position.
  pub record Surroundings : Type 0 where
    pub attempts : List (Option ℕ)
    pub is_free : Bool
    pub frame : ℕ → Frame d.Double
    pub gps_attempts : List Bool
    pub gps_from_pipe : GnsActualy

  -- The globals that it changes.
  pub record Globals : Type 0 where
    pub reader : Reader d.Double
    pub left_b64 : Bytes
    pub right_b64 : Bytes
    pub send_to_client : SrvToCl d.Double

  -- The variables of readAndCompress before it has read anything.
  abbrev pub nowhere : Position d.Double
  nowhere = record { id = 0; time = 0; lat = d.zero_double; lon = d.zero_double }

  -- The loop on the mutex of the position of the pipe; none while it goes on.
  unfoldable pub wait_gps : List Bool → GnsActualy → Option GnsActualy
  wait_gps [] gps = none
  wait_gps (false ∷ attempts) gps = wait_gps attempts gps
  wait_gps (true ∷ attempts) gps = some gps

  abbrev pub from_frame :
      Option (Bool × Reader d.Double × Position d.Double)
      → Option (Reader d.Double × Position d.Double)
  from_frame none = none
  from_frame (some (res, r, p)) = some (r, p)

  abbrev pub from_pipe :
      Reader d.Double → Option GnsActualy → Option (Reader d.Double × Position d.Double)
  from_pipe r none = none
  from_pipe r (some gps) =
      some (r, record { id = 0; time = gps.time; lat = gps.lat; lon = gps.lon })

  -- `image_bytes` is 2*IMAGE_HEIGHT*IMAGE_WIDTH. The images that savePassage draws, jpegProc compresses
  -- and Base64encode writes into left_b64 and right_b64 come from `encode`.
  module _ (image_bytes : ℕ) (encode : Memory → (time : ℕ) → Bytes × Bytes) where
    -- The tests of `mode` in readAndCompress; none while a loop on a mutex goes on.
    unfoldable pub read_position :
        ModeVerify → Surroundings → Reader d.Double → Option (Reader d.Double × Position d.Double)
    read_position verify_time i r =
        from_frame (read_frame d.Double image_bytes i.attempts i.is_free i.frame r nowhere)
    read_position verify_coord i r = from_pipe r (wait_gps i.gps_attempts i.gps_from_pipe)
    read_position verify_dist i r = some (r, nowhere)
    read_position mode_time i r = some (r, nowhere)

    -- The rest of readAndCompress.
    unfoldable pub compress : Option (Reader d.Double × Position d.Double) → Option Globals
    compress none = none
    compress (some (r, p)) =
        let images = encode r.imgsum p.time in
        some (record {
          reader = r;
          left_b64 = images.0;
          right_b64 = images.1;
          send_to_client = record {
            lat = d.to_string p.lat;
            lon = d.to_string p.lon;
            time = p.time;
            dist = d.dist;
            brightness_gain = 7;
            brightness_shutter = 56;
            brightness_gamma = 89;
          };
        })

    -- readAndCompress
    unfoldable pub read_and_compress : ModeVerify → Surroundings → Globals → Option Globals
    read_and_compress mode i g = compress (read_position mode i g.reader)

-- The result of sendVerifyAnswer: the bytes sent, or the number of an error without its sign.
pub data SendResult : Type 0 where
  sent : ℕ → SendResult
  error : ℕ → SendResult

-- A call `getsockopt(…, &err_code, &err_code_sz)`: both values after it, from those before it.
abbrev pub GetSockOpt : Type 0
GetSockOpt = (err_code err_code_sz : ℕ) → ℕ × ℕ

-- `if (n <= 0)` and the end of sendVerifyAnswer.
unfoldable pub send_end : (n : Option ℕ) → SendResult
send_end none = error 1
send_end (some zero) = error 1
send_end (some (suc n)) = sent (suc n)

-- sendVerifyAnswer, after prepareVerifyAnswer; `n` is what send returns.
unfoldable pub send_verify_answer : (before after : GetSockOpt) (n : Option ℕ) → SendResult
send_verify_answer before after n =
    let first = before 0 0 in
    if not (first.0 == 0)
    then error 2
    else if not ((after first.0 first.1).0 == 0)
    then error 4
    else send_end n

-- `sct_vrf` and `sct_vrf_new`, and the descriptors of the sockets that the server has opened and not
-- closed. Those of the shared memory, opened before and never closed, are left out.
pub record Sockets : Type 0 where
  pub sct_vrf : Option ℕ
  pub sct_vrf_new : Option ℕ
  pub opened : List ℕ

-- The globals before any call.
abbrev pub no_sockets : Sockets
no_sockets = record { sct_vrf = some 0; sct_vrf_new = some 0; opened = [] }

-- The results of the system's calls in accept_connectionVerify.
pub record Calls : Type 0 where
  pub socket : Option ℕ
  pub bind_succeeds : Bool
  pub listen_succeeds : Bool
  pub accept : Option ℕ

-- `sct_vrf_new = accept(…)` and what follows: the result without its sign.
unfoldable pub accept_client : (accept : Option ℕ) (fd : ℕ) → List ℕ → ℕ × Sockets
accept_client none fd opened =
    (3, record { sct_vrf = some fd; sct_vrf_new = none; opened = opened })
accept_client (some client) fd opened =
    (0, record { sct_vrf = some fd; sct_vrf_new = some client; opened = client ∷ opened })

-- accept_connectionVerify
unfoldable pub accept_connection_verify : Calls → Sockets → ℕ × Sockets
accept_connection_verify c s = elim c.socket [
  | none ↦ (1, record { sct_vrf = none; sct_vrf_new = s.sct_vrf_new; opened = s.opened })
  | some fd ↦
      let has_socket : Sockets = record {
        sct_vrf = some fd;
        sct_vrf_new = s.sct_vrf_new;
        opened = fd ∷ s.opened;
      } in
      if not c.bind_succeeds
      then (2, has_socket)
      else if not c.listen_succeeds
      then (4, has_socket)
      else accept_client c.accept fd (fd ∷ s.opened)
]

-- The descriptors left after a descriptor is closed.
unfoldable pub without : ℕ → List ℕ → List ℕ
without fd [] = []
without fd (a ∷ opened) = if a == fd then without fd opened else a ∷ without fd opened

-- `if (fd > 0) close(fd)`
unfoldable pub close_positive : Option ℕ → List ℕ → List ℕ
close_positive none opened = opened
close_positive (some zero) opened = opened
close_positive (some (suc fd)) opened = without (suc fd) opened

-- reacceptVerify
unfoldable pub reaccept_verify : Calls → Sockets → ℕ × Sockets
reaccept_verify c s = accept_connection_verify c (record {
  sct_vrf = s.sct_vrf;
  sct_vrf_new = s.sct_vrf_new;
  opened = close_positive s.sct_vrf (close_positive s.sct_vrf_new s.opened);
})

-- A turn of the loop of thrVerifyServer, from the result of sendVerifyAnswer on.
unfoldable pub after_send : SendResult → Calls → Sockets → Sockets
after_send (sent n) c s = s
after_send (error code) c s = (reaccept_verify c s).1
