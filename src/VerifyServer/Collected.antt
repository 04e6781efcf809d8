-- ===== src/VerifyServer/Collected.antt =====
-- readAndCompress of main.cpp: which position each mode sends.
use da_gis_service.Common.{
  ℕ, ◌≡◌, ◌⊎◌, inl, inr, refl, Bool, true, false, Option, none, some, List, [], ◌∷◌, Bytes, All,
}
use da_gis_service.Frames.{Memory, Reader, Position}
use da_gis_service.Frames.Fresh.{
  AllBusy, FirstFree, HasFrame, position_of, with_index, Attempt, waits, same_index, frame_busy,
  reads, read_frame-Attempt,
}
use da_gis_service.VerifyServer.{
  ModeVerify, verify_time, verify_coord, verify_dist, mode_time, Doubles, GnsActualy, Surroundings,
  Globals, nowhere, wait_gps, from_frame, read_position, compress, read_and_compress,
}

-- Every attempt finds the mutex of the position busy.
abbrev pub GpsBusy : List Bool → Type 0
GpsBusy attempts = All (λ (a : Bool). a ≡ false) attempts

module _ (d : Doubles) (image_bytes : ℕ) (encode : Memory → (time : ℕ) → Bytes × Bytes) where
  -- The globals of a position that was sent with the images of `r`.
  abbrev pub globals_of : Reader d.Double → Position d.Double → Globals d
  globals_of r p = record {
    reader = r;
    left_b64 = (encode r.imgsum p.time).0;
    right_b64 = (encode r.imgsum p.time).1;
    send_to_client = record {
      lat = d.to_string p.lat;
      lon = d.to_string p.lon;
      time = p.time;
      dist = d.dist;
      brightness_gain = 7;
      brightness_shutter = 56;
      brightness_gamma = 89;
    };
  }

  -- Where the position comes from.
  pub data Collected (mode : ModeVerify) (i : Surroundings d) (g : Globals d)
      (o : Option (Globals d)) : Type 0 where
    waits_for_index : mode ≡ verify_time → AllBusy i.attempts → o ≡ none → Collected mode i g o
    no_frame :
        (r : Reader d.Double)
        → mode ≡ verify_time
        → r.imgsum ≡ g.reader.imgsum
        → FirstFree i.attempts g.reader.last_index ⊎ (i.is_free ≡ false)
        → o ≡ some (globals_of r (nowhere d))
        → Collected mode i g o
    of_frame :
        (index : ℕ) (r : Reader d.Double)
        → mode ≡ verify_time
        → FirstFree i.attempts index
        → HasFrame d.Double image_bytes (i.frame index) index g.reader r
        → o ≡ some (globals_of r (position_of d.Double (i.frame index)))
        → Collected mode i g o
    waits_for_pipe : mode ≡ verify_coord → GpsBusy i.gps_attempts → o ≡ none → Collected mode i g o
    of_pipe :
        mode ≡ verify_coord
        → ¬ GpsBusy i.gps_attempts
        → o
          ≡ some (
              globals_of g.reader (record {
                id = 0;
                time = i.gps_from_pipe.time;
                lat = i.gps_from_pipe.lat;
                lon = i.gps_from_pipe.lon;
              }))
        → Collected mode i g o
    of_nothing :
        (mode ≡ verify_dist) ⊎ (mode ≡ mode_time)
        → o ≡ some (globals_of g.reader (nowhere d))
        → Collected mode i g o

  Attempt-Collected :
      (i : Surroundings d) (g : Globals d) (o : Option (Bool × Reader d.Double × Position d.Double))
      → Attempt d.Double image_bytes i.attempts i.is_free i.frame g.reader (nowhere d) o
      → Collected verify_time i g (compress d image_bytes encode (from_frame d o))
  unfolding compress
  Attempt-Collected i g o (waits busy e) = waits_for_index refl busy (rw e refl)
  Attempt-Collected i g o (same_index h e) = no_frame g.reader refl refl (inl h) (rw e refl)
  Attempt-Collected i g o (frame_busy index h new busy e) =
      no_frame (with_index d.Double index g.reader) refl refl (inr busy) (rw e refl)
  Attempt-Collected i g o (reads index r h new free has e) = of_frame index r refl h has (rw e refl)

  wait_gps-busy :
      (attempts : List Bool) (gps : GnsActualy d)
      → GpsBusy attempts
      → wait_gps d attempts gps ≡ none
  unfolding wait_gps
  wait_gps-busy [] gps h = refl
  wait_gps-busy (false ∷ attempts) gps (e, h) = wait_gps-busy attempts gps h
  wait_gps-busy (true ∷ attempts) gps (e, h) = absurd cc

  wait_gps-cases :
      (attempts : List Bool) (gps : GnsActualy d)
      → GpsBusy attempts ⊎ ((¬ GpsBusy attempts) × (wait_gps d attempts gps ≡ some gps))
  unfolding wait_gps
  wait_gps-cases [] gps = inl tt
  wait_gps-cases (false ∷ attempts) gps = elim (wait_gps-cases attempts gps) [
    | inl busy ↦ inl (refl, busy)
    | inr (free, e) ↦ inr (λ busy. free busy.1, e)
  ]
  wait_gps-cases (true ∷ attempts) gps = inr (λ busy. absurd cc (busy.0), refl)

  -- In the mode of the time, readAndCompress sends position and time of the frame that readFrame reads; in
  -- that of the coordinate those of the pipe; and zeros in both others, of which one is the mode of
  -- thrVerifyServer, and where readFrame reads no frame. It waits while a mutex is busy, and no longer.
  pub read_and_compress-Collected :
      (mode : ModeVerify) (i : Surroundings d) (g : Globals d)
      → Collected mode i g (read_and_compress d image_bytes encode mode i g)
  unfolding read_and_compress read_position compress
  read_and_compress-Collected verify_time i g =
      Attempt-Collected i g _
        (read_frame-Attempt d.Double image_bytes i.attempts i.is_free i.frame g.reader (nowhere d))
  read_and_compress-Collected verify_coord i g =
      elim (wait_gps-cases i.gps_attempts i.gps_from_pipe) [
        | inl busy ↦
            waits_for_pipe refl busy (rw (wait_gps-busy i.gps_attempts i.gps_from_pipe busy) refl)
        | inr (free, e) ↦ of_pipe refl free (rw (e) refl)
      ]
  read_and_compress-Collected verify_dist i g = of_nothing (inl refl) refl
  read_and_compress-Collected mode_time i g = of_nothing (inr refl) refl
