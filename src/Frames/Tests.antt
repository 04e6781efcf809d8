-- ===== src/Frames/Tests.antt =====
-- readFrame and readPartFrame of main.cpp on small frames.
use da_gis_service.Common.{ℕ, zero, suc, ◌≡◌, refl, true, false, Option, none, some, List, [], ◌∷◌}
use da_gis_service.Frames.{
  Memory, Frame, Box, memcpy, Reader, Position, read_ids, read_at, read_frame, find_frame,
  copy_rows, read_part_frame,
}
use da_gis_service.Frames.Fresh.{Attempt, read_frame-Attempt, read_frame-read_frame, with_index}
use da_gis_service.Frames.Pixels.{PartRead, read_part_frame-PartRead}

-- Two frames, 7 and 9, the pixels of which are their addresses; a number stands for a double.
abbrev pub frames : ℕ → Frame ℕ
frames zero = record { buf = λ a. a; time = 1; id = 7; time_gns = 2; lat = 60; lon = 30 }
frames (suc i) = record { buf = λ a. a; time = 3; id = 9; time_gns = 4; lat = 61; lon = 31 }

abbrev box : Box
box = record { x = 1; y = 2; w = 2; h = 2; id = 7 }

abbrev blank : Memory
blank a = 0

abbrev pub reader : Reader ℕ
reader = record { imgsum = blank; last_time = 0; last_index = 0 }

abbrev pub unset : Position ℕ
unset = record { id = 0; time = 0; lat = 0; lon = 0 }

abbrev tries : List (Option ℕ)
tries = none ∷ some 1 ∷ []

code : Unit {0}
unfolding memcpy read_ids read_at read_frame find_frame copy_rows read_part_frame
code = tt

-- Images of ten pixels a row.
frames_run :
    (read_frame ℕ 8 (none ∷ []) true frames reader unset ≡ none)
    × (read_frame ℕ 8 tries false frames reader unset ≡ some (true, with_index ℕ 1 reader, unset))
    × ((read_part_frame ℕ 10 2 frames box blank).1 3 ≡ 32)
    × ((read_part_frame ℕ 10 2 frames box blank).1 4 ≡ 0)
unfolding code
frames_run = (refl, refl, refl, refl)

read_frame-Attempt_example :
    Attempt ℕ 8 tries true frames reader unset (read_frame ℕ 8 tries true frames reader unset)
read_frame-Attempt_example = read_frame-Attempt ℕ 8 tries true frames reader unset

busy_first :
    read_frame ℕ 8 tries false frames reader unset ≡ some (true, with_index ℕ 1 reader, unset)
unfolding code
busy_first = refl

read_frame-read_frame_example :
    read_frame ℕ 8 tries true frames (with_index ℕ 1 reader) unset
    ≡ some (false, with_index ℕ 1 reader, unset)
read_frame-read_frame_example =
    read_frame-read_frame ℕ 8 tries tries false true frames frames reader (with_index ℕ 1 reader)
      unset unset unset true 1 busy_first refl refl

read_part_frame-PartRead_example :
    PartRead ℕ 10 2 frames box blank (read_part_frame ℕ 10 2 frames box blank)
read_part_frame-PartRead_example = read_part_frame-PartRead ℕ 10 2 frames box blank
