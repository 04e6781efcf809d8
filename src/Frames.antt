-- ===== src/Frames.antt =====
-- readFrame and readPartFrame of main.cpp: frames that another process puts into shared memory. The
-- layout of the memory, with its number of frames and their width, comes from a header that is not in
-- the repository. The program trusts the index and the box that it is given to lie within it.
pub mod Fresh
pub mod Mutexes
pub mod Pixels
mod Tests
use da_gis_service.Common.{
  ℕ, zero, suc, ◌+◌, ◌*◌, ◌-◌, ◌≡◌, Bool, true, false, ◌&&◌, Option, none, some, List, [], ◌∷◌,
  ◌==◌, leb, ltb, if◌then◌else◌,
}

-- Memory from some address on: the byte at each offset.
abbrev pub Memory : Type 0
Memory = ℕ → ℕ

-- A frame of shared memory, with the fields that the program reads; `Double` stands for double.
pub record Frame (Double : Type 0) : Type 0 where
  pub buf : Memory
  pub time : ℕ
  pub id : ℕ
  pub time_gns : ℕ
  pub lat : Double
  pub lon : Double

-- box
pub record Box : Type 0 where
  pub x : ℕ
  pub y : ℕ
  pub w : ℕ
  pub h : ℕ
  pub id : ℕ

-- `memcpy(dst + at, src + from, n)`
unfoldable pub memcpy : (at : ℕ) (src : Memory) (from n : ℕ) (dst : Memory) → Memory
memcpy at src from n dst a = if leb at a && ltb a (at + n) then src (from + (a - at)) else dst a

module _ (Double : Type 0) where
  -- The globals `imgsum`, `_lastTime` and `_last_index`.
  pub record Reader : Type 0 where
    pub imgsum : Memory
    pub last_time : ℕ
    pub last_index : ℕ

  -- What readFrame stores through its arguments.
  pub record Position : Type 0 where
    pub id : ℕ
    pub time : ℕ
    pub lat : Double
    pub lon : Double

  -- The first loop of readFrame. Each attempt is none if the mutex is busy, and else the index in shared
  -- memory; the loop still waits if no attempt is left. Else it has the index to read, none if there
  -- is nothing new, and `_last_index`.
  unfoldable pub read_ids : List (Option ℕ) → (last_index : ℕ) → Option (Option ℕ × ℕ)
  read_ids [] last_index = none
  read_ids (none ∷ attempts) last_index = read_ids attempts last_index
  read_ids (some index ∷ attempts) last_index =
      if index == last_index then some (none, last_index) else some (some index, index)

  -- The bytes of the two images of a frame: 2*IMAGE_HEIGHT*IMAGE_WIDTH.
  module _ (image_bytes : ℕ) where
    -- The rest of readFrame; `is_free` tells whether the mutex of the frame is.
    unfoldable pub read_at :
        Option ℕ
        → (is_free : Bool) (frame : ℕ → Frame Double) → Reader
        → Position
        → Bool × Reader × Position
    read_at none is_free frame r p = (false, r, p)
    read_at (some index) false frame r p = (true, r, p)
    read_at (some index) true frame r p =
        let f = frame index in
        (
          true,
          record {
            imgsum = memcpy 0 f.buf 0 image_bytes r.imgsum;
            last_time = f.time;
            last_index = r.last_index;
          },
          record { id = f.id; time = f.time_gns; lat = f.lat; lon = f.lon },
        )

    abbrev with_index : ℕ → Reader → Reader
    with_index index r = record { imgsum = r.imgsum; last_time = r.last_time; last_index = index }

    abbrev after_ids :
        Option (Option ℕ × ℕ)
        → (is_free : Bool) (frame : ℕ → Frame Double) → Reader
        → Position
        → Option (Bool × Reader × Position)
    after_ids none is_free frame r p = none
    after_ids (some (index, last)) is_free frame r p =
        some (read_at index is_free frame (with_index last r) p)

    -- readFrame: true for the result 0, false for -1; none while it waits for the mutex of the index.
    unfoldable pub read_frame :
        List (Option ℕ)
        → (is_free : Bool) (frame : ℕ → Frame Double) → Reader
        → Position
        → Option (Bool × Reader × Position)
    read_frame attempts is_free frame r p =
        after_ids (read_ids attempts r.last_index) is_free frame r p

  -- The loop of readPartFrame over the frames, from the last on.
  unfoldable pub find_frame : (n : ℕ) (frame : ℕ → Frame Double) (id : ℕ) → Option ℕ
  find_frame zero frame id = none
  find_frame (suc i) frame id = if (frame i).id == id then some i else find_frame i frame id

  module _ (image_width : ℕ) where
    -- The loop over the rows of the box, up to row `n`.
    unfoldable pub copy_rows : (n : ℕ) → Box → (buf pic : Memory) → Memory
    copy_rows zero bx buf pic = pic
    copy_rows (suc j) bx buf pic =
        memcpy (j * bx.w) buf (bx.y * image_width + bx.x + j * image_width) bx.w
          (copy_rows j bx buf pic)

    -- readPartFrame over `salmon_size` frames: true for the result 0.
    unfoldable pub read_part_frame :
        (salmon_size : ℕ) (frame : ℕ → Frame Double) → Box → Memory → Bool × Memory
    read_part_frame salmon_size frame bx pic = elim (find_frame salmon_size frame bx.id) [
      | none ↦ (false, pic)
      | some i ↦ (true, copy_rows bx.h bx (frame i).buf pic)
    ]
