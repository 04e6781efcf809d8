-- ===== src/Frames/Mutexes.antt =====
-- mutexIdsInit and mutexFramesInit of main.cpp, which copy the mutexes out of shared memory, and readFrame
-- with these copies. A copy is seen as a mutex of its own, which is what it is on Linux.
pub mod Copied
pub mod Ignored
pub mod Unopened
mod Tests
use da_gis_service.Common.{
  ℕ, zero, suc, ◌≡◌, Bool, true, false, Option, none, some, List, [], ◌∷◌, ◌==◌, if◌then◌else◌,
}
use da_gis_service.Frames.{Frame, Reader, Position, read_ids, read_at}

-- A mutex and the operations on it: whether `pthread_mutex_trylock` gives 0 and the mutex it leaves, and
-- `pthread_mutex_unlock`; `zero_mutex` is `{0}`.
pub record Pthread : Type 1 where
  pub Mutex : Type 0
  pub zero_mutex : Mutex
  pub trylock : Mutex → Bool × Mutex
  pub unlock : Mutex → Mutex

-- Where a buffer points: nowhere yet, to MAP_FAILED, or to shared memory.
pub data Buffer : Type 0 where
  null : Buffer
  map_failed : Buffer
  mapped : Buffer

-- What a call of readFrame comes to: it still waits, it reads through a buffer that is not mapped, or it
-- returns.
pub data Result (A : Type 0) : Type 0 where
  waits : Result A
  faults : Result A
  returns : A → Result A

-- The result of `shm_open` and that of `mmap`.
pub record Opening : Type 0 where
  pub is_open : Bool
  pub is_mapped : Bool

module _ (thread : Pthread) where
  -- Shared memory at some moment, but for the frames: the index of the last frame and the mutexes.
  pub record Shm : Type 0 where
    pub last_index : ℕ
    pub ids_mutex : thread.Mutex
    pub frame_mutex : ℕ → thread.Mutex

  -- The globals `ids_buffer`, `img_buffer`, `ids_mutex` and `ipc_mutex`.
  pub record Copies : Type 0 where
    pub ids_buffer : Buffer
    pub img_buffer : Buffer
    pub ids_mutex : thread.Mutex
    pub ipc_mutex : ℕ → thread.Mutex

  abbrev pub initial_copies : Copies
  initial_copies = record {
    ids_buffer = null;
    img_buffer = null;
    ids_mutex = thread.zero_mutex;
    ipc_mutex = λ _. thread.zero_mutex;
  }

  -- `ipc_mutex[i] = mutex`
  unfoldable pub store_mutex : ℕ → thread.Mutex → (ℕ → thread.Mutex) → ℕ → thread.Mutex
  store_mutex i mutex ipc_mutex j = if j == i then mutex else ipc_mutex j

  -- The loop of mutexFramesInit over the first `n` frames.
  unfoldable pub copy_mutexes :
      (n : ℕ) (frame_mutex ipc_mutex : ℕ → thread.Mutex) → ℕ → thread.Mutex
  copy_mutexes zero frame_mutex ipc_mutex = ipc_mutex
  copy_mutexes (suc i) frame_mutex ipc_mutex =
      store_mutex i (frame_mutex i) (copy_mutexes i frame_mutex ipc_mutex)

  -- mutexFramesInit; true for the result 0.
  unfoldable pub mutex_frames_init : (salmon_size : ℕ) → Opening → Shm → Copies → Bool × Copies
  mutex_frames_init salmon_size o shm c =
      if o.is_open
      then if o.is_mapped
        then (
          true,
          record {
            ids_buffer = c.ids_buffer;
            img_buffer = mapped;
            ids_mutex = c.ids_mutex;
            ipc_mutex = copy_mutexes salmon_size shm.frame_mutex c.ipc_mutex;
          },
        )
        else (
          false,
          record {
            ids_buffer = c.ids_buffer;
            img_buffer = map_failed;
            ids_mutex = c.ids_mutex;
            ipc_mutex = c.ipc_mutex;
          },
        )
      else (false, c)

  -- mutexIdsInit; true for the result 0.
  unfoldable pub mutex_ids_init : Opening → Shm → Copies → Bool × Copies
  mutex_ids_init o shm c =
      if o.is_open
      then if o.is_mapped
        then (
          true,
          record {
            ids_buffer = mapped;
            img_buffer = c.img_buffer;
            ids_mutex = shm.ids_mutex;
            ipc_mutex = c.ipc_mutex;
          },
        )
        else (
          false,
          record {
            ids_buffer = map_failed;
            img_buffer = c.img_buffer;
            ids_mutex = c.ids_mutex;
            ipc_mutex = c.ipc_mutex;
          },
        )
      else (false, c)

  -- The two calls of thrVerifyServer, which ignores their results.
  unfoldable pub init_copies :
      (salmon_size : ℕ) (ids frames : Opening) (shm later : Shm) → Copies → Copies
  init_copies salmon_size ids frames shm later c =
      (mutex_frames_init salmon_size frames later (mutex_ids_init ids shm c).1).1

  abbrev pub with_ids_mutex : thread.Mutex → Copies → Copies
  with_ids_mutex mutex c = record {
    ids_buffer = c.ids_buffer;
    img_buffer = c.img_buffer;
    ids_mutex = mutex;
    ipc_mutex = c.ipc_mutex;
  }

  abbrev pub with_ipc_mutex : ℕ → thread.Mutex → Copies → Copies
  with_ipc_mutex i mutex c = record {
    ids_buffer = c.ids_buffer;
    img_buffer = c.img_buffer;
    ids_mutex = c.ids_mutex;
    ipc_mutex = store_mutex i mutex c.ipc_mutex;
  }

  -- The attempts of the first loop of readFrame on the copy, one for each moment of shared memory until
  -- one gets the mutex, and the copy as they leave it.
  unfoldable pub attempts_of : List Shm → thread.Mutex → List (Option ℕ) × thread.Mutex
  attempts_of [] mutex = ([], mutex)
  attempts_of (shm ∷ later) mutex =
      let next = thread.trylock mutex in
      let rest = attempts_of later next.1 in
      if next.0 then (some shm.last_index ∷ [], thread.unlock next.1) else (none ∷ rest.0, rest.1)

  module _ (Double : Type 0) (image_bytes : ℕ) where
    abbrev pub Reading : Type 0
    Reading = Bool × Reader Double × Position Double

    abbrev pub with_last : ℕ → Reader Double → Reader Double
    with_last last r = record { imgsum = r.imgsum; last_time = r.last_time; last_index = last }

    -- Reading through a buffer.
    abbrev pub through : Buffer → Result Reading × Copies → Result Reading × Copies
    through null next = (faults, next.1)
    through map_failed next = (faults, next.1)
    through mapped next = next

    -- The rest of readFrame, with the copy of the mutex of the frame.
    unfoldable pub read_copied :
        (index : Option ℕ) (frame : ℕ → Frame Double)
        → Reader Double
        → Position Double
        → Copies
        → Result Reading × Copies
    read_copied none frame r p c = (returns (read_at Double image_bytes none false frame r p), c)
    read_copied (some index) frame r p c =
        let next = thread.trylock (c.ipc_mutex index) in
        let result = returns (read_at Double image_bytes (some index) next.0 frame r p) in
        if next.0
        then through c.img_buffer (result, with_ipc_mutex index (thread.unlock next.1) c)
        else (result, with_ipc_mutex index next.1 c)

    abbrev pub after_attempts :
        Option (Option ℕ × ℕ)
        → (frame : ℕ → Frame Double) → Reader Double
        → Position Double
        → Copies
        → Result Reading × Copies
    after_attempts none frame r p c = (waits, c)
    after_attempts (some (index, last)) frame r p c =
        through c.ids_buffer (read_copied index frame (with_last last r) p c)

    -- readFrame on the copies: what it finds in shared memory attempt after attempt, and the frames that it
    -- then finds.
    unfoldable pub read_shared :
        List Shm
        → (frame : ℕ → Frame Double) → Reader Double
        → Position Double
        → Copies
        → Result Reading × Copies
    read_shared moments frame r p c =
        let tried = attempts_of moments c.ids_mutex in
        after_attempts (read_ids Double tried.0 r.last_index) frame r p (with_ids_mutex tried.1 c)

    -- Calls of readFrame one after the other, each of which returns, whatever shared memory is like.
    pub data Calls (start : Copies) : Copies → Type 0 where
      none_yet : Calls start start
      called :
          {c : Copies} (after : Copies) (moments : List Shm) (frame : ℕ → Frame Double)
          (r : Reader Double) (p : Position Double) (result : Reading)
          → Calls start c
          → read_shared moments frame r p c ≡ (returns result, after)
          → Calls start after
