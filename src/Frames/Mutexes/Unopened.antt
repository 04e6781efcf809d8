-- ===== src/Frames/Mutexes/Unopened.antt =====
-- readFrame of main.cpp if mutexIdsInit has failed.
use da_gis_service.Common.{
  ℕ, ◌≡◌, ◌≢◌, ◌∙◌, refl, ap, true, false, ◌&&◌, List, ◌∷◌, ◌==◌, Bool-cases, inl, inr, arith,
}
use da_gis_service.Frames.{Frame, Reader, Position, read_ids}
use da_gis_service.Frames.Mutexes.{
  Pthread, Buffer, null, map_failed, mapped, Result, Reading, faults, Opening, Shm, Copies,
  initial_copies, mutex_frames_init, mutex_ids_init, init_copies, read_shared, through,
}
use da_gis_service.Frames.Mutexes.Copied.{MutexLaws, attempts_of-free}

module _ (thread : Pthread) (Double : Type 0) (image_bytes salmon_size : ℕ) where
  through-faults :
      (b : Buffer) (next : Result (Reading thread Double image_bytes) × Copies thread)
      → b ≢ mapped
      → (through thread Double image_bytes b next).0 ≡ faults
  through-faults null next h = refl
  through-faults map_failed next h = refl
  through-faults mapped next h = absurd (h refl)

  mutex_frames_init-ids :
      (o : Opening) (shm : Shm thread) (c : Copies thread)
      → ((mutex_frames_init thread salmon_size o shm c).1.ids_buffer ≡ c.ids_buffer)
        × ((mutex_frames_init thread salmon_size o shm c).1.ids_mutex ≡ c.ids_mutex)
  unfolding mutex_frames_init
  mutex_frames_init-ids o shm c = elim (Bool-cases o.is_open) [
    | inl e ↦ elim (Bool-cases o.is_mapped) [
      | inl q ↦ rw (e, q) (refl, refl)
      | inr q ↦ rw (e, q) (refl, refl)
    ]
    | inr e ↦ rw e (refl, refl)
  ]

  mutex_ids_init-closed :
      (o : Opening) (shm : Shm thread) (c : Copies thread)
      → o.is_open && o.is_mapped ≡ false
      → c.ids_buffer ≢ mapped
      → ((mutex_ids_init thread o shm c).1.ids_buffer ≢ mapped)
        × ((mutex_ids_init thread o shm c).1.ids_mutex ≡ c.ids_mutex)
  unfolding mutex_ids_init
  mutex_ids_init-closed o shm c closed h = elim (Bool-cases o.is_open) [
    | inl e ↦ let q : o.is_mapped ≡ false = ground (arith, closed, e) in rw (e, q) ((λ f. cc), refl)
    | inr e ↦ rw e (h, refl)
  ]

  module _ (laws : MutexLaws thread) (frame : ℕ → Frame Double) (r : Reader Double)
      (p : Position Double) where
    read_shared-unmapped :
        (now : Shm thread) (moments : List (Shm thread)) (c : Copies thread)
        → c.ids_buffer ≢ mapped
        → laws.is_free c.ids_mutex ≡ true
        → (read_shared thread Double image_bytes (now ∷ moments) frame r p c).0 ≡ faults
    unfolding read_shared read_ids
    read_shared-unmapped now moments c h e =
        let once = (attempts_of-free thread laws now moments c.ids_mutex e).0 in
        elim (Bool-cases (now.last_index == r.last_index)) [
          | inl q ↦ rw (once, q) (through-faults c.ids_buffer _ h)
          | inr q ↦ rw (once, q) (through-faults c.ids_buffer _ h)
        ]

    -- If the shared memory of the index cannot be opened or mapped, then the first call of readFrame reads
    -- through a buffer that is not mapped, whether or not the memory of the frames is there. A mutex
    -- of zeros is assumed to be free.
    pub read_shared-faults :
        (ids frames : Opening) (shm later now : Shm thread) (moments : List (Shm thread))
        → laws.is_free thread.zero_mutex ≡ true
        → ids.is_open && ids.is_mapped ≡ false
        → (read_shared thread Double image_bytes
            (now ∷ moments)
            frame
            r
            p
            (init_copies thread salmon_size ids frames shm later (initial_copies thread))).0
          ≡ faults
    unfolding init_copies
    read_shared-faults ids frames shm later now moments free closed =
        let start = initial_copies thread in
        let (unmapped, same) = mutex_ids_init-closed ids shm start closed (λ f. cc) in
        let (buffer, mutex) =
          mutex_frames_init-ids frames later (mutex_ids_init thread ids shm start).1 in
        read_shared-unmapped now moments _ (rw buffer unmapped)
          (ap laws.is_free (mutex ∙ same) ∙ free)
