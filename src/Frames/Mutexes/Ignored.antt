-- ===== src/Frames/Mutexes/Ignored.antt =====
-- readFrame of main.cpp, call after call: what it takes from the mutexes in shared memory.
use da_gis_service.Common.{
  ℕ, ◌<◌, ◌≡◌, ◌∙◌, refl, sym, ap, true, Option, none, some, List, [], ◌∷◌, ◌==◌, if◌then◌else◌,
  Bool-cases, inl, inr,
}
use da_gis_service.Frames.{Frame, Reader, Position, read_ids, read_at, read_frame}
use da_gis_service.Frames.Mutexes.{
  Pthread, Result, Reading, waits, returns, Opening, Shm, Copies, init_copies, read_copied,
  read_shared, Calls, none_yet, called, after_attempts, with_last,
}
use da_gis_service.Frames.Mutexes.Copied.{
  MutexLaws, IsCopy, init_copies-IsCopy, attempts_of-free, attempts_of-taken, read_shared-IsCopy,
  with_ids_mutex-IsCopy, through-mapped,
}

abbrev pub opened : Opening
opened = record { is_open = true; is_mapped = true }

abbrev pub returned : {A : Type 0} → Option A → Result A
returned none = waits
returned (some a) = returns a

module _ (thread : Pthread) (laws : MutexLaws thread) (Double : Type 0)
    (image_bytes salmon_size : ℕ) (shm later : Shm thread) where
  Calls-IsCopy :
      {start c : Copies thread}
      → IsCopy thread laws salmon_size shm later start
      → Calls thread Double image_bytes start c
      → IsCopy thread laws salmon_size shm later c
  Calls-IsCopy k none_yet = k
  Calls-IsCopy k (called {c} after moments frame r p result calls e) =
      let kept =
        read_shared-IsCopy thread laws Double image_bytes salmon_size shm later frame p moments r c
          (Calls-IsCopy k calls) in
      rw (← ap (λ (x : Result (Reading thread Double image_bytes) × Copies thread). x.1) e) kept

  module _ (frame : ℕ → Frame Double) (r : Reader Double) (p : Position Double) where
    read_copied-read_at :
        (index : ℕ) (from : Reader Double) (c : Copies thread)
        → IsCopy thread laws salmon_size shm later c
        → index < salmon_size
        → (read_copied thread Double image_bytes (some index) frame from p c).0
          ≡ returns (
              read_at Double image_bytes
                (some index)
                (laws.is_free (later.frame_mutex index))
                frame
                from
                p)
    unfolding read_copied
    read_copied-read_at index from c k h =
        let m = c.ipc_mutex index in
        elim (Bool-cases (laws.is_free m)) [
          | inl e ↦
              rw (← k.ipc index h, laws.trylock_result m, e)
                (ap (λ (x : Result (Reading thread Double image_bytes) × Copies thread). x.0)
                  (through-mapped thread Double image_bytes c.img_buffer _ k.img_mapped))
          | inr e ↦ rw (← k.ipc index h, laws.trylock_result m, e) refl
        ]

    after_attempts-read_frame :
        (index : ℕ) (c : Copies thread)
        → IsCopy thread laws salmon_size shm later c
        → index < salmon_size
        → (after_attempts thread Double image_bytes
            (read_ids Double (some index ∷ []) r.last_index)
            frame
            r
            p
            c).0
          ≡ returned (
              read_frame Double image_bytes
                (some index ∷ [])
                (laws.is_free (later.frame_mutex index))
                frame
                r
                p)
    unfolding read_ids read_frame read_at read_copied
    after_attempts-read_frame index c k h = elim (Bool-cases (index == r.last_index)) [
      | inl e ↦ rw (e, through-mapped thread Double image_bytes c.ids_buffer _ k.ids_mapped) refl
      | inr e ↦
          rw (e, through-mapped thread Double image_bytes c.ids_buffer _ k.ids_mapped)
            (read_copied-read_at index (with_last thread Double image_bytes index r) c k h)
    ]

    read_shared-IsCopy_lem :
        (now : Shm thread) (moments : List (Shm thread)) (c : Copies thread)
        → IsCopy thread laws salmon_size shm later c
        → now.last_index < salmon_size
        → (read_shared thread Double image_bytes (now ∷ moments) frame r p c).0 ≡ (
            if laws.is_free shm.ids_mutex
            then returned (
                read_frame Double image_bytes
                  (some now.last_index ∷ [])
                  (laws.is_free (later.frame_mutex now.last_index))
                  frame
                  r
                  p)
            else waits)
    unfolding read_shared
    read_shared-IsCopy_lem now moments c k h = elim (Bool-cases (laws.is_free c.ids_mutex)) [
      | inl e ↦
          let (once, left) = attempts_of-free thread laws now moments c.ids_mutex e in
          rw (← k.ids, e, once)
            (after_attempts-read_frame now.last_index _
              (with_ids_mutex-IsCopy thread laws c _ k (left ∙ sym e)) h)
      | inr e ↦
          let never =
            (attempts_of-taken thread laws (now ∷ moments) c.ids_mutex r.last_index Double e).0 in
          rw (← k.ids, e, never) refl
    ]

    -- If mutexIdsInit and mutexFramesInit succeed and only calls of readFrame that return come next, then
    -- readFrame waits for ever if the mutex of the index was taken when it was copied; and if it was
    -- free, readFrame gets the index at its first attempt and returns, with the frame or without it as
    -- the mutex of the frame was free when it was copied. What the mutexes in shared memory do after
    -- that makes no difference. The index is assumed to be that of a frame.
    pub read_shared-read_frame :
        (before c : Copies thread)
        → Calls thread Double image_bytes
            (init_copies thread salmon_size opened opened shm later before)
            c
        → (now : Shm thread) (moments : List (Shm thread)) → now.last_index < salmon_size
        → (read_shared thread Double image_bytes (now ∷ moments) frame r p c).0 ≡ (
            if laws.is_free shm.ids_mutex
            then returned (
                read_frame Double image_bytes
                  (some now.last_index ∷ [])
                  (laws.is_free (later.frame_mutex now.last_index))
                  frame
                  r
                  p)
            else waits)
    read_shared-read_frame before c calls now moments h =
        read_shared-IsCopy_lem now moments c
          (Calls-IsCopy (init_copies-IsCopy thread laws salmon_size shm later before) calls) h
