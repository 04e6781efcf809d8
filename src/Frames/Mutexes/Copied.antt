-- ===== src/Frames/Mutexes/Copied.antt =====
-- readFrame of main.cpp on the mutexes that it has copied: what the mutexes in shared memory still matter.
use da_gis_service.Common.{
  ℕ, zero, suc, ◌<◌, ◌≡◌, ◌∙◌, refl, sym, ap, Bool, true, false, Option, none, some, List, [], ◌∷◌,
  ◌==◌, arith, if◌then◌else◌, Bool-cases, inl, inr,
}
use da_gis_service.Frames.{Frame, Reader, Position, read_ids}
use da_gis_service.Frames.Mutexes.{
  Pthread, Buffer, null, map_failed, mapped, Result, Reading, Shm, Copies, store_mutex,
  copy_mutexes, mutex_frames_init, mutex_ids_init, init_copies, with_ids_mutex, with_ipc_mutex,
  attempts_of, read_copied, read_shared, after_attempts, with_last, through,
}

-- What is documented of mutexes without owner checks: a mutex is free or not; `pthread_mutex_trylock` gives
-- 0 exactly on a free one and leaves it taken; `pthread_mutex_unlock` frees it.
pub record MutexLaws (thread : Pthread) : Type 0 where
  pub is_free : thread.Mutex → Bool
  pub trylock_result : (m : thread.Mutex) → (thread.trylock m).0 ≡ is_free m
  pub trylock_taken : (m : thread.Mutex) → is_free (thread.trylock m).1 ≡ false
  pub unlock_free : (m : thread.Mutex) → is_free (thread.unlock m) ≡ true

module _ (thread : Pthread) (Double : Type 0) (image_bytes : ℕ) where
  pub through-mapped :
      (b : Buffer) (next : Result (Reading thread Double image_bytes) × Copies thread)
      → b ≡ mapped
      → through thread Double image_bytes b next ≡ next
  through-mapped null next e = absurd cc
  through-mapped map_failed next e = absurd cc
  through-mapped mapped next e = refl

module _ (thread : Pthread) (laws : MutexLaws thread) where
  copy_mutexes-copied :
      (n : ℕ) (frame_mutex ipc_mutex : ℕ → thread.Mutex) (i : ℕ)
      → i < n
      → copy_mutexes thread n frame_mutex ipc_mutex i ≡ frame_mutex i
  unfolding copy_mutexes store_mutex
  copy_mutexes-copied zero frame_mutex ipc_mutex i h = absurd (omega (arith, h))
  copy_mutexes-copied (suc n) frame_mutex ipc_mutex i h = elim (Bool-cases (i == n)) [
    | inl e ↦ let same : i ≡ n = ground (arith, e) in rw (e, same) refl
    | inr e ↦ rw e (copy_mutexes-copied n frame_mutex ipc_mutex i (ground arith))
  ]

  -- Each copy is free as the mutex was that it copies, and the buffers are mapped.
  pub record IsCopy (salmon_size : ℕ) (shm later : Shm thread) (c : Copies thread) : Type 0 where
    pub ids_mapped : c.ids_buffer ≡ mapped
    pub img_mapped : c.img_buffer ≡ mapped
    pub ids : laws.is_free c.ids_mutex ≡ laws.is_free shm.ids_mutex
    pub ipc :
        (i : ℕ)
        → i < salmon_size
        → laws.is_free (c.ipc_mutex i) ≡ laws.is_free (later.frame_mutex i)

  pub init_copies-IsCopy :
      (salmon_size : ℕ) (shm later : Shm thread) (c : Copies thread)
      → IsCopy salmon_size shm later (
          init_copies thread salmon_size
            (record { is_open = true; is_mapped = true })
            (record { is_open = true; is_mapped = true })
            shm
            later
            c)
  unfolding init_copies mutex_frames_init mutex_ids_init
  init_copies-IsCopy salmon_size shm later c = record {
    ids_mapped = refl;
    img_mapped = refl;
    ids = refl;
    ipc =
        λ i h. ap laws.is_free (copy_mutexes-copied salmon_size later.frame_mutex c.ipc_mutex i h);
  }

  store_mutex-is_free :
      (index : ℕ) (m : thread.Mutex) (ipc_mutex : ℕ → thread.Mutex) (i : ℕ)
      → laws.is_free m ≡ laws.is_free (ipc_mutex index)
      → laws.is_free (store_mutex thread index m ipc_mutex i) ≡ laws.is_free (ipc_mutex i)
  unfolding store_mutex
  store_mutex-is_free index m ipc_mutex i e = elim (Bool-cases (i == index)) [
    | inl q ↦ let same : i ≡ index = ground (arith, q) in rw (q, same) e
    | inr q ↦ rw q refl
  ]

  -- `trylock`, and `unlock` if it gave 0, leave a mutex free as it was.
  trylock-is_free :
      (m : thread.Mutex)
      → laws.is_free (
          if (thread.trylock m).0 then thread.unlock (thread.trylock m).1 else (thread.trylock m).1)
        ≡ laws.is_free m
  trylock-is_free m = elim (Bool-cases (laws.is_free m)) [
    | inl e ↦ rw (laws.trylock_result m, e) (laws.unlock_free _)
    | inr e ↦ rw (laws.trylock_result m, e) (laws.trylock_taken m)
  ]

  pub attempts_of-free :
      (shm : Shm thread) (later : List (Shm thread)) (m : thread.Mutex)
      → laws.is_free m ≡ true
      → ((attempts_of thread (shm ∷ later) m).0 ≡ some shm.last_index ∷ [])
        × (laws.is_free (attempts_of thread (shm ∷ later) m).1 ≡ true)
  unfolding attempts_of
  attempts_of-free shm later m e = rw (laws.trylock_result m, e) (refl, laws.unlock_free _)

  attempts_of-nothing :
      (m : thread.Mutex) → laws.is_free (attempts_of thread [] m).1 ≡ laws.is_free m
  unfolding attempts_of
  attempts_of-nothing m = refl

  pub attempts_of-taken :
      (moments : List (Shm thread)) (m : thread.Mutex) (last : ℕ) (Double : Type 0)
      → laws.is_free m ≡ false
      → (read_ids Double (attempts_of thread moments m).0 last ≡ none)
        × (laws.is_free (attempts_of thread moments m).1 ≡ false)
  unfolding attempts_of read_ids
  attempts_of-taken [] m last Double e = (refl, e)
  attempts_of-taken (shm ∷ later) m last Double e =
      rw (laws.trylock_result m, e)
        (attempts_of-taken later (thread.trylock m).1 last Double (laws.trylock_taken m))

  pub with_ids_mutex-IsCopy :
      {salmon_size : ℕ} {shm later : Shm thread} (c : Copies thread) (m : thread.Mutex)
      → IsCopy salmon_size shm later c
      → laws.is_free m ≡ laws.is_free c.ids_mutex
      → IsCopy salmon_size shm later (with_ids_mutex thread m c)
  with_ids_mutex-IsCopy c m k e = record {
    ids_mapped = k.ids_mapped;
    img_mapped = k.img_mapped;
    ids = e ∙ k.ids;
    ipc = k.ipc;
  }

  with_ipc_mutex-IsCopy :
      {salmon_size : ℕ} {shm later : Shm thread} (c : Copies thread) (index : ℕ) (m : thread.Mutex)
      → IsCopy salmon_size shm later c
      → laws.is_free m ≡ laws.is_free (c.ipc_mutex index)
      → IsCopy salmon_size shm later (with_ipc_mutex thread index m c)
  with_ipc_mutex-IsCopy c index m k e = record {
    ids_mapped = k.ids_mapped;
    img_mapped = k.img_mapped;
    ids = k.ids;
    ipc = λ i h. store_mutex-is_free index m c.ipc_mutex i e ∙ k.ipc i h;
  }

  attempts_of-is_free :
      (moments : List (Shm thread)) (m : thread.Mutex)
      → laws.is_free (attempts_of thread moments m).1 ≡ laws.is_free m
  attempts_of-is_free [] m = attempts_of-nothing m
  attempts_of-is_free (shm ∷ later) m = elim (Bool-cases (laws.is_free m)) [
    | inl e ↦ (attempts_of-free shm later m e).1 ∙ sym e
    | inr e ↦ (attempts_of-taken (shm ∷ later) m 0 ℕ e).1 ∙ sym e
  ]

  module _ (Double : Type 0) (image_bytes salmon_size : ℕ) (shm later : Shm thread)
      (frame : ℕ → Frame Double) (p : Position Double) where
    read_copied-IsCopy :
        (index : Option ℕ) (r : Reader Double) (c : Copies thread)
        → IsCopy salmon_size shm later c
        → IsCopy salmon_size shm later (read_copied thread Double image_bytes index frame r p c).1
    unfolding read_copied
    read_copied-IsCopy none r c k = k
    read_copied-IsCopy (some index) r c k =
        let m = c.ipc_mutex index in
        elim (Bool-cases (laws.is_free m)) [
          | inl e ↦
              rw
                (
                  laws.trylock_result m,
                  e,
                  through-mapped thread Double image_bytes c.img_buffer _ k.img_mapped,
                )
                (with_ipc_mutex-IsCopy c index _ k (laws.unlock_free _ ∙ sym e))
          | inr e ↦
              rw (laws.trylock_result m, e)
                (with_ipc_mutex-IsCopy c index _ k (laws.trylock_taken m ∙ sym e))
        ]

    after_attempts-IsCopy :
        (read : Option (Option ℕ × ℕ)) (r : Reader Double) (c : Copies thread)
        → IsCopy salmon_size shm later c
        → IsCopy salmon_size shm later (after_attempts thread Double image_bytes read frame r p c).1
    after_attempts-IsCopy none r c k = k
    after_attempts-IsCopy (some (index, last)) r c k =
        rw (through-mapped thread Double image_bytes c.ids_buffer _ k.ids_mapped)
          (read_copied-IsCopy index (with_last thread Double image_bytes last r) c k)

    pub read_shared-IsCopy :
        (moments : List (Shm thread)) (r : Reader Double) (c : Copies thread)
        → IsCopy salmon_size shm later c
        → IsCopy salmon_size shm later (read_shared thread Double image_bytes moments frame r p c).1
    unfolding read_shared
    read_shared-IsCopy moments r c k =
        after_attempts-IsCopy _ r _
          (with_ids_mutex-IsCopy c _ k (attempts_of-is_free moments c.ids_mutex))
