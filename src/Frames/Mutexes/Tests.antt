-- ===== src/Frames/Mutexes/Tests.antt =====
-- The copied mutexes of main.cpp: shared memory with a mutex taken or free.
use da_gis_service.Common.{ℕ, zero, suc, ◌≡◌, refl, Bool, true, false, some, [], ◌∷◌, arith}
use da_gis_service.Frames.{read_at, read_ids, read_frame}
use da_gis_service.Frames.Tests.{frames, reader, unset}
use da_gis_service.Frames.Mutexes.{
  Pthread, waits, Opening, Shm, Copies, initial_copies, store_mutex, copy_mutexes,
  mutex_frames_init, mutex_ids_init, init_copies, attempts_of, read_copied, read_shared, Calls,
  none_yet, called,
}
use da_gis_service.Frames.Mutexes.Copied.{MutexLaws}
use da_gis_service.Frames.Mutexes.Ignored.{opened, returned, read_shared-read_frame}

-- A mutex is its number of owners.
abbrev is_zero : ℕ → Bool
is_zero zero = true
is_zero (suc n) = false

abbrev counted : Pthread
counted = record { Mutex = ℕ; zero_mutex = 0; trylock = λ m. (is_zero m, 1); unlock = λ m. 0 }

abbrev counted_laws : MutexLaws counted
counted_laws = record {
  is_free = is_zero;
  trylock_result = λ m. refl;
  trylock_taken = λ m. refl;
  unlock_free = λ m. refl;
}

abbrev free_ids : Shm counted
free_ids = record { last_index = 0; ids_mutex = 0; frame_mutex = λ _. 0 }

abbrev taken_ids : Shm counted
taken_ids = record { last_index = 1; ids_mutex = 1; frame_mutex = λ _. 1 }

abbrev copies : Shm counted → Copies counted
copies shm = init_copies counted 2 opened opened shm shm (initial_copies counted)

abbrev unopened : Opening
unopened = record { is_open = false; is_mapped = false }

mutexes : Unit {0}
unfolding store_mutex copy_mutexes mutex_frames_init mutex_ids_init init_copies attempts_of
    read_copied read_shared read_ids read_at
mutexes = tt

-- The frame is read while its writer holds both mutexes, and no call ever reads one if the mutex of the
-- index was taken when it was copied.
held_run :
    ((read_shared counted ℕ 8 (taken_ids ∷ []) frames reader unset (copies free_ids)).0
      ≡ returned (read_frame ℕ 8 (some 1 ∷ []) true frames reader unset))
    × ((read_shared counted ℕ 8 (free_ids ∷ free_ids ∷ []) frames reader unset (copies taken_ids)).0
        ≡ waits)
unfolding mutexes read_frame
held_run = (refl, refl)

abbrev after_call : Copies counted
after_call = (read_shared counted ℕ 8 (taken_ids ∷ []) frames reader unset (copies free_ids)).1

first_call : Calls counted ℕ 8 (copies free_ids) after_call
unfolding mutexes
first_call = called _ (taken_ids ∷ []) frames reader unset _ none_yet refl

read_shared-read_frame_example :
    (read_shared counted ℕ 8 (taken_ids ∷ []) frames reader unset after_call).0
    ≡ returned (read_frame ℕ 8 (some 1 ∷ []) true frames reader unset)
read_shared-read_frame_example =
    read_shared-read_frame counted counted_laws ℕ 8 2 free_ids free_ids frames reader unset
      (initial_copies counted) after_call first_call taken_ids [] (omega arith)
