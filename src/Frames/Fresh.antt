-- ===== src/Frames/Fresh.antt =====
-- readFrame of main.cpp: when it ends, and what it then has read.
use da_gis_service.Common.{
  ℕ, ◌+◌, ◌-◌, ◌≤◌, ◌<◌, ◌≡◌, ◌≢◌, ◌⊎◌, inl, inr, refl, ap, sym, ◌∙◌, Bool, true, false, Option,
  none, some, List, [], ◌∷◌, arith, ◌==◌, Bool-cases, All,
}
use da_gis_service.Frames.{Memory, Frame, memcpy, Reader, Position, read_ids, read_at, read_frame}

-- Every attempt finds the mutex busy.
abbrev pub AllBusy : List (Option ℕ) → Type 0
AllBusy attempts = All (λ (a : Option ℕ). a ≡ none) attempts

-- The first attempt that gets the mutex reads this index.
abbrev pub FirstFree : List (Option ℕ) → ℕ → Type 0
FirstFree [] index = ⊥
FirstFree (none ∷ attempts) index = FirstFree attempts index
FirstFree (some i ∷ attempts) index = i ≡ index

attempts_cases :
    (attempts : List (Option ℕ)) → AllBusy attempts ⊎ ((index : ℕ) × FirstFree attempts index)
attempts_cases [] = inl tt
attempts_cases (none ∷ attempts) = elim (attempts_cases attempts) [
  | inl busy ↦ inl (refl, busy)
  | inr free ↦ inr free
]
attempts_cases (some i ∷ attempts) = inr (i, refl)

memcpy_first :
    (src : Memory) (n : ℕ) (dst : Memory) (a : ℕ) → a < n → memcpy 0 src 0 n dst a ≡ src a
unfolding memcpy
memcpy_first src n dst a h =
    let offset : 0 + (a - 0) ≡ a = omega arith in rw offset (ground (arith, h))

memcpy_after :
    (src : Memory) (n : ℕ) (dst : Memory) (a : ℕ) → n ≤ a → memcpy 0 src 0 n dst a ≡ dst a
unfolding memcpy
memcpy_after src n dst a h = ground (arith, h)

pub FirstFree-same :
    (attempts : List (Option ℕ)) (i j : ℕ) → FirstFree attempts i → FirstFree attempts j → i ≡ j
FirstFree-same [] i j h k = elim h [ ]
FirstFree-same (none ∷ attempts) i j h k = FirstFree-same attempts i j h k
FirstFree-same (some a ∷ attempts) i j h k = cc

pub FirstFree-not_busy :
    (attempts : List (Option ℕ)) (i : ℕ) → FirstFree attempts i → ¬ AllBusy attempts
FirstFree-not_busy [] i h busy = elim h [ ]
FirstFree-not_busy (none ∷ attempts) i h (_, busy) = FirstFree-not_busy attempts i h busy
FirstFree-not_busy (some a ∷ attempts) i h (e, busy) = cc

module _ (Double : Type 0) where
  read_ids-busy :
      (attempts : List (Option ℕ)) (last : ℕ)
      → AllBusy attempts
      → read_ids Double attempts last ≡ none
  unfolding read_ids
  read_ids-busy [] last h = refl
  read_ids-busy (none ∷ attempts) last (_, h) = read_ids-busy attempts last h
  read_ids-busy (some i ∷ attempts) last (e, h) = absurd cc

  read_ids-same :
      (attempts : List (Option ℕ)) (last index : ℕ)
      → FirstFree attempts index
      → index ≡ last
      → read_ids Double attempts last ≡ some (none, last)
  unfolding read_ids
  read_ids-same [] last index h e = elim h [ ]
  read_ids-same (none ∷ attempts) last index h e = read_ids-same attempts last index h e
  read_ids-same (some i ∷ attempts) last index h e = ground arith

  read_ids-new :
      (attempts : List (Option ℕ)) (last index : ℕ)
      → FirstFree attempts index
      → index ≢ last
      → read_ids Double attempts last ≡ some (some index, index)
  unfolding read_ids
  read_ids-new [] last index h e = elim h [ ]
  read_ids-new (none ∷ attempts) last index h e = read_ids-new attempts last index h e
  read_ids-new (some i ∷ attempts) last index h e = rw h (ground (arith, h, e))

  abbrev pub with_index : ℕ → Reader Double → Reader Double
  with_index index r = record { imgsum = r.imgsum; last_time = r.last_time; last_index = index }

  -- The images and the time are those of the frame, and the rest of the memory is as before.
  pub record HasFrame (image_bytes : ℕ) (f : Frame Double) (index : ℕ) (before r : Reader Double)
      : Type 0 where
    pub images : (a : ℕ) → a < image_bytes → r.imgsum a ≡ f.buf a
    pub beyond : (a : ℕ) → image_bytes ≤ a → r.imgsum a ≡ before.imgsum a
    pub has_time : r.last_time ≡ f.time
    pub has_index : r.last_index ≡ index

  abbrev pub position_of : Frame Double → Position Double
  position_of f = record { id = f.id; time = f.time_gns; lat = f.lat; lon = f.lon }

  module _ (image_bytes : ℕ) (attempts : List (Option ℕ)) (is_free : Bool)
      (frame : ℕ → Frame Double) (r : Reader Double) (p : Position Double) where
    -- What a call of readFrame comes to.
    pub data Attempt (o : Option (Bool × Reader Double × Position Double)) : Type 0 where
      waits : AllBusy attempts → o ≡ none → Attempt o
      same_index : FirstFree attempts r.last_index → o ≡ some (false, r, p) → Attempt o
      frame_busy :
          (index : ℕ)
          → FirstFree attempts index
          → index ≢ r.last_index
          → is_free ≡ false
          → o ≡ some (true, with_index index r, p)
          → Attempt o
      reads :
          (index : ℕ) (after : Reader Double)
          → FirstFree attempts index
          → index ≢ r.last_index
          → is_free ≡ true
          → HasFrame image_bytes (frame index) index r after
          → o ≡ some (true, after, position_of (frame index))
          → Attempt o

    memcpy-HasFrame :
        (index : ℕ)
        → HasFrame image_bytes (frame index) index r (record {
          imgsum = memcpy 0 (frame index).buf 0 image_bytes r.imgsum;
          last_time = (frame index).time;
          last_index = index;
        })
    memcpy-HasFrame index = record {
      images = λ a h. memcpy_first (frame index).buf image_bytes r.imgsum a h;
      beyond = λ a h. memcpy_after (frame index).buf image_bytes r.imgsum a h;
      has_time = refl;
      has_index = refl;
    }

    read_new :
        (index : ℕ) (free : Bool)
        → is_free ≡ free
        → FirstFree attempts index
        → index ≢ r.last_index
        → Attempt (read_frame Double image_bytes attempts is_free frame r p)
    unfolding read_frame read_at
    read_new index false e h new =
        frame_busy index h new e (rw (read_ids-new attempts r.last_index index h new, e) refl)
    read_new index true e h new =
        reads index _ h new e (memcpy-HasFrame index)
          (rw (read_ids-new attempts r.last_index index h new, e) refl)

    -- readFrame waits as long as the mutex of the index is busy. Then it returns -1 and changes nothing if
    -- the index is that of its last call. Else it keeps the index and returns 0: with the images, the
    -- time and the position of the frame if its mutex is free, and with neither if it is busy.
    pub read_frame-Attempt : Attempt (read_frame Double image_bytes attempts is_free frame r p)
    unfolding read_frame read_at
    read_frame-Attempt = elim (attempts_cases attempts) [
      | inl busy ↦ waits busy (rw (read_ids-busy attempts r.last_index busy) refl)
      | inr (index, h) ↦ elim (Bool-cases (index == r.last_index)) [
        | inl e ↦
            let same : index ≡ r.last_index = ground (arith, e) in
            same_index (rw (← same) h) (rw (read_ids-same attempts r.last_index index h same) refl)
        | inr e ↦ read_new index is_free refl h (ground (arith, e))
      ]
    ]

    Attempt-last_index :
        {o : Option (Bool × Reader Double × Position Double)}
        → Attempt o
        → (ok : Bool) (after : Reader Double) (q : Position Double) (index : ℕ)
        → o ≡ some (ok, after, q)
        → FirstFree attempts index
        → after.last_index ≡ index
    Attempt-last_index (waits busy e) ok after q index first saw = absurd cc
    Attempt-last_index (same_index h e) ok after q index first saw =
        let unchanged : r ≡ after = cc in
        ap (λ (x : Reader Double). x.last_index) (sym unchanged)
        ∙ FirstFree-same attempts r.last_index index h saw
    Attempt-last_index (frame_busy i h new busy e) ok after q index first saw =
        let kept : with_index i r ≡ after = cc in
        ap (λ (x : Reader Double). x.last_index) (sym kept) ∙ FirstFree-same attempts i index h saw
    Attempt-last_index (reads i next h new free has e) ok after q index first saw =
        let read : next ≡ after = cc in
        ap (λ (x : Reader Double). x.last_index) (sym read)
        ∙ (has.has_index ∙ FirstFree-same attempts i index h saw)

  -- After a call of readFrame that saw an index, a call that sees the same index reads nothing and returns
  -- -1, even if the mutex of the frame was busy before and is free now.
  pub read_frame-read_frame :
      (image_bytes : ℕ) (attempts later : List (Option ℕ)) (is_free is_free_later : Bool)
      (frame frame_later : ℕ → Frame Double) (r after : Reader Double)
      (p q position : Position Double) (ok : Bool) (index : ℕ)
      → read_frame Double image_bytes attempts is_free frame r p ≡ some (ok, after, q)
      → FirstFree attempts index
      → FirstFree later index
      → read_frame Double image_bytes later is_free_later frame_later after position
        ≡ some (false, after, position)
  unfolding read_frame read_at
  read_frame-read_frame image_bytes attempts later is_free is_free_later frame frame_later r after p
        q position ok index first saw sees =
      let kept : after.last_index ≡ index =
        Attempt-last_index image_bytes attempts is_free frame r p
          (read_frame-Attempt image_bytes attempts is_free frame r p) ok after q index first saw in
      rw (read_ids-same later after.last_index index sees (sym kept)) refl
