-- ===== src/Frames/Pixels.antt =====
-- readPartFrame of main.cpp: which bytes of a frame end up where in the picture.
use native.Mathlib.Nat.{mul-le-mul_right}
use da_gis_service.Common.{
  ℕ, zero, suc, ◌+◌, ◌*◌, ◌-◌, ◌≤◌, ◌<◌, ◌≡◌, ◌≢◌, refl, Bool, true, false, Option, none, some,
  arith, ◌==◌, ◌⊎◌, Bool-cases, Option-cases, inl, inr,
}
use da_gis_service.Frames.{Memory, Frame, Box, memcpy, find_frame, copy_rows, read_part_frame}

-- The end of a row comes before the start of a later one.
pub row_end : (w j n : ℕ) → j < n → j * w + w ≤ n * w
row_end w j n h =
    let p : suc j * w ≤ n * w = mul-le-mul_right w (omega (arith, h)) in omega (arith, p)

memcpy-inside :
    (at : ℕ) (src : Memory) (from n : ℕ) (dst : Memory) (k : ℕ)
    → k < n
    → memcpy at src from n dst (at + k) ≡ src (from + k)
unfolding memcpy
memcpy-inside at src from n dst k h =
    let offset : at + k - at ≡ k = omega arith in rw offset (ground (arith, h))

memcpy-outside :
    (at : ℕ) (src : Memory) (from n : ℕ) (dst : Memory) (a : ℕ)
    → (a < at) ⊎ (at + n ≤ a)
    → memcpy at src from n dst a ≡ dst a
unfolding memcpy
memcpy-outside at src from n dst a h = ground (arith, h)

module _ (Double : Type 0) where
  -- The frame found is the last with the id, among the first `n`.
  pub record IsLatest (n : ℕ) (frame : ℕ → Frame Double) (id i : ℕ) : Type 0 where
    pub below : i < n
    pub matches : (frame i).id ≡ id
    pub latest : (k : ℕ) → i < k → k < n → (frame k).id ≢ id

  -- What find_frame comes to.
  abbrev pub Found : ℕ → (ℕ → Frame Double) → ℕ → Option ℕ → Type 0
  Found n frame id none = (k : ℕ) → k < n → (frame k).id ≢ id
  Found n frame id (some i) = IsLatest n frame id i

  Found-next :
      (n : ℕ) (frame : ℕ → Frame Double) (id : ℕ) (o : Option ℕ)
      → (frame n).id ≢ id
      → Found n frame id o
      → Found (suc n) frame id o
  Found-next n frame id none other h = λ k le. elim (Bool-cases (k == n)) [
    | inl e ↦ let same : k ≡ n = ground (arith, e) in rw same other
    | inr e ↦ h k (ground (arith, le, e))
  ]
  Found-next n frame id (some i) other h = record {
    below = omega (arith, h.below);
    matches = h.matches;
    latest = λ k gt le. elim (Bool-cases (k == n)) [
      | inl e ↦ let same : k ≡ n = ground (arith, e) in rw same other
      | inr e ↦ h.latest k gt (ground (arith, le, e))
    ];
  }

  find_frame-Found :
      (n : ℕ) (frame : ℕ → Frame Double) (id : ℕ) → Found n frame id (find_frame Double n frame id)
  unfolding find_frame
  find_frame-Found zero frame id = λ k le. absurd (omega (arith, le))
  find_frame-Found (suc n) frame id = elim (Bool-cases ((frame n).id == id)) [
    | inl e ↦ rw e (record {
      below = omega arith;
      matches = ground (arith, e);
      latest = λ k gt le. absurd (omega (arith, gt, le));
    })
    | inr e ↦ rw e (
        Found-next n frame id (find_frame Double n frame id) (ground (arith, e))
          (find_frame-Found n frame id))
  ]

  module _ (image_width : ℕ) (bx : Box) (buf pic : Memory) where
    -- Where pixel `k` of row `j` of the box stands in the frame.
    abbrev pub source_of : (j k : ℕ) → ℕ
    source_of j k = bx.y * image_width + bx.x + j * image_width + k

    copy_rows-beyond :
        (n a : ℕ) → n * bx.w ≤ a → copy_rows Double image_width n bx buf pic a ≡ pic a
    unfolding copy_rows
    copy_rows-beyond zero a h = refl
    copy_rows-beyond (suc n) a h =
        rw
          (memcpy-outside (n * bx.w) buf (bx.y * image_width + bx.x + n * image_width) bx.w
            (copy_rows Double image_width n bx buf pic) a (inr (omega (arith, h))))
          (copy_rows-beyond n a (omega (arith, h)))

    copy_rows-pixel :
        (n j k : ℕ)
        → j < n
        → k < bx.w
        → copy_rows Double image_width n bx buf pic (j * bx.w + k) ≡ buf (source_of j k)
    unfolding copy_rows
    copy_rows-pixel zero j k row column = absurd (omega (arith, row))
    copy_rows-pixel (suc n) j k row column = elim (Bool-cases (j == n)) [
      | inl e ↦
          let same : j ≡ n = ground (arith, e) in
          rw same (
            memcpy-inside (n * bx.w) buf (bx.y * image_width + bx.x + n * image_width) bx.w
              (copy_rows Double image_width n bx buf pic) k column)
      | inr e ↦
          let earlier : j < n = ground (arith, row, e) in
          rw
            (memcpy-outside (n * bx.w) buf (bx.y * image_width + bx.x + n * image_width) bx.w
              (copy_rows Double image_width n bx buf pic) (j * bx.w + k)
              (inl (omega (arith, row_end bx.w j n earlier, column))))
            (copy_rows-pixel n j k earlier column)
    ]

  -- Row after row, the first `h * w` bytes of the picture are the pixels of the box in the frame, and
  -- the rest of the picture is as before.
  pub record IsCut (image_width : ℕ) (bx : Box) (buf before pic : Memory) : Type 0 where
    pub pixels :
        (j k : ℕ)
        → j < bx.h
        → k < bx.w
        → pic (j * bx.w + k) ≡ buf (bx.y * image_width + bx.x + j * image_width + k)
    pub rest : (a : ℕ) → bx.h * bx.w ≤ a → pic a ≡ before a

  -- What readPartFrame comes to: the box cut out of the latest frame with its id, or no change.
  abbrev pub PartRead :
      (image_width salmon_size : ℕ) → (ℕ → Frame Double) → Box → Memory → Bool × Memory → Type 0
  PartRead image_width salmon_size frame bx before (true, pic) =
      (i : ℕ) × IsLatest salmon_size frame bx.id i × IsCut image_width bx (frame i).buf before pic
  PartRead image_width salmon_size frame bx before (false, pic) =
      ((k : ℕ) → k < salmon_size → (frame k).id ≢ bx.id) × (pic ≡ before)

  -- readPartFrame succeeds exactly if a frame has the id of the box. Then the picture starts with the
  -- rows of the box in the last such frame, and goes on as before; otherwise it is left alone.
  pub read_part_frame-PartRead :
      (image_width salmon_size : ℕ) (frame : ℕ → Frame Double) (bx : Box) (pic : Memory)
      → PartRead image_width salmon_size frame bx pic
          (read_part_frame Double image_width salmon_size frame bx pic)
  unfolding read_part_frame
  read_part_frame-PartRead image_width salmon_size frame bx pic =
      let found = find_frame-Found salmon_size frame bx.id in
      elim (Option-cases (find_frame Double salmon_size frame bx.id)) [
        | inl e ↦ rw (e, PartRead, read_part_frame) (rw e at found, refl)
        | inr (i, e) ↦
            rw (e, PartRead, read_part_frame)
              (
                i,
                rw e at found,
                record {
                  pixels = copy_rows-pixel image_width bx (frame i).buf pic bx.h;
                  rest = copy_rows-beyond image_width bx (frame i).buf pic bx.h;
                },
              )
      ]
