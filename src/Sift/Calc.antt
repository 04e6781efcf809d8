-- ===== src/Sift/Calc.antt =====
-- calcsift of main.cpp as it stands: its result, and which memory it reads and writes.
use native.Mathlib.Nat.{mul-le-mul_right}
use da_gis_service.Common.{
  ℕ, zero, suc, ◌+◌, ◌-◌, ◌*◌, ◌/◌, leb, ltb, ◌&&◌, Bool-cases, Option-cases, inl, inr, ◌≤◌, ◌<◌,
  ◌≡◌, refl, ap, Bool, true, false, Option, some, List, arith,
}
use da_gis_service.Frames.{Memory, Frame, Box, memcpy, find_frame, copy_rows, read_part_frame}
use da_gis_service.Frames.Pixels.{PartRead, read_part_frame-PartRead}
use da_gis_service.Sift.{Floats, SfMatch, Matches, crop, after_detection, calcsift}

-- A box within an image.
pub record IsWithin (image_height image_width : ℕ) (b : Box) : Type 0 where
  pub right_edge : b.x + b.w ≤ image_width
  pub lower_edge : b.y + b.h ≤ image_height

module _ (v : Floats) where
  -- Three tenths of a number, and what twice that leaves of it, are at most its half; both with the integer
  -- parts of the doubles.
  pub record CropLaws : Type 0 where
    pub moved-bound : (x w : ℕ) → v.moved x w ≤ x + w / 2
    pub shrunk-bound : (w : ℕ) → v.shrunk w ≤ w / 2

  crop-IsWithin :
      CropLaws
      → (image_height image_width : ℕ) (b : Box) → IsWithin image_height image_width b
      → IsWithin image_height image_width (crop v b)
  unfolding crop
  crop-IsWithin laws image_height image_width b h = record {
    right_edge = omega (arith, laws.moved-bound b.x b.w, laws.shrunk-bound b.w, h.right_edge);
    lower_edge = omega (arith, laws.moved-bound b.y b.h, laws.shrunk-bound b.h, h.lower_edge);
  }

  -- Pixel `k` of row `j` of a box within an image is one of the image.
  IsWithin-pixel :
      (image_height image_width : ℕ) (b : Box) (j k : ℕ)
      → IsWithin image_height image_width b
      → j < b.h
      → k < b.w
      → b.y * image_width + b.x + j * image_width + k < image_height * image_width
  IsWithin-pixel image_height image_width b j k h row column =
      let rows : suc (b.y + j) * image_width ≤ image_height * image_width =
        mul-le-mul_right image_width (omega (arith, h.lower_edge, row)) in
      let sum : suc (b.y + j) * image_width ≡ image_width + b.y * image_width + j * image_width =
        grind arith in
      omega (arith, rows, sum, h.right_edge, column)

  -- The two sets of frames have the same ids, and the same pixels in the first image of each frame.
  pub record AgreeOnImages (image_height image_width : ℕ) (frame other : ℕ → Frame v.Double)
      : Type 0 where
    pub ids : (i : ℕ) → (frame i).id ≡ (other i).id
    pub pixels : (i a : ℕ) → a < image_height * image_width → (frame i).buf a ≡ (other i).buf a

  find_frame-agree :
      (frame other : ℕ → Frame v.Double)
      → ((i : ℕ) → (frame i).id ≡ (other i).id)
      → (n id : ℕ) → find_frame v.Double n frame id ≡ find_frame v.Double n other id
  unfolding find_frame
  find_frame-agree frame other same zero id = refl
  find_frame-agree frame other same (suc i) id =
      rw (same i, find_frame-agree frame other same i id) refl

  copy_rows-agree :
      (image_width n : ℕ) (b : Box) (buf other pict : Memory)
      → ((j k : ℕ)
          → j < n
          → k < b.w
          → buf (b.y * image_width + b.x + j * image_width + k)
            ≡ other (b.y * image_width + b.x + j * image_width + k))
      → (a : ℕ)
      → copy_rows v.Double image_width n b buf pict a
        ≡ copy_rows v.Double image_width n b other pict a
  unfolding copy_rows memcpy
  copy_rows-agree image_width zero b buf other pict h a = refl
  copy_rows-agree image_width (suc j) b buf other pict h a =
      elim (Bool-cases (leb (j * b.w) a && ltb a (j * b.w + b.w))) [
        | inl e ↦ rw e (h j (a - j * b.w) (omega arith) (ground (arith, e)))
        | inr e ↦ rw e (
            copy_rows-agree image_width j b buf other pict
              (λ i k row column. h i k (omega (arith, row)) column) a)
      ]

  module _ (sort : List (SfMatch v.Double) → List (SfMatch v.Double)) (image_width salmon_size : ℕ)
      (knn_match : Memory → Memory → Matches v) where
    -- A picture that is read is the same with other frames that agree with these on their images, and lies in
    -- the memory allocated for it.
    pub record IsRead (b : Box) (before pict other : Memory) : Type 0 where
      pub of_images : (a : ℕ) → pict a ≡ other a
      pub allocated : (a : ℕ) → b.h * b.w ≤ a → pict a ≡ before a

    PartRead-allocated :
        (frame : ℕ → Frame v.Double) (b : Box) (before : Memory) (r : Bool × Memory)
        → PartRead v.Double image_width salmon_size frame b before r
        → (a : ℕ) → b.h * b.w ≤ a
        → r.1 a ≡ before a
    PartRead-allocated frame b before (true, pict) (i, latest, cut) a h = cut.rest a h
    PartRead-allocated frame b before (false, pict) (missing, same) a h =
        ap (λ (m : Memory). m a) same

    -- What calcsift comes to, for these frames and for others.
    pub record IsNotFinished (left right : Box) (left_before right_before : Memory)
        (r other : Option v.Double × Memory × Memory) : Type 0 where
      pub not_finished : r.0 ≡ some v.not_finished
      pub left_read : IsRead (crop v left) left_before r.1 other.1
      pub right_read : IsRead (crop v right) right_before r.2 other.2

    read_part_frame-agree :
        (image_height : ℕ) (frame other : ℕ → Frame v.Double) (b : Box) (before : Memory)
        → AgreeOnImages image_height image_width frame other
        → IsWithin image_height image_width b
        → (a : ℕ)
        → (read_part_frame v.Double image_width salmon_size frame b before).1 a
          ≡ (read_part_frame v.Double image_width salmon_size other b before).1 a
    unfolding read_part_frame
    read_part_frame-agree image_height frame other b before agree h a =
        let same = find_frame-agree frame other agree.ids salmon_size b.id in
        elim (Option-cases (find_frame v.Double salmon_size other b.id)) [
          | inl missing ↦ rw (same, missing, read_part_frame) refl
          | inr (i, found) ↦
              rw (same, found, read_part_frame)
                (copy_rows-agree image_width b.h b (frame i).buf (other i).buf before
                  (λ j k row column.
                    agree.pixels i _ (IsWithin-pixel image_height image_width b j k h row column))
                  a)
        ]

    read_part_frame-IsRead :
        (image_height : ℕ) (frame other : ℕ → Frame v.Double) (b : Box) (before : Memory)
        → AgreeOnImages image_height image_width frame other
        → IsWithin image_height image_width b
        → IsRead b before
            (read_part_frame v.Double image_width salmon_size frame b before).1
            (read_part_frame v.Double image_width salmon_size other b before).1
    read_part_frame-IsRead image_height frame other b before agree h = record {
      of_images = read_part_frame-agree image_height frame other b before agree h;
      allocated =
          PartRead-allocated frame b before _
            (read_part_frame-PartRead v.Double image_width salmon_size frame b before);
    }

    -- For boxes within an image, calcsift takes nothing but the pixels of the first image of a frame: with
    -- other frames that have the same ids and agree on these pixels it reads the same pictures. It writes
    -- nothing outside the memory that it has allocated for the middles of the boxes, and always returns
    -- SIFT_IS_NOT_FINISHED.
    pub calcsift-IsNotFinished :
        CropLaws
        → (image_height : ℕ) (frame other : ℕ → Frame v.Double) (left right : Box)
          (left_before right_before : Memory)
        → AgreeOnImages image_height image_width frame other
        → IsWithin image_height image_width left
        → IsWithin image_height image_width right
        → IsNotFinished left right left_before right_before
            (calcsift v sort image_width salmon_size frame knn_match left right left_before
              right_before)
            (calcsift v sort image_width salmon_size other knn_match left right left_before
              right_before)
    unfolding calcsift after_detection
    calcsift-IsNotFinished laws image_height frame other left right left_before right_before agree
          hl hr =
        record {
          not_finished = refl;
          left_read =
              read_part_frame-IsRead image_height frame other (crop v left) left_before agree
                (crop-IsWithin laws image_height image_width left hl);
          right_read =
              read_part_frame-IsRead image_height frame other (crop v right) right_before agree
                (crop-IsWithin laws image_height image_width right hr);
        }
