-- ===== src/Passage/Rows.antt =====
-- The pictures of savePassage of main.cpp and the rows that jpegProc gives to libjpeg.
use da_gis_service.Common.{
  ℕ, zero, suc, ◌+◌, ◌*◌, ◌≤◌, ◌<◌, ◌≡◌, ◌∙◌, refl, ap, true, List, [], ◌∷◌, Bytes, arith, ltb,
}
use da_gis_service.Frames.{Memory}
use da_gis_service.Passage.{
  Mat, mat, OpenCv, LocalTime, black_string, full_picture, read_bytes, write_scanlines,
}

-- The pixel of a row and a column.
abbrev pub pixel : Mat → (r c : ℕ) → ℕ
pixel m r c = m.pixels (r * m.cols + c)

-- Two pictures of the same width have the same pixels in a row.
abbrev pub SameRow : (r : ℕ) (a b : Mat) → Type 0
SameRow r a b = (c : ℕ) → c < b.cols → pixel a r c ≡ pixel b r c

-- What is asked of OpenCV. A text in this font and size is less than 45 pixels high above its origin.
pub record OpenCvLaws (cv : OpenCv) : Type 0 where
  pub copy_to-cols : (src dst : Mat) (x y w h : ℕ) → (cv.copy_to src dst x y w h).cols ≡ dst.cols
  pub copy_to-rows :
      (src dst : Mat) (r : ℕ)
      → src.cols ≡ dst.cols
      → src.rows ≤ dst.rows
      → r < src.rows
      → SameRow r (cv.copy_to src dst 0 0 src.cols src.rows) src
  pub rectangle-cols : (m : Mat) (x0 y0 x1 y1 : ℕ) → (cv.rectangle m x0 y0 x1 y1).cols ≡ m.cols
  pub rectangle-above :
      (m : Mat) (x0 y0 x1 y1 r : ℕ) → y0 ≤ y1 → r < y0 → SameRow r (cv.rectangle m x0 y0 x1 y1) m
  pub put_text-cols : (m : Mat) (text : Bytes) (x y : ℕ) → (cv.put_text m text x y).cols ≡ m.cols
  pub put_text-above :
      (m : Mat) (text : Bytes) (x y r : ℕ) → r + 45 < y → SameRow r (cv.put_text m text x y) m

-- Rows of `w` bytes, one after the other, from an address on.
abbrev pub rows_at : (w n at : ℕ) → Memory → List Bytes
rows_at w zero at m = []
rows_at w (suc n) at m = read_bytes w at m ∷ rows_at w n (at + w) m

pub read_bytes-same :
    (n at : ℕ) (m m' : Memory)
    → ((k : ℕ) → k < n → m (at + k) ≡ m' (at + k))
    → read_bytes n at m ≡ read_bytes n at m'
unfolding read_bytes
read_bytes-same zero at m m' h = refl
read_bytes-same (suc n) at m m' h =
    let first = h 0 (omega arith) in
    let e : at + 0 ≡ at = omega arith in
    let here : m at ≡ m' at = rw e at first in
    let rest = read_bytes-same n (suc at) m m' (λ k le.
      let e' : at + suc k ≡ suc at + k = omega arith in
      let later = h (suc k) (omega (arith, le)) in rw e' at later) in
    rw (here, rest) refl

module _ (image_height image_width : ℕ) where
  -- With fuel for all the rows left, the loop of jpegProc gives one row after the other, up to the height.
  write_scanlines-rows_at :
      (fuel next : ℕ) (m : Memory)
      → next + fuel ≡ image_height
      → write_scanlines image_height image_width fuel next m
        ≡ rows_at image_width fuel (next * image_width) m
  unfolding write_scanlines
  write_scanlines-rows_at zero next m h = refl
  write_scanlines-rows_at (suc fuel) next m h =
      let more : ltb next image_height ≡ true = ground (arith, h) in
      let at : (next + 1) * image_width ≡ next * image_width + image_width = grind arith in
      let rest = write_scanlines-rows_at fuel (next + 1) m (omega (arith, h)) in
      rw more (ap (λ t. read_bytes image_width (next * image_width) m ∷ t) (rest ∙ rw at refl))

  -- Rows that are the same up to the height are the same for libjpeg.
  rows_at-same :
      (n next : ℕ) (m m' : Memory)
      → ((r c : ℕ)
          → r < next + n
          → c < image_width
          → m (r * image_width + c) ≡ m' (r * image_width + c))
      → rows_at image_width n (next * image_width) m ≡ rows_at image_width n (next * image_width) m'
  rows_at-same zero next m m' h = refl
  rows_at-same (suc n) next m m' h =
      let row =
        read_bytes-same image_width (next * image_width) m m' (λ k le. h next k (omega arith) le) in
      let at : (next + 1) * image_width ≡ next * image_width + image_width = grind arith in
      let rest = rows_at-same n (next + 1) m m' (λ r c le lw. h r c (omega (arith, le)) lw) in
      rw row (ap (λ t. read_bytes image_width (next * image_width) m' ∷ t) (rw at at rest))

  module _ (cv : OpenCv) (laws : OpenCvLaws cv) (localtime : ℕ → LocalTime) where
    -- The rows of the image are those of the picture, whatever text stands below.
    full_picture-SameRow :
        (fresh fact : Memory) (text : Bytes) (r c : ℕ)
        → r < image_height
        → c < image_width
        → (full_picture image_height image_width cv localtime fresh fact text).pixels
            (r * image_width + c)
          ≡ fact (r * image_width + c)
    unfolding full_picture
    full_picture-SameRow fresh fact text r c in_image in_row =
        let full = mat (image_height + black_string) image_width fresh in
        let image = mat image_height image_width fact in
        let copied = cv.copy_to image full 0 0 image_width image_height in
        let black = cv.rectangle copied 0 image_height image_width (image_height + black_string) in
        let copied_cols : copied.cols ≡ image_width =
          laws.copy_to-cols image full 0 0 image_width image_height in
        let black_cols : black.cols ≡ image_width =
          laws.rectangle-cols copied _ _ _ _ ∙ copied_cols in
        let text_cols = laws.put_text-cols black text 15 (image_height + 45) ∙ black_cols in
        let a =
          laws.put_text-above black text 15 (image_height + 45) r (omega (arith, in_image)) c
            (rw black_cols in_row) in
        let b =
          laws.rectangle-above copied 0 image_height image_width (image_height + black_string) r
            (omega arith) in_image c (rw copied_cols in_row) in
        let d = laws.copy_to-rows image full r refl (omega arith) in_image c in_row in
        rw text_cols at (a ∙ (b ∙ d))

    -- The rows that jpegProc gives to libjpeg for the picture of an image are the rows of the image.
    pub full_picture-rows_at :
        (fresh fact : Memory) (text : Bytes)
        → write_scanlines image_height image_width image_height 0
            (full_picture image_height image_width cv localtime fresh fact text).pixels
          ≡ rows_at image_width image_height 0 fact
    full_picture-rows_at fresh fact text =
        let m = (full_picture image_height image_width cv localtime fresh fact text).pixels in
        let start : 0 * image_width ≡ 0 = omega arith in
        let given = write_scanlines-rows_at image_height 0 m (omega arith) in
        let same =
          rows_at-same image_height 0 m fact
            (λ r c le lw. full_picture-SameRow fresh fact text r c (omega (arith, le)) lw) in
        rw start at (given ∙ same)
