-- ===== src/Passage/Sent.antt =====
-- The images that thrVerifyServer of main.cpp sends, from the frame to the texts in left_b64 and right_b64.
use da_gis_service.Common.{
  ℕ, zero, suc, ◌+◌, ◌*◌, ◌≤◌, ◌<◌, ◌≡◌, ◌≢◌, ◌∙◌, refl, ap, true, Option, some, inl, inr, List,
  ◌∷◌, Bytes, arith, length,
}
use da_gis_service.Frames.{Memory, Frame, Reader}
use da_gis_service.Frames.Fresh.{
  HasFrame, FirstFree, FirstFree-same, FirstFree-not_busy, position_of,
}
use da_gis_service.VerifyServer.{verify_time, Doubles, Surroundings, Globals, read_and_compress}
use da_gis_service.VerifyServer.Collected.{
  Collected, waits_for_index, no_frame, of_frame, waits_for_pipe, of_pipe, of_nothing, globals_of,
  read_and_compress-Collected,
}
use da_gis_service.Passage.{
  OpenCv, LocalTime, full_picture, save_passage, read_bytes, put, jpeg_proc, text_at, b64_size,
  Buffers, compress_picture, compress_images, encode,
}
use da_gis_service.Passage.Rows.{OpenCvLaws, rows_at, read_bytes-same, full_picture-rows_at}
use da_gis_service.Passage.Texts.{Base64Laws, put-Holds, take_all, end_text-Holds, most_bytes}

read_bytes-from :
    (k n at : ℕ) (m : Memory) → read_bytes n at (λ a. m (k + a)) ≡ read_bytes n (k + at) m
unfolding read_bytes
read_bytes-from k zero at m = refl
read_bytes-from k (suc n) at m =
    let e : k + suc at ≡ suc (k + at) = omega arith in
    ap (λ t. m (k + at) ∷ t) (read_bytes-from k n (suc at) m ∙ rw e refl)

-- The second image of a frame stands behind the first.
rows_at-from :
    (k w n at : ℕ) (m : Memory) → rows_at w n at (λ a. m (k + a)) ≡ rows_at w n (k + at) m
rows_at-from k w zero at m = refl
rows_at-from k w (suc n) at m =
    let e : k + (at + w) ≡ k + at + w = omega arith in
    rw (read_bytes-from k w at m)
      (ap (λ t. read_bytes w (k + at) m ∷ t) (rows_at-from k w n (at + w) m ∙ rw e refl))

module _ (image_height image_width : ℕ) (cv : OpenCv) (laws : OpenCvLaws cv)
    (localtime : ℕ → LocalTime) (jpeg : (width height : ℕ) → List Bytes → Bytes)
    (base64 : Bytes → Bytes) (base64_laws : Base64Laws base64) where
  -- The JPEG of the image that starts at an address.
  abbrev pub jpeg_at : (at : ℕ) → Memory → Bytes
  jpeg_at at m = jpeg image_width image_height (rows_at image_width image_height at m)

  -- A JPEG for which there is room in the arrays.
  pub record Fits (s : Bytes) : Type 0 where
    pub in_jpg_mem : length s ≤ image_height * image_width
    pub in_b64 : length s ≤ most_bytes

  compress_picture-rows_at :
      (dst b64 fresh fact : Memory) (text : Bytes)
      → Fits (jpeg_at 0 fact)
      → text_at b64_size 0 (
          compress_picture image_height image_width cv localtime jpeg base64 dst b64
            (full_picture image_height image_width cv localtime fresh fact text))
        ≡ base64 (jpeg_at 0 fact)
  unfolding compress_picture jpeg_proc
  compress_picture-rows_at dst b64 fresh fact text fits =
      let s = jpeg_at 0 fact in
      let small : length (base64 s) < b64_size = omega (arith, base64_laws.size s, fits.in_b64) in
      rw
        (
          full_picture-rows_at image_height image_width cv laws localtime fresh fact text,
          take_all s (image_height * image_width) fits.in_jpg_mem,
        )
        (end_text-Holds base64 base64_laws s b64 (put s 0 dst) b64_size (put-Holds s 0 dst) small)

  -- What readAndCompress sends of a memory of two images is, for each of them, the Base64 of the JPEG of its
  -- rows, whatever the time: the line of text that savePassage writes below them is not sent. OpenCV and the
  -- Base64 library behave as asked, and there is room for both JPEGs.
  pub encode-rows_at :
      (b : Buffers) (imgsum : Memory) (time : ℕ)
      → Fits (jpeg_at 0 imgsum)
      → Fits (jpeg_at (image_height * image_width) imgsum)
      → encode image_height image_width cv localtime jpeg base64 b imgsum time
        ≡ (base64 (jpeg_at 0 imgsum), base64 (jpeg_at (image_height * image_width) imgsum))
  unfolding compress_images save_passage
  encode-rows_at b imgsum time left right =
      let n = image_height * image_width in
      let second : Memory = λ a. imgsum (n + a) in
      let e : n + 0 ≡ n = omega arith in
      let same : jpeg_at 0 second ≡ jpeg_at n imgsum =
        ap (jpeg image_width image_height)
          (rows_at-from n image_width image_height 0 imgsum ∙ rw e refl) in
      rw
        (
          compress_picture-rows_at b.dst_jpg_mem1 b.left_b64 b.fresh_left imgsum _ left,
          compress_picture-rows_at b.dst_jpg_mem2 b.right_b64 b.fresh_right second _
              (rw same right),
        )
        (rw same refl)

-- Memories that are the same up to a bound have the same rows before it.
rows_at-agree :
    (w n at bound : ℕ) (m m' : Memory)
    → ((a : ℕ) → a < bound → m a ≡ m' a)
    → at + n * w ≤ bound
    → rows_at w n at m ≡ rows_at w n at m'
rows_at-agree w zero at bound m m' same h = refl
rows_at-agree w (suc n) at bound m m' same h =
    let more : suc n * w ≡ w + n * w = grind arith in
    let row = read_bytes-same w at m m' (λ k le. same (at + k) (omega (arith, le, h, more))) in
    rw row (
      ap (λ t. read_bytes w at m' ∷ t)
        (rows_at-agree w n (at + w) bound m m' same (omega (arith, h, more))))

module _ (image_height image_width : ℕ) (cv : OpenCv) (laws : OpenCvLaws cv)
    (localtime : ℕ → LocalTime) (jpeg : (width height : ℕ) → List Bytes → Bytes)
    (base64 : Bytes → Bytes) (base64_laws : Base64Laws base64) (b : Buffers) (d : Doubles) where
  abbrev image_bytes : ℕ
  image_bytes = 2 * (image_height * image_width)

  abbrev images : Memory → ℕ → Bytes × Bytes
  images = encode image_height image_width cv localtime jpeg base64 b

  abbrev jpeg_of : (at : ℕ) → Memory → Bytes
  jpeg_of = jpeg_at image_height image_width cv laws localtime jpeg base64 base64_laws

  abbrev HasRoom : Bytes → Type 0
  HasRoom = Fits image_height image_width cv laws localtime jpeg base64 base64_laws

  -- The globals hold the texts of both images of a frame, and its time.
  pub record SendsFrame (f : Frame d.Double) (o : Option (Globals d)) : Type 0 where
    pub globals : Globals d
    pub returned : o ≡ some globals
    pub left : globals.left_b64 ≡ base64 (jpeg_of 0 f.buf)
    pub right : globals.right_b64 ≡ base64 (jpeg_of (image_height * image_width) f.buf)
    pub time : globals.send_to_client.time ≡ f.time_gns

  HasFrame-SendsFrame :
      (f : Frame d.Double) (index : ℕ) (before r : Reader d.Double) (o : Option (Globals d))
      → HasFrame d.Double image_bytes f index before r
      → HasRoom (jpeg_of 0 f.buf)
      → HasRoom (jpeg_of (image_height * image_width) f.buf)
      → o ≡ some (globals_of d image_bytes images r (position_of d.Double f))
      → SendsFrame f o
  HasFrame-SendsFrame f index before r o has left right q =
      let n = image_height * image_width in
      let first : jpeg_of 0 r.imgsum ≡ jpeg_of 0 f.buf = ap (jpeg image_width image_height) (
        rows_at-agree image_width image_height 0 image_bytes r.imgsum f.buf has.images
          (omega arith)) in
      let second : jpeg_of n r.imgsum ≡ jpeg_of n f.buf = ap (jpeg image_width image_height) (
        rows_at-agree image_width image_height n image_bytes r.imgsum f.buf has.images
          (omega arith)) in
      let texts =
        encode-rows_at image_height image_width cv laws localtime jpeg base64 base64_laws b r.imgsum
          f.time_gns (rw first left) (rw second right) in
      record {
        globals = globals_of d image_bytes images r (position_of d.Double f);
        returned = q;
        left = ap (λ (p : Bytes × Bytes). p.0) texts ∙ ap base64 first;
        right = ap (λ (p : Bytes × Bytes). p.1) texts ∙ ap base64 second;
        time = refl;
      }

  -- In the mode of the time, when the mutexes get free and the index is not that of the last frame,
  -- readAndCompress leaves in left_b64 and right_b64 the Base64 of the JPEGs of the two images of the frame at
  -- that index, and sends its time. There is room for both JPEGs, and OpenCV and the Base64 library behave as
  -- asked.
  pub read_and_compress-SendsFrame :
      (i : Surroundings d) (g : Globals d) (index : ℕ)
      → FirstFree i.attempts index
      → index ≢ g.reader.last_index
      → i.is_free ≡ true
      → HasRoom (jpeg_of 0 (i.frame index).buf)
      → HasRoom (jpeg_of (image_height * image_width) (i.frame index).buf)
      → SendsFrame (i.frame index) (read_and_compress d image_bytes images verify_time i g)
  read_and_compress-SendsFrame i g index first fresh free left right =
      go (read_and_compress-Collected d image_bytes images verify_time i g)
    where
      go :
          {o : Option (Globals d)}
          → Collected d image_bytes images verify_time i g o
          → SendsFrame (i.frame index) o
      go (waits_for_index _ busy _) = absurd (FirstFree-not_busy i.attempts index first busy)
      go (no_frame _ _ _ (inl last) _) =
          absurd (fresh (FirstFree-same i.attempts index g.reader.last_index first last))
      go (no_frame _ _ _ (inr busy) _) = cc (busy, free)
      go {o} (of_frame index' r _ first' has q) =
          let same : index' ≡ index = FirstFree-same i.attempts index' index first' first in
          HasFrame-SendsFrame (i.frame index) index g.reader r o (rw same at has) left right
            (rw same at q)
      go (waits_for_pipe e _ _) = absurd cc
      go (of_pipe e _ _) = absurd cc
      go (of_nothing (inl e) _) = absurd cc
      go (of_nothing (inr e) _) = absurd cc
