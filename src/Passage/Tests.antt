-- ===== src/Passage/Tests.antt =====
-- Images of main.cpp of one row with two pixels.
use da_gis_service.Common.{
  ℕ, zero, suc, ◌+◌, ◌*◌, ◌/◌, ◌≤◌, ◌<◌, ◌≡◌, ◌≢◌, ◌↔◌, refl, true, none, some, List, [], ◌∷◌, ◌++◌,
  Bytes, bytes, arith, length, All, ltb, if◌then◌else◌,
}
use da_gis_service.Frames.{Memory}
use da_gis_service.Frames.Pixels.{row_end}
use da_gis_service.Verify.{digits}
use da_gis_service.VerifyServer.{verify_time, Doubles, Surroundings, Globals, read_and_compress}
use da_gis_service.Passage.{
  mat, OpenCv, LocalTime, caption, full_picture, save_passage, read_bytes, set, put,
  write_scanlines, jpeg_proc, convert_to_base64, end_text, text_at, Buffers, compress_picture,
  encode,
}
use da_gis_service.Passage.Rows.{OpenCvLaws}
use da_gis_service.Passage.Texts.{Base64Laws, Outside, most_bytes, end_text-Outside_iff}
use da_gis_service.Passage.Sent.{SendsFrame, read_and_compress-SendsFrame}

-- The first rows of a picture from one memory and the others from another.
abbrev below : (first : ℕ) (upper lower : Memory) → Memory
below first upper lower a = if ltb a first then upper a else lower a

-- Copies whole rows, fills with black from a row on, and writes texts as a white line at their origin.
abbrev sample_cv : OpenCv
sample_cv = record {
  copy_to =
      λ src dst x y w h. mat dst.rows dst.cols (below (src.rows * src.cols) src.pixels dst.pixels);
  rectangle = λ m x0 y0 x1 y1. mat m.rows m.cols (below (y0 * m.cols) m.pixels (λ a. 0));
  put_text = λ m text x y. mat m.rows m.cols (below (y * m.cols) m.pixels (λ a. 255));
}

below-upper :
    (w r c n : ℕ) (upper lower : Memory)
    → r < n
    → c < w
    → below (n * w) upper lower (r * w + c) ≡ upper (r * w + c)
below-upper w r c n upper lower h in_row =
    let before = row_end w r n h in ground (arith, before, in_row)

sample_cv_laws : OpenCvLaws sample_cv
sample_cv_laws = record {
  copy_to-cols = λ src dst x y w h. refl;
  copy_to-rows = λ src dst r same fits h c in_row.
      rw (← same) (below-upper src.cols r c src.rows src.pixels dst.pixels h in_row);
  rectangle-cols = λ m x0 y0 x1 y1. refl;
  rectangle-above =
      λ m x0 y0 x1 y1 r _ h c in_row. below-upper m.cols r c y0 m.pixels (λ a. 0) h in_row;
  put_text-cols = λ m text x y. refl;
  put_text-above = λ m text x y r h c in_row.
      below-upper m.cols r c y m.pixels (λ a. 255) (omega (arith, h)) in_row;
}

abbrev sample_time : ℕ → LocalTime
sample_time t = record {
  tm_year = 121;
  tm_mon = 4;
  tm_mday = 7;
  tm_hour = 10;
  tm_min = 1;
  tm_sec = t;
}

-- The rows one after the other.
abbrev sample_jpeg : (width height : ℕ) → List Bytes → Bytes
sample_jpeg width height [] = []
sample_jpeg width height (row ∷ rows) = row ++ sample_jpeg width height rows

abbrev letters : ℕ → Bytes
letters zero = []
letters (suc n) = b'A' ∷ letters n

letters-length : (n : ℕ) → length (letters n) ≡ n
letters-length zero = refl
letters-length (suc n) = omega (arith, letters-length n)

letters-All : (n : ℕ) → All (λ c. c ≢ 0) (letters n)
letters-All zero = tt
letters-All (suc n) = ((λ e. omega (arith, e)), letters-All n)

-- As many letters as Base64 has.
abbrev sample_base64 : Bytes → Bytes
sample_base64 s = letters ((length s + 2) / 3 * 4)

sample_base64_laws : Base64Laws sample_base64
sample_base64_laws = record {
  no_nul = λ s. letters-All ((length s + 2) / 3 * 4);
  size = λ s. letters-length ((length s + 2) / 3 * 4);
}

abbrev nothing : Memory
nothing a = 0

abbrev buffers : Buffers
buffers = record {
  fresh_left = nothing;
  fresh_right = nothing;
  dst_jpg_mem1 = nothing;
  dst_jpg_mem2 = nothing;
  left_b64 = nothing;
  right_b64 = nothing;
}

-- A double is its text.
abbrev texts : Doubles
texts = record {
  Double = Bytes;
  to_string = λ s. s;
  zero_double = bytes "0.000000";
  dist = bytes "234.600000";
}

-- The pixels 10 and 11 of the left image, 12 and 13 of the right one.
abbrev pixels : Memory
pixels a = 10 + a

abbrev one_frame : Surroundings texts
one_frame = record {
  attempts = none ∷ some 1 ∷ [];
  is_free = true;
  frame = λ i. record {
    buf = pixels;
    time = 5;
    id = 9;
    time_gns = 6;
    lat = bytes "60.0";
    lon = bytes "30.0";
  };
  gps_attempts = [];
  gps_from_pipe = record { time = 8; lat = bytes "59.0"; lon = bytes "29.0" };
}

abbrev globals : Globals texts
globals = record {
  reader = record { imgsum = nothing; last_time = 0; last_index = 0 };
  left_b64 = [];
  right_b64 = [];
  send_to_client = record {
    lat = [];
    lon = [];
    time = 0;
    dist = [];
    brightness_gain = 0;
    brightness_shutter = 0;
    brightness_gamma = 0;
  };
}

code : Unit {0}
unfolding full_picture save_passage read_bytes set put write_scanlines jpeg_proc convert_to_base64
    end_text text_at compress_picture digits
code = tt

-- The line of text below the images, and the rows that libjpeg gets.
passage_run :
    (caption (bytes "2102999") (sample_time 3) 42 ≡ bytes "2102999 2021-05-07 10:01:03.000042")
    × (write_scanlines 1 2 1 0
          (save_passage 1 2 sample_cv sample_time nothing nothing pixels pixels 3000042 []).0.pixels
        ≡ (10 ∷ 11 ∷ []) ∷ [])
unfolding code
passage_run = (refl, refl)

read_and_compress-SendsFrame_example :
    SendsFrame 1 2 sample_cv sample_cv_laws sample_time sample_jpeg sample_base64 sample_base64_laws
      buffers texts
      (one_frame.frame 1)
      (read_and_compress texts 4
        (encode 1 2 sample_cv sample_time sample_jpeg sample_base64 buffers)
        verify_time
        one_frame
        globals)
unfolding read_bytes
read_and_compress-SendsFrame_example =
    read_and_compress-SendsFrame 1 2 sample_cv sample_cv_laws sample_time sample_jpeg sample_base64
      sample_base64_laws buffers texts one_frame globals 1 refl (λ e. omega (arith, e)) refl
      (record { in_jpg_mem = omega arith; in_b64 = omega arith })
      (record { in_jpg_mem = omega arith; in_b64 = omega arith })

-- A JPEG of 3 bytes.
end_text-Outside_iff_example :
    ((out : Memory) (a : ℕ)
      → Outside a
      → end_text (convert_to_base64 sample_base64 out pixels 3) a ≡ out a)
    ↔ (3 ≤ most_bytes)
end_text-Outside_iff_example = end_text-Outside_iff sample_base64 sample_base64_laws pixels 3
