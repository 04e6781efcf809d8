-- ===== src/Passage.antt =====
-- The images of a message of main.cpp: savePassage writes a line of text below each of the two images of a
-- frame, jpegProc compresses a picture, convertToBase64 makes a text of it, and readAndCompress calls them
-- and ends the texts. The height and the width of an image come from a header that is not in the repository.
-- OpenCV, libjpeg, localtime and the Base64 library are seen as what they give.
pub mod Rows
pub mod Texts
pub mod Sent
mod Tests
use da_gis_service.Common.{
  ℕ, zero, suc, ◌+◌, ◌-◌, ◌*◌, ◌/◌, ◌%◌, ◌≡◌, Bool, true, false, List, [], ◌∷◌, ◌++◌, Bytes, bytes,
  length, take, ltb, ◌==◌, if◌then◌else◌,
}
use da_gis_service.Frames.{Memory}
use da_gis_service.Verify.{to_string}

-- cv::Mat of one byte for each pixel; a row follows the other in `pixels`.
pub record Mat : Type 0 where
  pub rows : ℕ
  pub cols : ℕ
  pub pixels : Memory

abbrev pub mat : (rows cols : ℕ) → Memory → Mat
mat rows cols pixels = record { rows = rows; cols = cols; pixels = pixels }

-- The calls of OpenCV: `src.copyTo(dst(cv::Rect(x, y, w, h)))`, `cv::rectangle` in black and filled, and
-- `cv::putText` with its origin, in the font, the size and the colour of savePassage.
pub record OpenCv : Type 0 where
  pub copy_to : (src dst : Mat) (x y w h : ℕ) → Mat
  pub rectangle : Mat → (x0 y0 x1 y1 : ℕ) → Mat
  pub put_text : Mat → (text : Bytes) (x y : ℕ) → Mat

-- The fields of std::tm that savePassage reads.
pub record LocalTime : Type 0 where
  pub tm_year : ℕ
  pub tm_mon : ℕ
  pub tm_mday : ℕ
  pub tm_hour : ℕ
  pub tm_min : ℕ
  pub tm_sec : ℕ

abbrev zeros : ℕ → Bytes
zeros zero = []
zeros (suc n) = b'0' ∷ zeros n

-- `%0wd` of printf, of a number that is not negative.
abbrev pub padded : (w n : ℕ) → Bytes
padded w n = zeros (w - length (to_string n)) ++ to_string n

-- `%s %d-%02d-%02d %02d:%02d:%02d.%06d`
abbrev pub caption : (number : Bytes) → LocalTime → (tt_ms : ℕ) → Bytes
caption number t tt_ms =
    number
    ++ b' '
      ∷ (to_string (t.tm_year + 1900)
          ++ b'-'
            ∷ (padded 2 (t.tm_mon + 1)
                ++ b'-'
                  ∷ (padded 2 t.tm_mday
                      ++ b' '
                        ∷ (padded 2 t.tm_hour
                            ++ b':'
                              ∷ (padded 2 t.tm_min
                                  ++ b':' ∷ (padded 2 t.tm_sec ++ b'.' ∷ padded 6 tt_ms))))))

-- hblackString
abbrev pub black_string : ℕ
black_string = 200

module _ (image_height image_width : ℕ) (cv : OpenCv) (localtime : ℕ → LocalTime) where
  -- One of the two pictures of savePassage; `fresh` is what memory holds where the matrix is made.
  unfoldable pub full_picture : (fresh fact : Memory) (text : Bytes) → Mat
  full_picture fresh fact text =
      let full = mat (image_height + black_string) image_width fresh in
      let image = mat image_height image_width fact in
      let copied = cv.copy_to image full 0 0 image_width image_height in
      let black = cv.rectangle copied 0 image_height image_width (image_height + black_string) in
      cv.put_text black text 15 (image_height + 45)

  -- savePassage: retLeft and retRight.
  unfoldable pub save_passage :
      (fresh_left fresh_right left_fact right_fact : Memory) (ttime : ℕ) (number : Bytes)
      → Mat × Mat
  save_passage fresh_left fresh_right left_fact right_fact ttime number =
      let tt = ttime / 1000000 in
      let line = caption number (localtime tt) (ttime - tt * 1000000) in
      (
        full_picture fresh_left left_fact (bytes "TANDEM LEFT " ++ line),
        full_picture fresh_right right_fact (bytes "TANDEM RIGHT " ++ line),
      )

-- `n` bytes of memory from an address on.
unfoldable pub read_bytes : (n at : ℕ) → Memory → Bytes
read_bytes zero at m = []
read_bytes (suc n) at m = m at ∷ read_bytes n (suc at) m

-- `m[at] = c`
unfoldable pub set : (at c : ℕ) → Memory → Memory
set at c m a = if a == at then c else m a

-- A text stored from an address on.
unfoldable pub put : Bytes → (at : ℕ) → Memory → Memory
put [] at m = m
put (c ∷ s) at m = set at c (put s (suc at) m)

module _ (image_height image_width : ℕ) where
  -- The loop of jpegProc from a scan line on: the rows given to jpeg_write_scanlines, which takes one at each
  -- call. There are at most as many as the fuel.
  unfoldable pub write_scanlines : (fuel next_scanline : ℕ) (image_buffer : Memory) → List Bytes
  write_scanlines zero next_scanline image_buffer = []
  write_scanlines (suc fuel) next_scanline image_buffer =
      let rest = write_scanlines fuel (next_scanline + 1) image_buffer in
      if ltb next_scanline image_height
      then read_bytes image_width (next_scanline * image_width) image_buffer ∷ rest
      else []

  -- jpegProc: its result and the bytes from `outbuf` on. `jpeg` is the JPEG of so many rows of so many
  -- bytes; of a JPEG longer than `all_size` only the start is there, as libjpeg then takes other memory.
  unfoldable pub jpeg_proc :
      (jpeg : (width height : ℕ) → List Bytes → Bytes) (outbuf : Memory) (all_size : ℕ)
      (image_buffer : Memory)
      → ℕ × Memory
  jpeg_proc jpeg outbuf all_size image_buffer =
      let out = jpeg image_width image_height (write_scanlines image_height 0 image_buffer) in
      (length out, put (take all_size out) 0 outbuf)

-- convertToBase64: its result and the bytes from `buf_out` on. Base64encode stores a text, which `base64` gives,
-- with a NUL, and returns the number of bytes stored.
unfoldable pub convert_to_base64 :
    (base64 : Bytes → Bytes) (buf_out buf_in : Memory) (data_length : ℕ) → ℕ × Memory
convert_to_base64 base64 buf_out buf_in data_length =
    let code = base64 (read_bytes data_length 0 buf_in) in
    (length code + 1, put (code ++ 0 ∷ []) 0 buf_out)

-- `res = convertToBase64(…); b64[res] = 0` of readAndCompress
unfoldable pub end_text : ℕ × Memory → Memory
end_text (res, b64) = set res 0 b64

-- The C string at an address; the fuel is more than its length.
unfoldable pub text_at : (fuel at : ℕ) → Memory → Bytes
text_at zero at m = []
text_at (suc fuel) at m =
    let rest = text_at fuel (suc at) m in if m at == 0 then [] else m at ∷ rest

-- left_b64 and right_b64
abbrev pub b64_size : ℕ
b64_size = 1024 * 700

-- The memory that readAndCompress finds: the two matrices made, and the four arrays.
pub record Buffers : Type 0 where
  pub fresh_left : Memory
  pub fresh_right : Memory
  pub dst_jpg_mem1 : Memory
  pub dst_jpg_mem2 : Memory
  pub left_b64 : Memory
  pub right_b64 : Memory

module _ (image_height image_width : ℕ) (cv : OpenCv) (localtime : ℕ → LocalTime)
    (jpeg : (width height : ℕ) → List Bytes → Bytes) (base64 : Bytes → Bytes) where
  -- A picture in readAndCompress, from jpegProc on.
  unfoldable pub compress_picture : (dst_jpg_mem b64 : Memory) → Mat → Memory
  compress_picture dst_jpg_mem b64 picture =
      let (size, compressed) =
        jpeg_proc image_height image_width jpeg dst_jpg_mem (image_height * image_width)
          picture.pixels in
      end_text (convert_to_base64 base64 b64 compressed size)

  -- The part of readAndCompress from savePassage on: left_b64 and right_b64 after it.
  unfoldable pub compress_images : Buffers → (imgsum : Memory) (time : ℕ) → Memory × Memory
  compress_images b imgsum time =
      let right_fact : Memory = λ a. imgsum (image_height * image_width + a) in
      let pictures =
        save_passage image_height image_width cv localtime b.fresh_left b.fresh_right imgsum
          right_fact time (bytes "2102999") in
      (
        compress_picture b.dst_jpg_mem1 b.left_b64 pictures.0,
        compress_picture b.dst_jpg_mem2 b.right_b64 pictures.1,
      )

  -- The texts that prepareVerifyAnswer finds in the arrays.
  abbrev pub encode : Buffers → (imgsum : Memory) (time : ℕ) → Bytes × Bytes
  encode b imgsum time =
      let arrays = compress_images b imgsum time in
      (text_at b64_size 0 arrays.0, text_at b64_size 0 arrays.1)
