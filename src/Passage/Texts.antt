-- ===== src/Passage/Texts.antt =====
-- The texts that readAndCompress of main.cpp leaves in left_b64 and right_b64.
use da_gis_service.Common.{
  ℕ, zero, suc, ◌+◌, ◌*◌, ◌/◌, ◌≤◌, ◌<◌, ◌≡◌, ◌≢◌, ◌∙◌, ◌↔◌, ◌⊎◌, inl, inr, Bool-cases, leb, refl,
  ap, [], ◌∷◌, ◌++◌, Bytes, arith, length, length-append, take, c_str, get_elem?, some, All,
}
use da_gis_service.Frames.{Memory}
use da_gis_service.Passage.{read_bytes, set, put, convert_to_base64, end_text, text_at, b64_size}

-- The bytes of a text stand in memory from an address on.
abbrev pub Holds : Bytes → (at : ℕ) → Memory → Type 0
Holds [] at m = Unit
Holds (c ∷ s) at m = (m at ≡ c) × Holds s (suc at) m

set-here : (at c : ℕ) (m : Memory) → set at c m at ≡ c
unfolding set
set-here at c m = ground arith

set-other : (at c : ℕ) (m : Memory) (a : ℕ) → a ≢ at → set at c m a ≡ m a
unfolding set
set-other at c m a h = ground (arith, h)

-- A byte stored outside a text leaves it alone.
set-Holds :
    (s : Bytes) (from at c : ℕ) (m : Memory)
    → (at < from) ⊎ (from + length s ≤ at)
    → Holds s from m
    → Holds s from (set at c m)
set-Holds [] from at c m h holds = tt
set-Holds (b ∷ s) from at c m h (here, holds) = (
  set-other at c m from
        (λ e. elim h [ inl le ↦ omega (arith, le, e) | inr le ↦ omega (arith, le, e) ])
      ∙ here,
  set-Holds s (suc from) at c m
      (elim h [ inl le ↦ inl (omega (arith, le)) | inr le ↦ inr (omega (arith, le)) ]) holds,
)

pub put-Holds : (s : Bytes) (at : ℕ) (m : Memory) → Holds s at (put s at m)
unfolding put
put-Holds [] at m = tt
put-Holds (c ∷ s) at m = (
  set-here at c (put s (suc at) m),
  set-Holds s (suc at) at c (put s (suc at) m) (inl (omega arith)) (put-Holds s (suc at) m),
)

-- A text stored before an address leaves what comes after alone.
pub put-after : (s : Bytes) (at : ℕ) (m : Memory) (a : ℕ) → at + length s ≤ a → put s at m a ≡ m a
unfolding put
put-after [] at m a h = refl
put-after (c ∷ s) at m a h =
    set-other at c (put s (suc at) m) a (λ e. omega (arith, h, e))
    ∙ put-after s (suc at) m a (omega (arith, h))

read_bytes-Holds : (s : Bytes) (at : ℕ) (m : Memory) → Holds s at m → read_bytes (length s) at m ≡ s
unfolding read_bytes
read_bytes-Holds [] at m h = refl
read_bytes-Holds (c ∷ s) at m (here, h) = rw (here, read_bytes-Holds s (suc at) m h) refl

-- A C string is read up to its NUL, with fuel above its length.
text_at-Holds :
    (s : Bytes) (fuel at : ℕ) (m : Memory)
    → All (λ c. c ≢ 0) s
    → length s < fuel
    → Holds (s ++ 0 ∷ []) at m
    → text_at fuel at m ≡ s
unfolding text_at
text_at-Holds s zero at m no_nul h holds = absurd (omega (arith, h))
text_at-Holds [] (suc fuel) at m no_nul h (here, _) = rw here refl
text_at-Holds (c ∷ s) (suc fuel) at m (c_nul, no_nul) h (here, holds) =
    let rest = text_at-Holds s fuel (suc at) m no_nul (omega (arith, h)) holds in
    rw (here, rest) (ground (arith, c_nul))

-- A C string in memory is read up to the first NUL of the text, if a NUL follows the text.
pub text_at-c_str :
    (s : Bytes) (fuel at : ℕ) (m : Memory)
    → length s < fuel
    → Holds s at m
    → m (at + length s) ≡ 0
    → text_at fuel at m ≡ c_str s
unfolding text_at c_str
text_at-c_str s zero at m h holds end = absurd (omega (arith, h))
text_at-c_str [] (suc fuel) at m h holds end =
    let e : at + 0 ≡ at = omega arith in let here : m at ≡ 0 = rw e at end in rw here refl
text_at-c_str (c ∷ s) (suc fuel) at m h (here, holds) end =
    let e : at + suc (length s) ≡ suc at + length s = omega arith in
    let later : m (suc at + length s) ≡ 0 = rw e at end in
    let rest = text_at-c_str s fuel (suc at) m (omega (arith, h)) holds later in
    rw (here, rest) refl

-- The bytes of a text that was stored.
pub put-get_elem? :
    (s : Bytes) (at : ℕ) (m : Memory) (k c : ℕ) → get_elem? s k ≡ some c → put s at m (at + k) ≡ c
unfolding put
put-get_elem? [] at m k c e = cc
put-get_elem? (b ∷ s) at m zero c e =
    let same : at + 0 ≡ at = omega arith in
    let is_c : b ≡ c = cc in rw (same, ← is_c) (set-here at b (put s (suc at) m))
put-get_elem? (b ∷ s) at m (suc k) c e =
    let same : at + suc k ≡ suc at + k = omega arith in
    set-other at b (put s (suc at) m) (at + suc k) (λ q. omega (arith, q))
    ∙ rw same (put-get_elem? s (suc at) m k c e)

-- The Base64 of a text: four letters, none a NUL, for each three bytes begun.
pub record Base64Laws (base64 : Bytes → Bytes) : Type 0 where
  pub no_nul : (s : Bytes) → All (λ c. c ≢ 0) (base64 s)
  pub size : (s : Bytes) → length (base64 s) ≡ (length s + 2) / 3 * 4

pub take_all : (s : Bytes) (n : ℕ) → length s ≤ n → take n s ≡ s
take_all [] zero h = refl
take_all [] (suc n) h = refl
take_all (c ∷ s) zero h = absurd (omega (arith, h))
take_all (c ∷ s) (suc n) h = ap (λ t. c ∷ t) (take_all s n (omega (arith, h)))

-- Bytes from the end of left_b64 on.
abbrev pub Outside : ℕ → Type 0
Outside a = b64_size ≤ a

-- The most bytes of a JPEG whose text fits into left_b64.
abbrev pub most_bytes : ℕ
most_bytes = 537597

length-read_bytes : (n at : ℕ) (m : Memory) → length (read_bytes n at m) ≡ n
unfolding read_bytes
length-read_bytes zero at m = refl
length-read_bytes (suc n) at m = omega (arith, length-read_bytes n (suc at) m)

module _ (base64 : Bytes → Bytes) (laws : Base64Laws base64) where
  -- The text in left_b64 is the Base64 of the bytes that the other array holds.
  pub end_text-Holds :
      (s : Bytes) (out held : Memory) (fuel : ℕ)
      → Holds s 0 held
      → length (base64 s) < fuel
      → text_at fuel 0 (end_text (convert_to_base64 base64 out held (length s))) ≡ base64 s
  unfolding end_text convert_to_base64
  end_text-Holds s out held fuel holds h = rw (read_bytes-Holds s 0 held holds) (
      let code = base64 s in
      text_at-Holds code fuel 0 _ (laws.no_nul s) h (
        set-Holds (code ++ 0 ∷ []) 0 (length code + 1) 0 (put (code ++ 0 ∷ []) 0 out)
          (inr (omega (arith, length-append code (0 ∷ [])))) (put-Holds (code ++ 0 ∷ []) 0 out)))

  -- The number that convertToBase64 returns, where readAndCompress stores a second NUL.
  convert_to_base64-size :
      (out held : Memory) (n : ℕ) → (convert_to_base64 base64 out held n).0 ≡ (n + 2) / 3 * 4 + 1
  unfolding convert_to_base64
  convert_to_base64-size out held n =
      omega (arith, laws.size (read_bytes n 0 held), length-read_bytes n 0 held)

  end_text-inside :
      (out held : Memory) (n : ℕ)
      → n ≤ most_bytes
      → (a : ℕ) → Outside a
      → end_text (convert_to_base64 base64 out held n) a ≡ out a
  unfolding end_text convert_to_base64
  end_text-inside out held n h a outside =
      let code = base64 (read_bytes n 0 held) in
      let size : length code ≡ (n + 2) / 3 * 4 =
        omega (arith, laws.size (read_bytes n 0 held), length-read_bytes n 0 held) in
      let stored = length-append code (0 ∷ []) in
      set-other (length code + 1) 0 (put (code ++ 0 ∷ []) 0 out) a
        (λ e. omega (arith, size, h, outside, e))
      ∙ put-after (code ++ 0 ∷ []) 0 out a (omega (arith, size, h, outside, stored))

  end_text-at : (r : ℕ × Memory) → end_text r r.0 ≡ 0
  unfolding end_text
  end_text-at (res, b64) = set-here res 0 b64

  -- A text that readAndCompress stores leaves all memory behind left_b64 alone, whatever was there, exactly if
  -- the JPEG has at most 537,597 bytes.
  pub end_text-Outside_iff :
      (held : Memory) (n : ℕ)
      → ((out : Memory) (a : ℕ)
          → Outside a
          → end_text (convert_to_base64 base64 out held n) a ≡ out a)
        ↔ (n ≤ most_bytes)
  end_text-Outside_iff held n = (
    λ alone. elim (Bool-cases (leb n most_bytes)) [
      | inl e ↦ ground (arith, e)
      | inr e ↦
          let ones : Memory = λ a. 1 in
          let r = convert_to_base64 base64 ones held n in
          let size = convert_to_base64-size ones held n in
          let large : most_bytes < n = ground (arith, e) in
          let outside : Outside r.0 = omega (arith, size, large) in
          absurd (omega (arith, alone ones r.0 outside, end_text-at r))
    ],
    λ h out a outside. end_text-inside out held n h a outside,
  )
