-- ===== src/Numerals.antt =====
-- The integers that the programs read from texts: std::atoi, and std::stoi as getCalcTime of main.cpp
-- calls it. An `int` has 32 bits.
pub mod Decimals
use da_gis_service.Common.{
  ℕ, zero, suc, ◌+◌, ◌-◌, ◌*◌, ◌%◌, ◌^◌, ◌≡◌, Bool, true, false, ◌&&◌, ◌||◌, not, List, [], ◌∷◌,
  Bytes, c_str, ◌==◌, leb, ltb, if◌then◌else◌,
}
use da_gis_service.Outcome.{Outcome, ret, raise, no_number, out_of_range}

-- `negsuc n` is - n - 1.
pub data ℤ : Type 0 where
  pos : ℕ → ℤ
  negsuc : ℕ → ℤ

abbrev pub negate : ℕ → ℤ
negate zero = pos 0
negate (suc n) = negsuc n

-- The number modulo 2 ^ w, as a conversion to an unsigned type of `w` bits leaves it.
unfoldable pub to_unsigned : (w : ℕ) → ℤ → ℕ
to_unsigned w (pos n) = n % 2 ^ w
to_unsigned w (negsuc n) = 2 ^ w - 1 - n % 2 ^ w

-- isspace
abbrev pub is_space : ℕ → Bool
is_space c = c == 32 || (leb 9 c && leb c 13)

abbrev pub is_digit : ℕ → Bool
is_digit c = leb b'0' c && leb c b'9'

unfoldable pub skip_spaces : Bytes → Bytes
skip_spaces [] = []
skip_spaces (c ∷ s) = if is_space c then skip_spaces s else c ∷ s

-- The value of the digits at the start of a text, after the value of those before.
unfoldable pub digits_value : (before : ℕ) → Bytes → ℕ
digits_value before [] = before
digits_value before (c ∷ s) =
    if is_digit c then digits_value (before * 10 + (c - b'0')) s else before

-- The number at the start of a text, 0 if there is none.
unfoldable pub signed_value : Bytes → ℤ
signed_value [] = pos 0
signed_value (c ∷ s) =
    if c == b'-'
    then negate (digits_value 0 s)
    else if c == b'+'
    then pos (digits_value 0 s)
    else pos (digits_value 0 (c ∷ s))

-- The number with the low 32 bits of another, as a conversion to int leaves it.
unfoldable pub to_int : ℤ → ℤ
to_int v =
    let bits = to_unsigned 32 v in
    if ltb bits (2 ^ 31) then pos bits else negsuc (2 ^ 32 - 1 - bits)

-- `strtol` keeps a number within the range of a long.
unfoldable pub to_long : ℤ → ℤ
to_long (pos n) = if ltb n (2 ^ 63) then pos n else pos (2 ^ 63 - 1)
to_long (negsuc n) = if ltb n (2 ^ 63) then negsuc n else negsuc (2 ^ 63 - 1)

-- `std::atoi(s)`. C does not say what it gives for a number outside an int; this is what glibc gives, where
-- it is `(int)strtol(s)`.
unfoldable pub atoi : Bytes → ℤ
atoi s = to_int (to_long (signed_value (skip_spaces (c_str s))))

abbrev pub starts_with_digit : Bytes → Bool
starts_with_digit [] = false
starts_with_digit (c ∷ s) = is_digit c

-- A number starts here: digits, with a sign or not.
unfoldable pub has_number : Bytes → Bool
has_number [] = false
has_number (c ∷ s) =
    if c == b'-' || c == b'+' then starts_with_digit s else starts_with_digit (c ∷ s)

-- The number fits into an int.
abbrev pub is_int : ℤ → Bool
is_int (pos n) = ltb n (2 ^ 31)
is_int (negsuc n) = ltb n (2 ^ 31)

-- `std::stoi(s)` of what follows the blanks of `s`.
unfoldable pub checked_value : Bytes → Outcome ℤ
checked_value s =
    if not (has_number s)
    then raise no_number
    else if not (is_int (signed_value s))
    then raise out_of_range
    else ret (signed_value s)

-- `std::stoi(s)`
unfoldable pub stoi : Bytes → Outcome ℤ
stoi s = checked_value (skip_spaces (c_str s))
