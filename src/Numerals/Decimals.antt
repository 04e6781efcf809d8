-- ===== src/Numerals/Decimals.antt =====
-- Numbers in decimals, as std::atoi and std::stoi read them and std::to_string writes them.
use mathlib.Core.List.{append-nil}
use native.Mathlib.Nat.{pow-succ', mul_assoc}
use da_gis_service.Common.{
  ℕ, zero, suc, ◌+◌, ◌-◌, ◌*◌, ◌/◌, ◌%◌, ◌^◌, ◌≤◌, ◌<◌, ◌≡◌, ◌∙◌, refl, ap, sym, true, false, [],
  ◌∷◌, ◌++◌, arith, Bytes, c_str, length, All, All-append, ltb, Bool-cases, inl, inr,
}
use da_gis_service.Outcome.{ret}
use da_gis_service.Verify.{digits, to_string}
use da_gis_service.Verify.Decimal.{value, value-to_string}
use da_gis_service.Numerals.{
  pos, is_digit, skip_spaces, digits_value, signed_value, to_unsigned, to_int, to_long, atoi,
  has_number, checked_value, stoi, starts_with_digit,
}

abbrev pub IsDigit : ℕ → Type 0
IsDigit c = is_digit c ≡ true

-- Digits, at least one.
pub record IsDecimal (s : Bytes) : Type 0 where
  pub digits : All IsDigit s
  pub has_digit : starts_with_digit s ≡ true

digits_value-value :
    (before : ℕ) (s : Bytes) → All IsDigit s → digits_value before s ≡ value before s
unfolding digits_value
digits_value-value before [] h = refl
digits_value-value before (c ∷ s) (d, h) = rw d (digits_value-value (before * 10 + (c - b'0')) s h)

-- What follows digits does not matter unless it starts with a digit.
pub digits_value-append :
    (before : ℕ) (s beyond : Bytes)
    → All IsDigit s
    → starts_with_digit beyond ≡ false
    → digits_value before (s ++ beyond) ≡ digits_value before s
unfolding digits_value
digits_value-append before [] [] h e = refl
digits_value-append before [] (c ∷ beyond) h e = rw e refl
digits_value-append before (c ∷ s) beyond (d, h) e =
    rw d (digits_value-append (before * 10 + (c - b'0')) s beyond h e)

digits-All : (fuel n : ℕ) → All IsDigit (digits fuel n)
unfolding digits
digits-All zero n = tt
digits-All (suc fuel) n = elim (Bool-cases (ltb n 10)) [
  | inl e ↦ rw e (ground arith, tt)
  | inr e ↦ rw e (
      All-append IsDigit (digits fuel (n / 10)) ((b'0' + n % 10) ∷ []) (digits-All fuel (n / 10))
        (ground arith, tt))
]

starts-append :
    (s : Bytes) (c : ℕ) → All IsDigit s → IsDigit c → starts_with_digit (s ++ c ∷ []) ≡ true
starts-append [] c h d = d
starts-append (a ∷ s) c (d, h) _ = d

pub to_string-IsDecimal : (n : ℕ) → IsDecimal (to_string n)
unfolding digits
to_string-IsDecimal n = record {
  digits = digits-All (suc n) n;
  has_digit = elim (Bool-cases (ltb n 10)) [
    | inl e ↦ rw e (ground (arith, e))
    | inr e ↦
        rw e
          (starts-append (digits n (n / 10)) (b'0' + n % 10) (digits-All n (n / 10)) (ground arith))
  ];
}

c_str-IsDigit : (s beyond : Bytes) → All IsDigit s → c_str (s ++ beyond) ≡ s ++ c_str beyond
unfolding c_str
c_str-IsDigit [] beyond h = refl
c_str-IsDigit (c ∷ s) beyond (d, h) = ground (arith, d, c_str-IsDigit s beyond h)

starts-c_str : (s : Bytes) → starts_with_digit s ≡ false → starts_with_digit (c_str s) ≡ false
unfolding c_str
starts-c_str [] h = refl
starts-c_str (c ∷ s) h = ground (arith, h)

skip_spaces-IsDecimal : (s rest : Bytes) → IsDecimal s → skip_spaces (s ++ rest) ≡ s ++ rest
unfolding skip_spaces
skip_spaces-IsDecimal [] rest d = absurd cc
skip_spaces-IsDecimal (c ∷ s) rest d = ground (arith, d.has_digit)

signed_value-IsDecimal :
    (s rest : Bytes)
    → IsDecimal s
    → starts_with_digit rest ≡ false
    → (signed_value (s ++ rest) ≡ pos (digits_value 0 s)) × (has_number (s ++ rest) ≡ true)
unfolding signed_value has_number
signed_value-IsDecimal [] rest d e = absurd cc
signed_value-IsDecimal (c ∷ s) rest d e =
    let same = digits_value-append 0 (c ∷ s) rest d.digits e in
    (ground (arith, d.has_digit, same), ground (arith, d.has_digit))

-- The value of so many digits after a number below `p`.
pub digits_value-bound :
    (before p : ℕ) (s : Bytes)
    → before < p
    → All IsDigit s
    → digits_value before s < p * 10 ^ length s
unfolding digits_value
digits_value-bound before p [] h d = omega (arith, h)
digits_value-bound before p (c ∷ s) h (d, ds) =
    let rest = digits_value-bound (before * 10 + (c - b'0')) (p * 10) s (ground (arith, d, h)) ds in
    let same : p * 10 * 10 ^ length s ≡ p * 10 ^ suc (length s) =
      rw (pow-succ' 10 (length s)) (mul_assoc p 10 (10 ^ length s)) in
    rw d (omega (arith, rest, same))

pub digits_value-least :
    (before : ℕ) (s : Bytes) → All IsDigit s → before * 10 ^ length s ≤ digits_value before s
unfolding digits_value
digits_value-least before [] d = omega arith
digits_value-least before (c ∷ s) (d, ds) =
    let rest = digits_value-least (before * 10 + (c - b'0')) s ds in
    let same : before * 10 ^ suc (length s) ≡ before * 10 * 10 ^ length s =
      rw (pow-succ' 10 (length s)) (sym (mul_assoc before 10 (10 ^ length s))) in
    let more : before * 10 * 10 ^ length s ≤ (before * 10 + (c - b'0')) * 10 ^ length s =
      grind arith in
    rw d (omega (arith, rest, same, more))

pub digits_value-then :
    (before : ℕ) (s t : Bytes)
    → All IsDigit s
    → digits_value before (s ++ t) ≡ digits_value (digits_value before s) t
unfolding digits_value
digits_value-then before [] t h = refl
digits_value-then before (c ∷ s) t (d, h) =
    rw d (digits_value-then (before * 10 + (c - b'0')) s t h)

pub append-IsDecimal : (s t : Bytes) → IsDecimal s → IsDecimal t → IsDecimal (s ++ t)
append-IsDecimal [] t d e = e
append-IsDecimal (c ∷ s) t d e = record {
  digits = All-append IsDigit (c ∷ s) t d.digits e.digits;
  has_digit = d.has_digit;
}

-- A number that fits stays the same.
to_int-small : (n : ℕ) → n < 2 ^ 31 → to_int (to_long (pos n)) ≡ pos n
unfolding to_int to_long to_unsigned
to_int-small n h =
    let long : ltb n (2 ^ 63) ≡ true = ground (arith, h) in
    let low : n % 2 ^ 32 ≡ n = omega (arith, h) in
    let short : ltb n (2 ^ 31) ≡ true = ground (arith, h) in rw (long, low, short) refl

-- atoi gives the value of digits that fit into an int, whatever follows them but a digit.
pub atoi-IsDecimal :
    (s beyond : Bytes)
    → IsDecimal s
    → starts_with_digit beyond ≡ false
    → digits_value 0 s < 2 ^ 31
    → atoi (s ++ beyond) ≡ pos (digits_value 0 s)
unfolding atoi
atoi-IsDecimal s beyond d e small =
    let same = (signed_value-IsDecimal s (c_str beyond) d (starts-c_str beyond e)).0 in
    rw (c_str-IsDigit s beyond d.digits, skip_spaces-IsDecimal s (c_str beyond) d, same)
      (to_int-small (digits_value 0 s) small)

-- So does stoi, of a value that fits into an int.
pub stoi-IsDecimal :
    (s beyond : Bytes)
    → IsDecimal s
    → starts_with_digit beyond ≡ false
    → digits_value 0 s < 2 ^ 31
    → stoi (s ++ beyond) ≡ ret (pos (digits_value 0 s))
unfolding stoi checked_value
stoi-IsDecimal s beyond d e small =
    let (same, has) = signed_value-IsDecimal s (c_str beyond) d (starts-c_str beyond e) in
    rw (c_str-IsDigit s beyond d.digits, skip_spaces-IsDecimal s (c_str beyond) d, has, same)
      (ground (arith, small))

-- atoi reads back what to_string writes.
pub atoi-to_string : (n : ℕ) → n < 2 ^ 31 → atoi (to_string n) ≡ pos n
atoi-to_string n h =
    let value : digits_value 0 (to_string n) ≡ n =
      digits_value-value 0 (to_string n) (to_string-IsDecimal n).digits ∙ value-to_string n in
    let d = to_string-IsDecimal n in
    ap atoi (sym (append-nil (to_string n)))
    ∙ atoi-IsDecimal (to_string n) [] d refl (rw value h)
    ∙ ap pos (digits_value-value 0 (to_string n) d.digits ∙ value-to_string n)
