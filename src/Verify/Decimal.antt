-- ===== src/Verify/Decimal.antt =====
-- `std::to_string` as main.cpp uses it: the digits of a number are those of its value.
use da_gis_service.Common.{
  ℕ, zero, suc, ◌+◌, ◌-◌, ◌*◌, ◌/◌, ◌%◌, ◌<◌, ◌≡◌, refl, ◌∙◌, [], ◌∷◌, ◌++◌, arith, Bytes, ltb,
  Bool-cases, inl, inr,
}
use da_gis_service.Verify.{digits, to_string}

-- The value of decimals, after the value of those before.
abbrev pub value : (before : ℕ) → Bytes → ℕ
value before [] = before
value before (c ∷ s) = value (before * 10 + (c - b'0')) s

value-append : (before : ℕ) (s t : Bytes) → value before (s ++ t) ≡ value (value before s) t
value-append before [] t = refl
value-append before (c ∷ s) t = value-append (before * 10 + (c - b'0')) s t

-- Fuel above the number is enough.
value-digits : (fuel n : ℕ) → n < fuel → value 0 (digits fuel n) ≡ n
unfolding digits
value-digits zero n h = absurd (omega (arith, h))
value-digits (suc fuel) n h = elim (Bool-cases (ltb n 10)) [
  | inl e ↦ rw e (ground (arith, e))
  | inr e ↦ rw e (
      let more : 9 < n = ground (arith, e) in
      let earlier = value-digits fuel (n / 10) (omega (arith, h, more)) in
      value-append 0 (digits fuel (n / 10)) ((b'0' + n % 10) ∷ []) ∙ rw earlier (omega arith))
]

-- The digits of each number have its value, so the fuel of `to_string` is enough.
pub value-to_string : (n : ℕ) → value 0 (to_string n) ≡ n
value-to_string n = value-digits (suc n) n (omega arith)
