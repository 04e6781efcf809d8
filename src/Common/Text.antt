-- ===== src/Common/Text.antt =====
-- `std::string` and `boost::string_view` as lists of bytes, with the members the program calls.
use Prim.Native.Nat.{ℕ}
use Prim.Native.Char.{code}
use Prim.Native.String.{String}
use mathlib.Core.Path.{◌≡◌, refl, ap}
use mathlib.Core.Logic.{◌↔◌, inl, inr}
use mathlib.Core.Bool.{Bool, true, false, ◌&&◌, ◌||◌}
use mathlib.Core.List.{List, [], ◌∷◌, ◌++◌}
use native.Mathlib.Omega.{arith}
use da_gis_service.Common.Tests.{◌==◌, Bool-cases, if◌then◌else◌}

abbrev pub Bytes : Type 0
Bytes = List ℕ

-- The bytes of an ASCII literal.
abbrev pub bytes : String → Bytes
bytes String.[] = []
bytes (String.◌∷◌ c s) = code c ∷ bytes s

-- `a == b`
unfoldable pub eqb : Bytes → Bytes → Bool
eqb [] [] = true
eqb (a ∷ s) (b ∷ t) = a == b && eqb s t
eqb _ _ = false

pub eqb_iff : (s t : Bytes) → (eqb s t ≡ true) ↔ (s ≡ t)
unfolding eqb
eqb_iff [] [] = ground arith
eqb_iff [] (b ∷ t) = ground arith
eqb_iff (a ∷ s) [] = ground arith
eqb_iff (a ∷ s) (b ∷ t) = ground (arith, eqb_iff s t)

pub eqb_refl : (s : Bytes) → eqb s s ≡ true
eqb_refl s = (eqb_iff s s).1 refl

-- `s` starts with `p`.
unfoldable pub is_prefix : Bytes → Bytes → Bool
is_prefix [] s = true
is_prefix (a ∷ p) [] = false
is_prefix (a ∷ p) (b ∷ s) = a == b && is_prefix p s

-- `s.find(p) != npos`
unfoldable pub contains : Bytes → Bytes → Bool
unfolding is_prefix
contains p [] = is_prefix p []
contains p (b ∷ s) = is_prefix p (b ∷ s) || contains p s

-- `std::string(s.c_str())`: the bytes before the first NUL.
unfoldable pub c_str : Bytes → Bytes
c_str [] = []
c_str (c ∷ s) = if c == 0 then [] else c ∷ c_str s

pub is_prefix-append : (p s : Bytes) → is_prefix p (p ++ s) ≡ true
unfolding is_prefix
is_prefix-append [] s = refl
is_prefix-append (a ∷ p) s = ground (arith, is_prefix-append p s)

pub is_prefix_refl : (p : Bytes) → is_prefix p p ≡ true
unfolding is_prefix
is_prefix_refl [] = refl
is_prefix_refl (a ∷ p) = ground (arith, is_prefix_refl p)

pub contains_refl : (p : Bytes) → contains p p ≡ true
unfolding contains
contains_refl [] = refl
contains_refl (a ∷ p) = ground (arith, is_prefix_refl (a ∷ p))

-- A text that surrounds `p` contains it.
pub contains-append : (a p b : Bytes) → contains p (a ++ (p ++ b)) ≡ true
unfolding contains
contains-append [] [] [] = refl
contains-append [] [] (c ∷ b) = refl
contains-append [] (c ∷ p) b = ground (arith, is_prefix-append (c ∷ p) b)
contains-append (c ∷ a) p b = ground (arith, contains-append a p b)

pub is_prefix→append : (p s : Bytes) → is_prefix p s ≡ true → (b : Bytes) × (s ≡ p ++ b)
unfolding is_prefix
is_prefix→append [] s h = (s, refl)
is_prefix→append (a ∷ p) [] h = cc
is_prefix→append (a ∷ p) (c ∷ s) h =
    let (b, e) = is_prefix→append p s (ground arith) in (b, ground arith)

-- A text that contains `p` surrounds it.
pub contains→append :
    (p s : Bytes) → contains p s ≡ true → (a : Bytes) × (b : Bytes) × (s ≡ a ++ (p ++ b))
unfolding contains
contains→append p [] h = let (b, e) = is_prefix→append p [] h in ([], b, e)
contains→append p (c ∷ s) h = elim (Bool-cases (is_prefix p (c ∷ s))) [
  | inl now ↦ let (b, e) = is_prefix→append p (c ∷ s) now in ([], b, e)
  | inr later ↦ let (a, b, e) = contains→append p s (ground arith) in (c ∷ a, b, ap (λ t. c ∷ t) e)
]
