-- ===== src/NmeaLog/Tokens.antt =====
-- Lines of the log of main.cpp as words, and what strtok makes of them.
use mathlib.Core.List.{append-nil}
use da_gis_service.Common.{
  drop, take, ◌+◌, ℕ, zero, suc, ◌≤◌, ◌≡◌, ◌≢◌, refl, ap, sym, ◌∙◌, true, false, List, [], ◌∷◌,
  ◌++◌, arith, Bytes, c_str, length, All, ◌==◌,
}
use da_gis_service.Outcome.{Outcome, ret, raise, ◌>>=◌}
use da_gis_service.NmeaLog.{
  cut, tokens, skip, Nmea, Conversions, no_data, read_token, read_tokens, get_field,
}

-- Neither a blank nor a NUL.
abbrev pub IsPrintable : ℕ → Type 0
IsPrintable c = (c ≢ 32) × (c ≢ 0)

-- The bytes that getField reads of word number `k`, with those it leaves out before them.
abbrev pub least : ℕ → ℕ
least zero = 6
least (suc zero) = 6
least (suc (suc zero)) = 28
least (suc (suc (suc zero))) = 35
least _ = 1

-- A word that is long enough for its number.
pub record IsWord (k : ℕ) (w : Bytes) : Type 0 where
  pub printable : All IsPrintable w
  pub is_long : least k ≤ length w

-- Words from number `k` on.
abbrev pub AllWords : ℕ → List Bytes → Type 0
AllWords k [] = Unit
AllWords k (w ∷ words) = IsWord k w × AllWords (suc k) words

one-least : (k : ℕ) → 1 ≤ least k
one-least zero = omega arith
one-least (suc zero) = omega arith
one-least (suc (suc zero)) = omega arith
one-least (suc (suc (suc zero))) = omega arith
one-least (suc (suc (suc (suc k)))) = omega arith

-- The words with a blank between each and the next.
abbrev pub join_words : List Bytes → Bytes
join_words [] = []
join_words (w ∷ []) = w
join_words (w ∷ x ∷ words) = w ++ 32 ∷ join_words (x ∷ words)

-- A rest of a line: nothing, or a blank and what follows it.
abbrev rest_of : List Bytes → Bytes
rest_of [] = []
rest_of (w ∷ words) = 32 ∷ join_words (w ∷ words)

join_words-rest_of : (w : Bytes) (words : List Bytes) → join_words (w ∷ words) ≡ w ++ rest_of words
join_words-rest_of w [] = sym (append-nil w)
join_words-rest_of w (x ∷ words) = refl

-- A word as strtok leaves it, with what comes after it in memory.
abbrev after_cut : List Bytes → Bytes
after_cut [] = []
after_cut (w ∷ words) = 0 ∷ join_words (w ∷ words)

cut-rest_of :
    (w : Bytes) (words : List Bytes)
    → All IsPrintable w
    → cut (w ++ rest_of words) ≡ w ++ after_cut words
unfolding cut
cut-rest_of [] [] h = refl
cut-rest_of [] (x ∷ words) h = refl
cut-rest_of (c ∷ w) words ((blank, nul), h) = ground (arith, cut-rest_of w words h)

tokens-inside : (w rest : Bytes) → All IsPrintable w → tokens false (w ++ rest) ≡ tokens false rest
unfolding tokens
tokens-inside [] rest h = refl
tokens-inside (c ∷ w) rest ((blank, nul), h) = ground (arith, tokens-inside w rest h)

c_str-after_cut :
    (w : Bytes) (words : List Bytes) → All IsPrintable w → c_str (w ++ after_cut words) ≡ w
unfolding c_str
c_str-after_cut [] [] h = refl
c_str-after_cut [] (x ∷ words) h = refl
c_str-after_cut (c ∷ w) words ((blank, nul), h) = ground (arith, c_str-after_cut w words h)

pub c_str-printable : (w : Bytes) → All IsPrintable w → c_str w ≡ w
c_str-printable w h = rw (append-nil w) at (c_str-after_cut w [] h)

skip-after_cut :
    (n : ℕ) (w : Bytes) (words : List Bytes)
    → All IsPrintable w
    → n ≤ length w
    → skip n (w ++ after_cut words) ≡ skip n w
skip-after_cut zero w words h le = c_str-after_cut w words h ∙ sym (c_str-printable w h)
skip-after_cut (suc n) [] words h le = absurd (omega (arith, le))
skip-after_cut (suc n) (c ∷ w) words (_, h) le = skip-after_cut n w words h (omega (arith, le))

take-after_cut :
    (m n : ℕ) (w : Bytes) (words : List Bytes)
    → m + n ≤ length w
    → take n (drop m (w ++ after_cut words)) ≡ take n (drop m w)
take-after_cut zero zero w words le = refl
take-after_cut zero (suc n) [] words le = absurd (omega (arith, le))
take-after_cut zero (suc n) (c ∷ w) words le =
    ap (λ t. c ∷ t) (take-after_cut zero n w words (omega (arith, le)))
take-after_cut (suc m) n [] words le = absurd (omega (arith, le))
take-after_cut (suc m) n (c ∷ w) words le = take-after_cut m n w words (omega (arith, le))

tokens-word :
    (k : ℕ) (w : Bytes) (words : List Bytes)
    → IsWord k w
    → tokens true (w ++ rest_of words) ≡ (w ++ after_cut words) ∷ tokens false (rest_of words)
unfolding tokens
tokens-word k [] words h = absurd (omega (arith, h.is_long, one-least k))
tokens-word k (c ∷ w) words h =
    let ((blank, nul), printable) = h.printable in
    let whole = cut-rest_of (c ∷ w) words h.printable in
    let later = tokens-inside w (rest_of words) printable in
    let no_blank : (c == 32) ≡ false = ground (arith, blank) in rw (no_blank, whole, later) refl

tokens-nil : tokens true [] ≡ []
unfolding tokens
tokens-nil = refl

tokens-rest_of :
    (words : List Bytes) → tokens false (rest_of words) ≡ tokens true (join_words words)
unfolding tokens
tokens-rest_of [] = refl
tokens-rest_of (x ∷ words) = refl

append-IsPrintable :
    (k : ℕ) (w : Bytes) (words : List Bytes)
    → All IsPrintable w
    → AllWords k words
    → c_str (w ++ rest_of words) ≡ w ++ rest_of words
unfolding c_str
append-IsPrintable k [] [] h hs = refl
append-IsPrintable k [] (x ∷ words) h (hx, hs) =
    ap (λ t. 32 ∷ t)
      (rw (join_words-rest_of x words) (append-IsPrintable (suc k) x words hx.printable hs))
append-IsPrintable k (c ∷ w) words ((blank, nul), h) hs =
    ground (arith, append-IsPrintable k w words h hs)

c_str-join_words :
    (k : ℕ) (words : List Bytes) → AllWords k words → c_str (join_words words) ≡ join_words words
unfolding c_str
c_str-join_words k [] h = refl
c_str-join_words k (w ∷ words) (hw, h) =
    rw (join_words-rest_of w words) (append-IsPrintable (suc k) w words hw.printable h)

bind_same :
    {A B : Type 0} (o : Outcome A) (f g : A → Outcome B)
    → ((a : A) → f a ≡ g a)
    → (o >>= f) ≡ (o >>= g)
bind_same (ret a) f g h = h a
bind_same (raise e) f g h = refl

module _ (v : Conversions) where
  -- What comes after a word in memory does not count.
  read_token-after_cut :
      (k : ℕ) (w : Bytes) (words : List Bytes) (n : Nmea v.Double)
      → IsWord k w
      → read_token v k (w ++ after_cut words) n ≡ read_token v k w n
  unfolding read_token
  read_token-after_cut zero w words n h = rw (skip-after_cut 6 w words h.printable h.is_long) refl
  read_token-after_cut (suc zero) w words n h =
      rw (skip-after_cut 6 w words h.printable h.is_long) refl
  read_token-after_cut (suc (suc zero)) w words n h =
      rw (take-after_cut 5 23 w words h.is_long) refl
  read_token-after_cut (suc (suc (suc zero))) w words n h =
      rw (take-after_cut 6 29 w words h.is_long) refl
  read_token-after_cut (suc (suc (suc (suc zero)))) w words n h = refl
  read_token-after_cut (suc (suc (suc (suc (suc zero))))) w words n h = refl
  read_token-after_cut (suc (suc (suc (suc (suc (suc k)))))) w words n h = refl

  read_tokens-join_words :
      (k : ℕ) (words : List Bytes) (n : Nmea v.Double)
      → AllWords k words
      → read_tokens v k (tokens true (join_words words)) n ≡ read_tokens v k words n
  unfolding read_tokens
  read_tokens-join_words k [] n h = rw tokens-nil refl
  read_tokens-join_words k (w ∷ words) n (hw, h) =
      rw (join_words-rest_of w words, tokens-word k w words hw, read_token-after_cut k w words n hw)
        (bind_same (read_token v k w n)
          (λ next. read_tokens v (suc k) (tokens false (rest_of words)) next)
          (λ next. read_tokens v (suc k) words next)
          (λ next. rw (tokens-rest_of words) (read_tokens-join_words (suc k) words next h)))

  pub read_words :
      (words : List Bytes)
      → AllWords 0 words
      → get_field v (join_words words) ≡ read_tokens v 0 words (no_data v)
  unfolding get_field
  read_words words h =
      rw (c_str-join_words 0 words h) (read_tokens-join_words 0 words (no_data v) h)
