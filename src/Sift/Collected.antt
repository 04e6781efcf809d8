-- ===== src/Sift/Collected.antt =====
-- The matches that calcsift of main.cpp collects.
use da_gis_service.Common.{
  ℕ, zero, suc, ◌+◌, ◌<◌, ◌≡◌, refl, some, List, [], ◌∷◌, arith, length, All, All-map, get_elem?,
  get_elem?-some,
}
use da_gis_service.Frames.{Box}
use da_gis_service.Sift.{
  DMatch, Floats, SfMatch, Points, Matches, difference_of, collect_matches, positive_or_impossible,
  with_first,
}

module _ (v : Floats) where
  -- The matches that are there.
  abbrev pub count_matches : Matches v → ℕ
  count_matches [] = 0
  count_matches ([] ∷ matches) = count_matches matches
  count_matches ((m ∷ _) ∷ matches) = suc (count_matches matches)

  module _ (pleft pright : Box) (kl kr : Points v) where
    -- Both indices of a match are those of key points.
    abbrev pub InRange : List (DMatch v.Double) → Type 0
    InRange [] = Unit
    InRange (m ∷ _) = (m.query_idx < length kl) × (m.train_idx < length kr)

    pub difference_of-InRange :
        (m : DMatch v.Double)
        → m.query_idx < length kl
        → m.train_idx < length kr
        → (df : v.Double) × (difference_of v pleft pright kl kr m ≡ some df)
    unfolding difference_of
    difference_of-InRange m in_left in_right =
        let (l, el) = get_elem?-some kl m.query_idx in_left in
        let (r, er) = get_elem?-some kr m.train_idx in_right in
        (v.difference l.pt_x pleft.x r.pt_x pright.x, rw (el, er) refl)

    pub with_first-difference :
        (m : DMatch v.Double) (ms : List (DMatch v.Double)) (df : v.Double)
        → difference_of v pleft pright kl kr m ≡ some df
        → with_first v pleft pright kl kr (some (m ∷ ms)) ≡ some (positive_or_impossible v df)
    with_first-difference m ms df eq = rw (eq, with_first) refl

    -- `s` was made of the match at its index, where the list starts with number `i`.
    pub record IsOf (i : ℕ) (matches : Matches v) (s : SfMatch v.Double) : Type 0 where
      pub place : ℕ
      pub match : DMatch v.Double
      pub others : List (DMatch v.Double)
      pub at_index : s.index ≡ i + place
      pub found : get_elem? matches place ≡ some (match ∷ others)
      pub same : s.dist ≡ match.distance

    IsOf-later :
        (i : ℕ) (ms : List (DMatch v.Double)) (matches : Matches v) (s : SfMatch v.Double)
        → IsOf (suc i) matches s
        → IsOf i (ms ∷ matches) s
    IsOf-later i ms matches s o = record {
      place = suc o.place;
      match = o.match;
      others = o.others;
      at_index = omega (arith, o.at_index);
      found = o.found;
      same = o.same;
    }

    -- What collect_matches finds: one for each match.
    pub record Collected (i : ℕ) (matches : Matches v) : Type 1 where
      pub found : List (SfMatch v.Double)
      pub collected : collect_matches v pleft pright kl kr i matches ≡ some found
      pub size : length found ≡ count_matches matches
      pub each : All (IsOf i matches) found
      pub covers :
          (P : SfMatch v.Double → Type 0)
          → All P found
          → (k : ℕ) (m : DMatch v.Double) (ms : List (DMatch v.Double))
          → get_elem? matches k ≡ some (m ∷ ms)
          → P (record { dist = m.distance; index = i + k })

    -- What holds of the first match and of those after it.
    covers_next :
        (P : SfMatch v.Double → Type 0) (i : ℕ) (x : List (DMatch v.Double)) (matches : Matches v)
        → ((m : DMatch v.Double) (ms : List (DMatch v.Double))
            → x ≡ m ∷ ms
            → P (record { dist = m.distance; index = i }))
        → ((k : ℕ) (m : DMatch v.Double) (ms : List (DMatch v.Double))
            → get_elem? matches k ≡ some (m ∷ ms)
            → P (record { dist = m.distance; index = suc i + k }))
        → (k : ℕ) (m : DMatch v.Double) (ms : List (DMatch v.Double))
        → get_elem? (x ∷ matches) k ≡ some (m ∷ ms)
        → P (record { dist = m.distance; index = i + k })
    covers_next P i x matches first later zero m ms e =
        let same : i + 0 ≡ i = omega arith in rw same (first m ms cc)
    covers_next P i x matches first later (suc k) m ms e =
        let same : i + suc k ≡ suc i + k = omega arith in rw same (later k m ms e)

    pub collect_matches-Collected :
        (i : ℕ) (matches : Matches v) → All InRange matches → Collected i matches
    unfolding collect_matches
    collect_matches-Collected i [] h = record {
      found = [];
      collected = refl;
      size = refl;
      each = tt;
      covers = λ P all k m ms e. cc;
    }
    collect_matches-Collected i ([] ∷ matches) (_, h) =
        let rest = collect_matches-Collected (suc i) matches h in
        record {
          found = rest.found;
          collected = rest.collected;
          size = rest.size;
          each =
              All-map (IsOf (suc i) matches) (IsOf i ([] ∷ matches)) (IsOf-later i [] matches)
                rest.found rest.each;
          covers = λ P all. covers_next P i [] matches (λ m ms e. cc) (rest.covers P all);
        }
    collect_matches-Collected i ((m ∷ ms) ∷ matches) ((in_left, in_right), h) =
        let rest = collect_matches-Collected (suc i) matches h in
        let (df, in_range) = difference_of-InRange m in_left in_right in
        let s : SfMatch v.Double = record { dist = m.distance; index = i } in
        record {
          found = s ∷ rest.found;
          collected = rw (in_range, rest.collected, collect_matches) refl;
          size = omega (arith, rest.size);
          each = (
            record {
              place = 0;
              match = m;
              others = ms;
              at_index = omega arith;
              found = refl;
              same = refl;
            },
            All-map (IsOf (suc i) matches) (IsOf i ((m ∷ ms) ∷ matches))
                (IsOf-later i (m ∷ ms) matches) rest.found rest.each,
          );
          covers = λ P (first, all).
              covers_next P i (m ∷ ms) matches
                (λ n ns e. let same : m ≡ n = cc in rw (← same) first) (rest.covers P all);
        }
