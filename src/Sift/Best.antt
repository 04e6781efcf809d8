-- ===== src/Sift/Best.antt =====
-- The matches of calcsift of main.cpp: which of them gives the result.
use mathlib.Core.Path.{subst}
use mathlib.Core.List.{Permᴰ}
use mathlib.Core.List.Permᴰ.{nil, cons, swap, trans, symm}
use da_gis_service.Common.{
  ℕ, suc, ◌≤◌, ◌<◌, ◌≡◌, ◌∙◌, refl, ap, false, Option, none, some, List, [], ◌∷◌, arith, length,
  ltb, All, All-get_elem?, get_elem?, Bool-cases, inl, inr,
}
use da_gis_service.Frames.{Box}
use da_gis_service.Sift.{
  DMatch, Floats, SfMatch, Points, Matches, sift_sort, difference_of, positive_or_impossible,
  with_first, best_difference, match_pictures,
}
use da_gis_service.Sift.Collected.{
  count_matches, InRange, difference_of-InRange, with_first-difference, IsOf, Collected,
  collect_matches-Collected,
}

Permᴰ-All {ℓ κ} : {A : Type ℓ} (P : A → Type κ) {xs ys : List A} → Permᴰ xs ys → All P xs → All P ys
Permᴰ-All P nil h = tt
Permᴰ-All P (cons e d) (p, h) = (subst P e p, Permᴰ-All P d h)
Permᴰ-All P (swap e f) (p, (q, h)) = (subst P f q, (subst P e p, h))
Permᴰ-All P (trans d e) h = Permᴰ-All P e (Permᴰ-All P d h)

length-Permᴰ {ℓ} : {A : Type ℓ} {xs ys : List A} → Permᴰ xs ys → length xs ≡ length ys
length-Permᴰ nil = refl
length-Permᴰ (cons e d) = ap suc (length-Permᴰ d)
length-Permᴰ (swap e f) = refl
length-Permᴰ (trans d e) = length-Permᴰ d ∙ length-Permᴰ e

module _ (v : Floats) where
  -- No element comes before an earlier one.
  abbrev pub IsSorted : List (SfMatch v.Double) → Type 0
  IsSorted [] = Unit
  IsSorted (s ∷ found) = All (λ t. sift_sort v t s ≡ false) found × IsSorted found

  -- std::sort with siftSort: the elements in an order in which none comes before an earlier one.
  pub record SortLaws (sort : List (SfMatch v.Double) → List (SfMatch v.Double)) : Type 0 where
    pub permutes : (found : List (SfMatch v.Double)) → Permᴰ found (sort found)
    pub sorted : (found : List (SfMatch v.Double)) → IsSorted (sort found)

  -- No double is less than itself.
  pub record OrderLaws : Type 0 where
    pub irreflexive : (d : v.Double) → v.less d d ≡ false

  module _ (pleft pright : Box) (kl kr : Points v) where
    -- The result of the matches `o`: impossible if there are at most two; else that of a match to which
    -- none is nearer, impossible if the difference is not positive.
    pub data BestOf (matches : Matches v) (o : Option v.Double) : Type 0 where
      too_few : count_matches v matches ≤ 2 → o ≡ some v.impossible → BestOf matches o
      nearest :
          2 < count_matches v matches
          → (place : ℕ) (m : DMatch v.Double) (ms : List (DMatch v.Double))
          → get_elem? matches place ≡ some (m ∷ ms)
          → ((k : ℕ) (n : DMatch v.Double) (ns : List (DMatch v.Double))
              → get_elem? matches k ≡ some (n ∷ ns)
              → v.less n.distance m.distance ≡ false)
          → (df : v.Double) → difference_of v pleft pright kl kr m ≡ some df
          → o ≡ some (positive_or_impossible v df)
          → BestOf matches o

    module _ (sort : List (SfMatch v.Double) → List (SfMatch v.Double)) (sorts : SortLaws sort)
        (order : OrderLaws) where
      sorted-BestOf :
          (matches : Matches v) (c : Collected v pleft pright kl kr 0 matches)
          (sorted : List (SfMatch v.Double))
          → All (InRange v pleft pright kl kr) matches
          → sort c.found ≡ sorted
          → 2 < count_matches v matches
          → BestOf matches (elim sorted [
            | [] ↦ none
            | s ∷ _ ↦ with_first v pleft pright kl kr (get_elem? matches s.index)
          ])
      sorted-BestOf matches c [] in_range e many =
          let size = length-Permᴰ (sorts.permutes c.found) in
          let none_left : length (sort c.found) ≡ 0 = rw e refl in
          absurd (omega (arith, size, c.size, none_left, many))
      sorted-BestOf matches c (s ∷ ss) in_range e many =
          let permuted : Permᴰ c.found (s ∷ ss) = rw e at (sorts.permutes c.found) in
          let ordered : IsSorted (s ∷ ss) = rw e at (sorts.sorted c.found) in
          let o = (Permᴰ-All (IsOf v pleft pright kl kr 0 matches) permuted c.each).0 in
          let least =
            Permᴰ-All (λ t. sift_sort v t s ≡ false) (symm permuted)
              (order.irreflexive s.dist, ordered.0) in
          let at : s.index ≡ o.place = omega (arith, o.at_index) in
          let (in_left, in_right) =
            All-get_elem? (InRange v pleft pright kl kr) matches o.place (o.match ∷ o.others)
              in_range o.found in
          let (df, eq) = difference_of-InRange v pleft pright kl kr o.match in_left in_right in
          rw (at, o.found)
            (nearest many o.place o.match o.others o.found
              (λ k n ns there.
                rw o.same at (c.covers (λ t. sift_sort v t s ≡ false) least k n ns there))
              df eq (with_first-difference v pleft pright kl kr o.match o.others df eq))

      -- Whatever pictures, key points and matches: if the matches have the numbers of key points and std::sort
      -- sorts, the result is impossible for at most two matches; else it is the difference of a match to which
      -- none is nearer, or impossible if that is not positive.
      pub match_pictures-BestOf :
          (matches : Matches v)
          → All (InRange v pleft pright kl kr) matches
          → BestOf matches (match_pictures v sort pleft pright kl kr matches)
      unfolding match_pictures best_difference
      match_pictures-BestOf matches in_range =
          let c = collect_matches-Collected v pleft pright kl kr 0 matches in_range in
          elim (Bool-cases (ltb 2 (length c.found))) [
            | inl many ↦
                rw (c.collected, many, match_pictures, best_difference)
                  (sorted-BestOf matches c (sort c.found) in_range refl
                    (let h : 2 < length c.found = ground (arith, many) in omega (arith, h, c.size)))
            | inr few ↦
                rw (c.collected, few, match_pictures, best_difference)
                  (too_few
                    (let h : length c.found ≤ 2 = ground (arith, few) in omega (arith, h, c.size))
                    refl)
          ]
