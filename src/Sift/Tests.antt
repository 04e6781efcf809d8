-- ===== src/Sift/Tests.antt =====
-- Distances of main.cpp between points with numbers for coordinates.
use mathlib.Core.List.{Permᴰ}
use mathlib.Core.List.Permᴰ
use mathlib.Core.List.Permᴰ.{cons, swap, trans}
use da_gis_service.Common.{
  ℕ, ◌+◌, ◌-◌, ◌*◌, ◌/◌, ◌≤◌, ◌≡◌, refl, false, not, some, List, [], ◌∷◌, arith, ltb, ◌==◌,
  if◌then◌else◌, Bool-cases, inl, inr, All,
}
use da_gis_service.Frames.{Memory, Frame, Box, memcpy, find_frame, copy_rows, read_part_frame}
use da_gis_service.Sift.{
  DMatch, Floats, SfMatch, Points, Matches, crop, difference_of, collect_matches,
  positive_or_impossible, best_difference, match_pictures, after_detection, calcsift,
}
use da_gis_service.Sift.Best.{SortLaws, IsSorted, OrderLaws, BestOf, match_pictures-BestOf}
use da_gis_service.Sift.Calc.{CropLaws, AgreeOnImages, IsNotFinished, calcsift-IsNotFinished}

-- Numbers in place of doubles; 1000 stands for the -1 of SIFT_IS_NOT_FINISHED.
abbrev numbers : Floats
numbers = record {
  Float = ℕ;
  Double = ℕ;
  moved = λ x w. x + 3 * w / 10;
  shrunk = λ w. 4 * w / 10;
  difference = λ lp left rp right. (lp + left) - (rp + right);
  is_positive = λ d. not (d == 0);
  less = ltb;
  not_finished = 1000;
  impossible = 99999;
}

abbrev insert : SfMatch ℕ → List (SfMatch ℕ) → List (SfMatch ℕ)
insert s [] = s ∷ []
insert s (t ∷ found) =
    let rest = insert s found in if ltb t.dist s.dist then t ∷ rest else s ∷ t ∷ found

abbrev insertion_sort : List (SfMatch ℕ) → List (SfMatch ℕ)
insertion_sort [] = []
insertion_sort (s ∷ found) = insert s (insertion_sort found)

insert-Permᴰ : (s : SfMatch ℕ) (found : List (SfMatch ℕ)) → Permᴰ (s ∷ found) (insert s found)
insert-Permᴰ s [] = Permᴰ.refl (s ∷ [])
insert-Permᴰ s (t ∷ found) = elim (Bool-cases (ltb t.dist s.dist)) [
  | inl e ↦ rw e (trans (swap refl refl) (cons refl (insert-Permᴰ s found)))
  | inr e ↦ rw e (Permᴰ.refl (s ∷ t ∷ found))
]

insertion_sort-Permᴰ : (found : List (SfMatch ℕ)) → Permᴰ found (insertion_sort found)
insertion_sort-Permᴰ [] = Permᴰ.refl []
insertion_sort-Permᴰ (s ∷ found) =
    trans (cons refl (insertion_sort-Permᴰ found)) (insert-Permᴰ s (insertion_sort found))

-- No element of the list is before a match.
abbrev From : ℕ → List (SfMatch ℕ) → Type 0
From d found = All (λ t. ltb t.dist d ≡ false) found

From-mono : (c d : ℕ) (found : List (SfMatch ℕ)) → c ≤ d → From d found → From c found
From-mono c d [] le h = tt
From-mono c d (t ∷ found) le (p, h) = (ground (arith, p, le), From-mono c d found le h)

insert-From :
    (d : ℕ) (s : SfMatch ℕ) (found : List (SfMatch ℕ))
    → d ≤ s.dist
    → From d found
    → From d (insert s found)
insert-From d s [] le h = (ground (arith, le), tt)
insert-From d s (t ∷ found) le (p, h) = elim (Bool-cases (ltb t.dist s.dist)) [
  | inl e ↦ rw e (p, insert-From d s found le h)
  | inr e ↦ rw e (ground (arith, le), (p, h))
]

insert-IsSorted :
    (s : SfMatch ℕ) (found : List (SfMatch ℕ))
    → IsSorted numbers found
    → IsSorted numbers (insert s found)
insert-IsSorted s [] h = (tt, tt)
insert-IsSorted s (t ∷ found) (p, h) = elim (Bool-cases (ltb t.dist s.dist)) [
  | inl e ↦ rw e (insert-From t.dist s found (ground (arith, e)) p, insert-IsSorted s found h)
  | inr e ↦ rw e ((e, From-mono s.dist t.dist found (ground (arith, e)) p), (p, h))
]

insertion_sort-IsSorted : (found : List (SfMatch ℕ)) → IsSorted numbers (insertion_sort found)
insertion_sort-IsSorted [] = tt
insertion_sort-IsSorted (s ∷ found) =
    insert-IsSorted s (insertion_sort found) (insertion_sort-IsSorted found)

sort_laws : SortLaws numbers insertion_sort
sort_laws = record { permutes = insertion_sort-Permᴰ; sorted = insertion_sort-IsSorted }

order_laws : OrderLaws numbers
order_laws = record { irreflexive = λ d. ground arith }

crop_laws : CropLaws numbers
crop_laws = record { moved-bound = λ x w. omega arith; shrunk-bound = λ w. omega arith }

abbrev box : (x w : ℕ) → Box
box x w = record { x = x; y = 0; w = w; h = 10; id = 1 }

abbrev points : Points numbers
points = record { pt_x = 5 } ∷ record { pt_x = 7 } ∷ []

abbrev dmatch : (query train distance : ℕ) → DMatch ℕ
dmatch query train distance = record { query_idx = query; train_idx = train; distance = distance }

-- Three matches and a point without one.
abbrev matches : Matches numbers
matches = (dmatch 0 0 9 ∷ []) ∷ [] ∷ (dmatch 1 0 4 ∷ []) ∷ (dmatch 0 1 6 ∷ []) ∷ []

code : Unit {0}
unfolding crop difference_of collect_matches positive_or_impossible best_difference match_pictures
    after_detection calcsift memcpy find_frame copy_rows read_part_frame
code = tt

match_run :
    (match_pictures numbers insertion_sort (box 30 10) (box 20 10) points points matches ≡ some 12)
    × (match_pictures numbers insertion_sort (box 20 10) (box 30 10) points points matches
        ≡ some 99999)
    × (match_pictures numbers insertion_sort (box 30 10) (box 20 10) points points [] ≡ some 99999)
unfolding code
match_run = (refl, refl, refl)

match_pictures-BestOf_example :
    BestOf numbers
      (box 30 10)
      (box 20 10)
      points
      points
      matches
      (match_pictures numbers insertion_sort (box 30 10) (box 20 10) points points matches)
match_pictures-BestOf_example =
    match_pictures-BestOf numbers (box 30 10) (box 20 10) points points insertion_sort sort_laws
      order_laws matches
      (
        (omega arith, omega arith),
        (tt, ((omega arith, omega arith), ((omega arith, omega arith), tt))),
      )

abbrev frames : ℕ → Frame ℕ
frames i = record { buf = λ a. i; time = 0; id = i; time_gns = 0; lat = 0; lon = 0 }

abbrev nothing : Memory
nothing a = 0

abbrev no_match : Memory → Memory → Matches numbers
no_match left right = []

-- The same but for what lies behind the first image.
abbrev other_frames : ℕ → Frame ℕ
other_frames i = record {
  buf = λ a. if ltb a (10 * 40) then i else 7;
  time = 0;
  id = i;
  time_gns = 0;
  lat = 0;
  lon = 0;
}

frames_agree : AgreeOnImages numbers 10 40 frames other_frames
frames_agree = record { ids = λ i. refl; pixels = λ i a h. ground (arith, h) }

calcsift-IsNotFinished_example :
    IsNotFinished numbers insertion_sort 40 3 no_match
      (box 30 10)
      (box 20 10)
      nothing
      nothing
      (calcsift numbers insertion_sort 40 3 frames no_match (box 30 10) (box 20 10) nothing nothing)
      (calcsift numbers insertion_sort 40 3 other_frames no_match
        (box 30 10)
        (box 20 10)
        nothing
        nothing)
calcsift-IsNotFinished_example =
    calcsift-IsNotFinished numbers insertion_sort 40 3 no_match crop_laws 10 frames other_frames
      (box 30 10) (box 20 10) nothing nothing frames_agree
      (record { right_edge = omega arith; lower_edge = omega arith })
      (record { right_edge = omega arith; lower_edge = omega arith })
