-- ===== src/Sift.antt =====
-- calcsift of main.cpp: the distance in pixels between a thing in the left and in the right image of a frame.
-- What it computes with doubles and what OpenCV's matcher and std::sort give are parameters.
pub mod Collected
pub mod Best
pub mod Calc
pub mod Distance
mod Tests
use da_gis_service.Common.{
  ℕ, zero, suc, ◌+◌, ◌*◌, ◌≡◌, Bool, true, false, ◌||◌, Option, none, some, List, [], ◌∷◌, ◌++◌,
  length, ltb, ◌==◌, if◌then◌else◌, get_elem?,
}
use da_gis_service.Frames.{Memory, Frame, Box, read_part_frame}

-- KeyPoint, and DMatch, of which the program reads two indices and the distance.
pub record KeyPoint (Float : Type 0) : Type 0 where
  pub pt_x : Float

pub record DMatch (Double : Type 0) : Type 0 where
  pub query_idx : ℕ
  pub train_idx : ℕ
  pub distance : Double

-- The arithmetic of calcsift: the integer parts of `x + k*w` and of `w - 2*k*w`, `(lp.x + left) - (rp.x + right)`,
-- `0 < d`, `a < b`, and the doubles SIFT_IS_NOT_FINISHED and SIFT_IS_IMPOSSIBLE.
pub record Floats : Type 1 where
  pub Float : Type 0
  pub Double : Type 0
  pub moved : (x w : ℕ) → ℕ
  pub shrunk : (w : ℕ) → ℕ
  pub difference : (lp_x : Float) (left_x : ℕ) (rp_x : Float) (right_x : ℕ) → Double
  pub is_positive : Double → Bool
  pub less : Double → Double → Bool
  pub not_finished : Double
  pub impossible : Double

-- sf_match
pub record SfMatch (Double : Type 0) : Type 0 where
  pub dist : Double
  pub index : ℕ

-- The middle of a box, as left_crop and right_crop are.
unfoldable pub crop : Floats → Box → Box
crop v b = record {
  x = v.moved b.x b.w;
  y = v.moved b.y b.h;
  w = v.shrunk b.w;
  h = v.shrunk b.h;
  id = b.id;
}

module _ (v : Floats) where
  abbrev pub Points : Type 0
  Points = List (KeyPoint v.Float)

  abbrev pub Matches : Type 0
  Matches = List (List (DMatch v.Double))

  -- siftSort
  abbrev pub sift_sort : SfMatch v.Double → SfMatch v.Double → Bool
  sift_sort a b = v.less a.dist b.dist

  abbrev pub df_of :
      (pleft pright : Box) → Option (KeyPoint v.Float) → Option (KeyPoint v.Float) → Option v.Double
  df_of pleft pright (some l) (some r) = some (v.difference l.pt_x pleft.x r.pt_x pright.x)
  df_of pleft pright _ _ = none

  -- `df` of a match; none if an index is out of range.
  unfoldable pub difference_of :
      (pleft pright : Box) (keypoints_left keypoints_right : Points)
      → DMatch v.Double
      → Option v.Double
  difference_of pleft pright keypoints_left keypoints_right m =
      df_of pleft pright (get_elem? keypoints_left m.query_idx)
        (get_elem? keypoints_right m.train_idx)

  -- The loop over `matches` from number `i` on: what it adds to `_sf_match`; none if it reads a key point out of
  -- range.
  unfoldable pub collect_matches :
      (pleft pright : Box) (keypoints_left keypoints_right : Points) (i : ℕ)
      → Matches
      → Option (List (SfMatch v.Double))
  collect_matches pleft pright kl kr i [] = some []
  collect_matches pleft pright kl kr i ([] ∷ matches) =
      collect_matches pleft pright kl kr (suc i) matches
  collect_matches pleft pright kl kr i ((m ∷ _) ∷ matches) =
      let rest = collect_matches pleft pright kl kr (suc i) matches in
      elim (difference_of pleft pright kl kr m) [
        | none ↦ none
        | some d ↦ elim rest [
          | none ↦ none
          | some found ↦ some (record { dist = m.distance; index = i } ∷ found)
        ]
      ]

  -- `if(df > 0) dpx = df; else dpx = SIFT_IS_IMPOSSIBLE;`
  unfoldable pub positive_or_impossible : v.Double → v.Double
  positive_or_impossible df = if v.is_positive df then df else v.impossible

  abbrev pub with_first :
      (pleft pright : Box) (keypoints_left keypoints_right : Points)
      → Option (List (DMatch v.Double))
      → Option v.Double
  with_first pleft pright kl kr (some (m ∷ _)) = elim (difference_of pleft pright kl kr m) [
    | none ↦ none
    | some df ↦ some (positive_or_impossible df)
  ]
  with_first pleft pright kl kr _ = none

  module _ (sort : List (SfMatch v.Double) → List (SfMatch v.Double)) where
    -- `dpx` after `if(_sf_match.size() > 2)` and its else branch.
    unfoldable pub best_difference :
        (pleft pright : Box) (keypoints_left keypoints_right : Points)
        → Matches
        → List (SfMatch v.Double)
        → Option v.Double
    best_difference pleft pright kl kr matches found =
        if ltb 2 (length found)
        then elim (sort found) [
          | [] ↦ none
          | s ∷ _ ↦ with_first pleft pright kl kr (get_elem? matches s.index)
        ]
        else some v.impossible

    -- calcsift from the matcher on; none if it reads out of range.
    unfoldable pub match_pictures :
        (pleft pright : Box) (keypoints_left keypoints_right : Points) → Matches → Option v.Double
    match_pictures pleft pright kl kr matches =
        elim (collect_matches pleft pright kl kr 0 matches) [
          | none ↦ none
          | some found ↦ best_difference pleft pright kl kr matches found
        ]

    -- `knn_match` stands for what the matcher finds between descriptors of the two pictures.
    module _ (image_width salmon_size : ℕ) (frame : ℕ → Frame v.Double)
        (knn_match : (left right : Memory) → Matches) where
      -- The test of the numbers of key points, and the rest of calcsift.
      unfoldable pub after_detection :
          (pleft pright : Box) (left right : Memory) (keypoints_left keypoints_right : Points)
          → Option v.Double
      after_detection pleft pright left right kl kr =
          if length kl == 0 || length kr == 0
          then some v.not_finished
          else match_pictures pleft pright kl kr (knn_match left right)

      -- calcsift: its result and the memory behind the two pictures that it allocates. The calls of
      -- detect and compute are commented out, so that both vectors of key points are empty.
      unfoldable pub calcsift :
          (left right : Box) (left_pict_ts right_pict_ts : Memory)
          → Option v.Double × Memory × Memory
      calcsift left right left_pict_ts right_pict_ts =
          let pleft = crop v left in
          let pright = crop v right in
          let left_read =
            read_part_frame v.Double image_width salmon_size frame pleft left_pict_ts in
          let right_read =
            read_part_frame v.Double image_width salmon_size frame pright right_pict_ts in
          (after_detection pleft pright left_read.1 right_read.1 [] [], left_read.1, right_read.1)
