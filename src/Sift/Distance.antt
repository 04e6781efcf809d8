-- ===== src/Sift/Distance.antt =====
-- calcClassicZ and calcDist of main.cpp: the distance of a thing from the difference in pixels. The double and
-- its operations are parameters, each call of which the source has in this order.
mod Tests
use da_gis_service.Common.{ℕ}

-- `decimal n k` is the constant n / 10^k.
pub record Arithmetic : Type 1 where
  pub Double : Type 0
  pub decimal : (n k : ℕ) → Double
  pub negate : Double → Double
  pub minus : Double → Double → Double
  pub times : Double → Double → Double
  pub divide : Double → Double → Double
  pub atan : Double → Double
  pub cos : Double → Double
  pub abs : Double → Double
  pub pi : Double

module _ (v : Arithmetic) where
  -- `dist_to_wall` and half of the width of the wall that is seen from there: the tangent of half of the angle
  -- of view.
  unfoldable pub tan_alpha05 : v.Double
  tan_alpha05 =
      let dist_to_wall = v.decimal 7326 0 in
      let w_wall =
        v.times (v.times (v.divide (v.decimal 1920 0) (v.decimal 85 0)) (v.decimal 100 0))
          (v.decimal 5 1) in
      v.divide w_wall dist_to_wall

  -- calcClassicZ, which does not use `dl` and `dr`.
  unfoldable pub calc_classic_z : (px_diff dl dr cpx : v.Double) → v.Double
  calc_classic_z px_diff dl dr cpx =
      let px_size = v.divide (v.decimal 113 1) (v.decimal 1920 0) in
      let base_maket = v.decimal 1025 0 in
      let w_matr = v.decimal 113 1 in
      let focus = v.divide w_matr (v.times (v.decimal 2 0) tan_alpha05) in
      let diff_px = v.minus px_diff cpx in
      v.divide (v.times focus base_maket) (v.times px_size diff_px)

  -- calcDist
  unfoldable pub calc_dist : (px_diff1 : v.Double) → v.Double
  calc_dist px_diff1 =
      let width_centr = v.divide (v.decimal 1920 0) (v.decimal 2 0) in
      let degrees = v.decimal 180 0 in
      let alpha_view05 = v.divide (v.times (v.atan tan_alpha05) degrees) v.pi in
      let angle1 = v.times (v.divide alpha_view05 width_centr) (v.abs px_diff1) in
      let zero = v.decimal 0 0 in
      let cpx = v.negate (v.decimal 1095 2) in
      let measure_dist1 = v.times (v.decimal 1 3) (calc_classic_z px_diff1 zero zero cpx) in
      v.times measure_dist1 (v.cos (v.times (v.divide angle1 degrees) v.pi))
