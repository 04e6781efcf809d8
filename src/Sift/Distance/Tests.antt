-- ===== src/Sift/Distance/Tests.antt =====
-- The formula of calcClassicZ of main.cpp, written out.
use da_gis_service.Common.{◌≡◌, refl, ◌++◌, Bytes, bytes}
use da_gis_service.Verify.{digits, to_string}
use da_gis_service.Sift.Distance.{Arithmetic, tan_alpha05, calc_classic_z}

abbrev between : Bytes → Bytes → Bytes → Bytes
between op a b = bytes "(" ++ a ++ op ++ b ++ bytes ")"

abbrev of : Bytes → Bytes → Bytes
of f a = f ++ bytes "(" ++ a ++ bytes ")"

-- A double is the text of its formula.
abbrev formulas : Arithmetic
formulas = record {
  Double = Bytes;
  decimal = λ n k. to_string n ++ bytes "e-" ++ to_string k;
  negate = of (bytes "-");
  minus = between (bytes " - ");
  times = between (bytes "*");
  divide = between (bytes "/");
  atan = of (bytes "atan");
  cos = of (bytes "cos");
  abs = of (bytes "abs");
  pi = bytes "pi";
}

code : Unit {0}
unfolding digits tan_alpha05 calc_classic_z
code = tt

classic_z_run :
    calc_classic_z formulas (bytes "d") (bytes "l") (bytes "r") (bytes "c")
    ≡ bytes "(((113e-1/(2e-0*((((1920e-0/85e-0)*100e-0)*5e-1)/7326e-0)))*1025e-0)"
      ++ bytes "/((113e-1/1920e-0)*(d - c)))"
unfolding code
classic_z_run = refl
