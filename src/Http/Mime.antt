-- ===== src/Http/Mime.antt =====
-- mime_type of http_server/httpserver.cpp looks at the last extension alone, in either case.
use da_gis_service.Common.{ℕ, ◌≡◌, ◌≢◌, refl, ap, List, [], ◌∷◌, ◌++◌, map, arith, Bytes, eqb, All}
use da_gis_service.HttpResponse.{extension, lower, iequals, mime_types, mime_of, mime_type}

lower-lower : (c : ℕ) → lower (lower c) ≡ lower c
lower-lower c = ground arith

lower-dot : (c : ℕ) → c ≢ b'.' → lower c ≢ b'.'
lower-dot c h = ground arith

abbrev pub NoDot : Bytes → Type 0
NoDot = All (λ c. c ≢ b'.')

extension_of_NoDot : (s : Bytes) → NoDot s → extension s ≡ []
unfolding extension eqb
extension_of_NoDot [] h = refl
extension_of_NoDot (c ∷ s) (n, h) = ground (arith, extension_of_NoDot s h)

extension-append : (base ext : Bytes) → NoDot ext → extension (base ++ b'.' ∷ ext) ≡ b'.' ∷ ext
unfolding extension eqb
extension-append [] ext h = ground (arith, extension_of_NoDot ext h)
extension-append (c ∷ base) ext h = ground (arith, extension-append base ext h)

mime_of-lower :
    (a b : Bytes) (rows : List (Bytes × Bytes))
    → map lower a ≡ map lower b
    → mime_of a rows ≡ mime_of b rows
unfolding mime_of iequals
mime_of-lower a b [] h = refl
mime_of-lower a b ((e, mime) ∷ rows) h = rw (h, mime_of-lower a b rows h)

-- Two paths have the same type if what follows their last dots is the same up to upper and lower
-- case.
pub mime_type-append :
    (base base' ext ext' : Bytes)
    → NoDot ext
    → NoDot ext'
    → map lower ext ≡ map lower ext'
    → mime_type (base ++ b'.' ∷ ext) ≡ mime_type (base' ++ b'.' ∷ ext')
unfolding mime_type
mime_type-append base base' ext ext' h h' same =
    rw (extension-append base ext h, extension-append base' ext' h')
      (mime_of-lower (b'.' ∷ ext) (b'.' ∷ ext') mime_types (ap (λ t. b'.' ∷ t) same))
