-- ===== src/Http/Files.antt =====
-- Which files handle_request of http_server/httpserver.cpp reads.
use da_gis_service.Common.{
  ℕ, ◌≡◌, ◌≢◌, refl, ap, ◌∙◌, false, [], ◌∷◌, ◌++◌, arith, Bytes, bytes, eqb, contains, is_prefix,
  c_str, Bool-cases, inl, inr, if◌then◌else◌,
}
use mathlib.Core.List.{append_assoc}
use da_gis_service.Jwt.{JwtCpp}
use da_gis_service.Json.{BoostJson}
use da_gis_service.Api.{Verb, get, head, Request, Server, Clock}
use da_gis_service.HttpResponse.{Opened}
use da_gis_service.Http.{
  ends_in_slash, drop_last, path_cat, is_known, is_illegal, file_path, dispatch, handle_request,
}

-- Two dots in a row.
abbrev dots : Bytes
dots = b'.' ∷ b'.' ∷ []

-- `path` is the root, less a final slash, with a relative part behind it that begins with a slash and
-- nowhere has two dots in a row; so it names no parent directory.
pub record IsUnder (root path : Bytes) : Type 0 where
  pub rest : Bytes
  pub split : path ≡ (if ends_in_slash root then drop_last root else root) ++ (b'/' ∷ rest)
  pub no_dots : contains dots (b'/' ∷ rest) ≡ false

-- Behind a text with no two dots, one that has none and begins with another byte adds none.
contains-dots-append :
    (s : Bytes) (c : ℕ) (t : Bytes)
    → contains dots s ≡ false
    → contains dots (c ∷ t) ≡ false
    → c ≢ b'.'
    → contains dots (s ++ c ∷ t) ≡ false
unfolding contains is_prefix
contains-dots-append [] c t h k ne = k
contains-dots-append (a ∷ []) c t h k ne = ground arith
contains-dots-append (a ∷ b ∷ s) c t h k ne = ground (arith, contains-dots-append (b ∷ s) c t)

contains-dots-c_str : (s : Bytes) → contains dots s ≡ false → contains dots (c_str s) ≡ false
unfolding contains is_prefix c_str
contains-dots-c_str [] h = h
contains-dots-c_str (a ∷ []) h = ground arith
contains-dots-c_str (a ∷ b ∷ s) h = ground (arith, contains-dots-c_str (b ∷ s))

c_str-cons : (a : ℕ) (s : Bytes) → c_str (a ∷ s) ≡ a ∷ s → (a ≢ 0) × (c_str s ≡ s)
unfolding c_str
c_str-cons a s h = ground arith

c_str-append : (s t : Bytes) → c_str s ≡ s → c_str (s ++ t) ≡ s ++ c_str t
unfolding c_str
c_str-append [] t h = refl
c_str-append (a ∷ s) t h = let (ne, e) = c_str-cons a s h in ground (arith, c_str-append s t e)

c_str-drop_last : (s : Bytes) → c_str s ≡ s → c_str (drop_last s) ≡ drop_last s
unfolding c_str drop_last
c_str-drop_last [] h = refl
c_str-drop_last (a ∷ []) h = refl
c_str-drop_last (a ∷ b ∷ s) h =
    let (ne, e) = c_str-cons a (b ∷ s) h in ground (arith, c_str-drop_last (b ∷ s) e)

abbrev stem : Bytes → Bytes
stem root = if ends_in_slash root then drop_last root else root

c_str-stem : (root : Bytes) → c_str root ≡ root → c_str (stem root) ≡ stem root
c_str-stem root h = ground (arith, c_str-drop_last root h)

-- A path under the root stays there when it is cut at its first NUL.
IsUnder-c_str :
    (root path : Bytes) → c_str root ≡ root → IsUnder root path → IsUnder root (c_str path)
unfolding c_str
IsUnder-c_str root path h u = record {
  rest = c_str u.rest;
  split = rw u.split (c_str-append (stem root) (b'/' ∷ u.rest) (c_str-stem root h));
  no_dots = contains-dots-c_str (b'/' ∷ u.rest) u.no_dots;
}

path_cat-stem : (root target : Bytes) → path_cat root target ≡ stem root ++ target
unfolding path_cat eqb ends_in_slash
path_cat-stem [] target = refl
path_cat-stem (a ∷ root) target = refl

-- The two parts of a legal target.
legal_target :
    (target : Bytes)
    → is_illegal target ≡ false
    → (rest : Bytes) × (target ≡ b'/' ∷ rest) × (contains dots (b'/' ∷ rest) ≡ false)
unfolding is_illegal
legal_target [] h = cc
legal_target (c ∷ rest) h = (rest, ground arith, ground arith)

index_dots : contains dots (bytes "index.html") ≡ false
unfolding contains is_prefix
index_dots = refl

file_path-IsUnder :
    (root target : Bytes) → is_illegal target ≡ false → IsUnder root (file_path root target)
unfolding file_path
file_path-IsUnder root target h =
    let (rest, e, d) = legal_target target h in
    elim (Bool-cases (ends_in_slash target)) [
      | inl dir ↦
          rw (dir, file_path)
            (record {
              rest = rest ++ bytes "index.html";
              split =
                  ap (λ t. t ++ bytes "index.html") (path_cat-stem root target)
                  ∙ append_assoc (stem root) target (bytes "index.html")
                  ∙ ap (λ t. stem root ++ (t ++ bytes "index.html")) e;
              no_dots =
                  contains-dots-append (b'/' ∷ rest) b'i' (bytes "ndex.html") d index_dots
                    (λ q. absurd (omega arith));
            })
      | inr plain ↦
          rw (plain, file_path)
            (record {
              rest = rest;
              split = path_cat-stem root target ∙ ap (λ t. stem root ++ t) e;
              no_dots = d;
            })
    ]

module _ (beast_version : Bytes) (jwt : JwtCpp) (js : BoostJson) where
  module _ (disk other_disk : Bytes → Opened) (root : Bytes) where
    dispatch-files :
        (v : Verb) (clock : Clock) (req : Request) (path : Bytes) (s : Server)
        → disk (c_str path) ≡ other_disk (c_str path)
        → dispatch beast_version disk jwt js v clock req path s
          ≡ dispatch beast_version other_disk jwt js v clock req path s
    unfolding dispatch
    dispatch-files get clock req path s h = rw (h, dispatch)
    dispatch-files head clock req path s h = rw h
    dispatch-files _ clock req path s h = refl

    -- A root of the documents without a NUL keeps the server to the files under it: two file systems
    -- that agree on the paths under the root give the same response and the same state.
    pub handle_request-IsUnder :
        c_str root ≡ root
        → ((path : Bytes) → IsUnder root path → disk path ≡ other_disk path)
        → (clock : Clock) (req : Request) (s : Server)
        → handle_request beast_version disk jwt js root clock req s
          ≡ handle_request beast_version other_disk jwt js root clock req s
    unfolding handle_request
    handle_request-IsUnder no_nul same clock req s = elim (Bool-cases (is_known req.method)) [
      | inr unknown ↦ rw (unknown, handle_request)
      | inl known ↦ elim (Bool-cases (is_illegal req.target)) [
        | inl illegal ↦ rw (known, illegal, handle_request)
        | inr legal ↦
            rw (known, legal, handle_request)
              (dispatch-files req.method clock req (file_path root req.target) s (
                same (c_str (file_path root req.target)) (
                  IsUnder-c_str root (file_path root req.target) no_nul
                    (file_path-IsUnder root req.target legal))))
      ]
    ]
