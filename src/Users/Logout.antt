-- ===== src/Users/Logout.antt =====
-- DisproveUser of http_server/users/users_storage.cpp: what a logout takes away.
use da_gis_service.Common.{
  ℕ, ◌+◌, ◌-◌, ◌≡◌, refl, none, some, List, [], ◌∷◌, ◌++◌, arith, Bytes, eqb, eqb_iff, eqb_refl,
  Bool-cases, Option-cases, inl, inr, if◌then◌else◌, map,
}
use da_gis_service.Jwt.{JwtCpp}
use da_gis_service.Users.Login.{authenticate_user-LoginPost}
use da_gis_service.Users.{UserData, with_tokens, erase_token, disprove_user, authenticate_user}

-- How often `token` is stored, in one user's list and in all.
unfoldable pub count_token : Bytes → List Bytes → ℕ
count_token token [] = 0
count_token token (t ∷ tokens) = (if eqb t token then 1 else 0) + count_token token tokens

unfoldable pub occurrences : Bytes → List UserData → ℕ
occurrences token [] = 0
occurrences token (user ∷ users) = count_token token user.tokens + occurrences token users

-- All of a user but the tokens.
abbrev pub profile : UserData → UserData
profile user = with_tokens user []

count_token-append :
    (token : Bytes) (xs ys : List Bytes)
    → count_token token (xs ++ ys) ≡ count_token token xs + count_token token ys
unfolding count_token
count_token-append token [] ys = omega arith
count_token-append token (x ∷ xs) ys = omega (arith, count_token-append token xs ys)

pub erase_token-none :
    (token : Bytes) (ts : List Bytes) → erase_token token ts ≡ none → count_token token ts ≡ 0
unfolding erase_token count_token
erase_token-none token [] e = refl
erase_token-none token (t ∷ ts) e = ground (arith, erase_token-none token ts)

erase_token-some :
    (token other : Bytes) (ts rest : List Bytes)
    → erase_token token ts ≡ some rest
    → count_token other ts ≡ count_token other rest + (if eqb token other then 1 else 0)
unfolding erase_token count_token
erase_token-some token other [] rest e = cc
erase_token-some token other (t ∷ ts) rest e = elim (Bool-cases (eqb t token)) [
  | inl same ↦ ground (arith, eqb_iff t token)
  | inr differ ↦ elim (Option-cases (erase_token token ts)) [
    | inl missing ↦ ground arith
    | inr (r, found) ↦ ground (arith, erase_token-some token other ts r found)
  ]
]

disprove_user-occurrences :
    (token other : Bytes) (users : List UserData)
    → occurrences other (disprove_user token users)
      ≡ occurrences other users - (if eqb token other then 1 else 0)
unfolding disprove_user occurrences
disprove_user-occurrences token other [] = ground arith
disprove_user-occurrences token other (user ∷ users) =
    elim (Option-cases (erase_token token user.tokens)) [
      | inl missing ↦ ground (
        arith,
        disprove_user-occurrences token other users,
        erase_token-none token user.tokens missing,
        eqb_iff token other,
      )
      | inr (rest, found) ↦ ground (arith, erase_token-some token other user.tokens rest found)
    ]

disprove_user-profile :
    (token : Bytes) (users : List UserData)
    → map profile (disprove_user token users) ≡ map profile users
unfolding disprove_user
disprove_user-profile token [] = refl
disprove_user-profile token (user ∷ users) = elim (Option-cases (erase_token token user.tokens)) [
  | inl missing ↦ ground (arith, disprove_user-profile token users)
  | inr (rest, found) ↦ ground arith
]

-- A logout takes away one occurrence of the token, if there is one; no other token is lost, and
-- nothing else of any user changes.
pub disprove_user-revokes :
    (token other : Bytes) (users : List UserData)
    → (occurrences other (disprove_user token users)
        ≡ occurrences other users - (if eqb token other then 1 else 0))
      × (map profile (disprove_user token users) ≡ map profile users)
disprove_user-revokes token other users =
    (disprove_user-occurrences token other users, disprove_user-profile token users)

erase_token-append :
    (token : Bytes) (ts : List Bytes)
    → count_token token ts ≡ 0
    → erase_token token (ts ++ token ∷ []) ≡ some ts
unfolding erase_token count_token
erase_token-append token [] h = rw (eqb_refl token)
erase_token-append token (t ∷ ts) h = elim (Bool-cases (eqb t token)) [
  | inl same ↦ absurd (ground arith)
  | inr differ ↦ rw (differ, erase_token-append token ts (ground arith))
]

erase_token-absent :
    (token : Bytes) (ts : List Bytes) → count_token token ts ≡ 0 → erase_token token ts ≡ none
unfolding erase_token count_token
erase_token-absent token [] h = refl
erase_token-absent token (t ∷ ts) h = ground (arith, erase_token-absent token ts)

-- The token behind those of one user goes again, if nobody else holds it.
disprove_user-added :
    (token : Bytes) (earlier : List UserData) (user : UserData) (later : List UserData)
    → occurrences token (earlier ++ user ∷ later) ≡ 0
    → disprove_user token (earlier ++ with_tokens user (user.tokens ++ token ∷ []) ∷ later)
      ≡ earlier ++ user ∷ later
unfolding disprove_user occurrences
disprove_user-added token [] user later h =
    rw (erase_token-append token user.tokens (omega arith), disprove_user)
disprove_user-added token (u ∷ earlier) user later h =
    ground (arith, erase_token-absent token u.tokens, disprove_user-added token earlier user later)

module _ (jwt : JwtCpp) (issued now : ℕ) (username password : Bytes) where
  -- Logging out with a token that nobody held before the login puts the users back as they were.
  pub disprove_user-authenticate_user :
      (users after : List UserData) (token : Bytes)
      → authenticate_user jwt issued now username password users ≡ (some token, after)
      → occurrences token users ≡ 0
      → disprove_user token after ≡ users
  disprove_user-authenticate_user users after token e fresh =
      let (t, g) = rw e at (authenticate_user-LoginPost jwt issued now username password users) in
      rw (g.added, g.found, ← t)
        (disprove_user-added token g.earlier g.user g.later (rw g.found at fresh))
