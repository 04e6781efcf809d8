-- ===== src/Users/Parts.antt =====
-- How many stored tokens of http_server/users/users_storage.cpp a token is part of. TokenExist and
-- GetUserData search for parts, DisproveUser compares.
use da_gis_service.Common.{
  ℕ, suc, ◌+◌, ◌≡◌, ◌≢◌, refl, false, some, List, [], ◌∷◌, arith, Bytes, eqb, eqb_iff, contains,
  contains_refl, any, Bool-cases, Option-cases, inl, inr, if◌then◌else◌,
}
use da_gis_service.Users.{UserData, erase_token, disprove_user, holds_token, token_exist}
use da_gis_service.Users.Logout.{occurrences, erase_token-none}

unfoldable pub parts : Bytes → List Bytes → ℕ
parts token [] = 0
parts token (t ∷ ts) = (if contains token t then 1 else 0) + parts token ts

-- The number of stored tokens that `token` is part of.
unfoldable pub all_parts : Bytes → List UserData → ℕ
all_parts token [] = 0
all_parts token (user ∷ users) = parts token user.tokens + all_parts token users

any-contains-parts :
    (token : Bytes) (ts : List Bytes) → parts token ts ≡ 0 → any (contains token) ts ≡ false
unfolding parts any
any-contains-parts token [] h = refl
any-contains-parts token (t ∷ ts) h = ground (arith, any-contains-parts token ts)

pub token_exist-all_parts :
    (token : Bytes) (users : List UserData)
    → all_parts token users ≡ 0
    → token_exist token users ≡ false
unfolding all_parts token_exist holds_token
token_exist-all_parts token [] h = refl
token_exist-all_parts token (user ∷ users) h =
    ground (arith, any-contains-parts token user.tokens, token_exist-all_parts token users)

parts-erase_token :
    (token : Bytes) (ts rest : List Bytes)
    → erase_token token ts ≡ some rest
    → parts token ts ≡ suc (parts token rest)
unfolding parts erase_token
parts-erase_token token [] rest e = cc
parts-erase_token token (t ∷ ts) rest e = elim (Bool-cases (eqb t token)) [
  | inl same ↦ ground (arith, eqb_iff t token, contains_refl token)
  | inr differ ↦ elim (Option-cases (erase_token token ts)) [
    | inl missing ↦ absurd (ground arith)
    | inr (r, found) ↦ ground (arith, parts-erase_token token ts r found)
  ]
]

-- A stored token that is taken away is one of those that it is part of.
pub all_parts-disprove_user :
    (token : Bytes) (users : List UserData)
    → occurrences token users ≢ 0
    → all_parts token users ≡ suc (all_parts token (disprove_user token users))
unfolding all_parts disprove_user occurrences
all_parts-disprove_user token [] h = absurd (h refl)
all_parts-disprove_user token (user ∷ users) h =
    elim (Option-cases (erase_token token user.tokens)) [
      | inl missing ↦
          ground
            (arith, erase_token-none token user.tokens missing, all_parts-disprove_user token users)
      | inr (rest, found) ↦ ground (arith, parts-erase_token token user.tokens rest found)
    ]
