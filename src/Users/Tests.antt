-- ===== src/Users/Tests.antt =====
-- Runs of http_server/users and http_server/jwt, and the theorems about them at concrete users.
use da_gis_service.Common.{
  ◌≡◌, refl, true, false, none, some, List, [], ◌∷◌, Bytes, bytes, eqb, contains, is_prefix, any,
}
use da_gis_service.Jwt.{verify, create_token}
use da_gis_service.Users.{
  UserData, with_tokens, initial_users, admin, gosha, erase_token, disprove_user, holds_token,
  get_user_data, token_exist, check_access, authenticate_user, verify_token,
}
use da_gis_service.Users.Logout.{count_token, occurrences}
use da_gis_service.Samples.{sample_jwt}

code : Unit {0}
unfolding verify_token authenticate_user check_access token_exist get_user_data holds_token
    disprove_user erase_token verify create_token eqb contains is_prefix any count_token occurrences
code = tt

abbrev gosha_token : Bytes
gosha_token = 5 ∷ 65 ∷ bytes "user"

abbrev with_gosha : List UserData
with_gosha = admin ∷ with_tokens gosha (gosha_token ∷ []) ∷ []

users_run :
    (authenticate_user sample_jwt 5 5 (bytes "user") (bytes "456") initial_users
      ≡ (some gosha_token, with_gosha))
    × (authenticate_user sample_jwt 5 5 (bytes "user") (bytes "123") initial_users
        ≡ (none, initial_users))
    × (disprove_user gosha_token with_gosha ≡ initial_users)
    × (check_access gosha_token (bytes "/api/info") with_gosha ≡ true)
    × (check_access gosha_token (bytes "/api/secret") with_gosha ≡ false)
    × (token_exist (bytes "user") with_gosha ≡ true)
    × (token_exist (bytes "users") with_gosha ≡ false)
unfolding code
users_run = (refl, refl, refl, refl, refl, refl, refl)
