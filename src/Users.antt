-- ===== src/Users.antt =====
-- http_server/users/users_storage.{h,cpp}: the users, their credentials, the routes that they may
-- call and the tokens that they hold. `CUsersData` is the list of its users; the overloads of
-- AuthenticateUser are two functions. Its mutex is taken for the whole of each public operation, so
-- an operation is one step.
pub mod Login
pub mod Logout
pub mod Access
pub mod Issued
pub mod Parts
mod Tests
use da_gis_service.Common.{
  ℕ, Bool, true, false, ◌&&◌, Option, none, some, List, [], ◌∷◌, ◌++◌, Bytes, bytes, eqb, contains,
  any, if◌then◌else◌,
}
use da_gis_service.Outcome.{Outcome, ret, raise}
use da_gis_service.Jwt.{JwtCpp, verify, create_token}

-- struct Credentials of http_server/api/json_structs.hpp
pub record Credentials : Type 0 where
  pub username : Bytes
  pub password : Bytes

pub record UserData : Type 0 where
  pub is_admin : Bool
  pub is_user : Bool
  pub first_login : Bool
  pub id : ℕ
  pub name : Bytes
  pub position : Bytes
  pub credentials : Credentials
  pub routes : List Bytes
  pub tokens : List Bytes

-- `UserData {}`
abbrev pub no_user : UserData
no_user = record {
  is_admin = false;
  is_user = true;
  first_login = false;
  id = 0;
  name = [];
  position = [];
  credentials = record { username = []; password = [] };
  routes = [];
  tokens = [];
}

-- The two users of the constructor CUsersData(). The second is built from the first, so it keeps
-- the position.
abbrev pub admin : UserData
admin = record no_user {
  name = bytes "Ivan Ivanovich";
  position = bytes "Developer";
  credentials = record { username = bytes "admin"; password = bytes "123" };
  is_admin = true;
  routes =
      bytes "/api/settings" ∷ bytes "/api/logout" ∷ bytes "/api/info" ∷ bytes "/api/secret" ∷ [];
}

abbrev pub gosha : UserData
gosha = record admin {
  name = bytes "Gosha";
  credentials = record { username = bytes "user"; password = bytes "456" };
  is_admin = false;
  routes = bytes "/api/settings" ∷ bytes "/api/logout" ∷ bytes "/api/info" ∷ [];
}

abbrev pub initial_users : List UserData
initial_users = admin ∷ gosha ∷ []

abbrev pub with_tokens : UserData → List Bytes → UserData
with_tokens user tokens = record user { tokens = tokens }

-- What the loop of AuthenticateUser does once `user` is passed over.
abbrev pub pass_over : UserData → Option Bytes × List UserData → Option Bytes × List UserData
pass_over user (found, users) = (found, user ∷ users)

-- `user.tokens.erase(token_ptr); return`, for the first of a user's tokens that equals `token`;
-- `none` if there is none.
unfoldable pub erase_token : Bytes → List Bytes → Option (List Bytes)
erase_token token [] = none
erase_token token (t ∷ tokens) =
    if eqb t token
    then some tokens
    else elim (erase_token token tokens) [ none ↦ none | some rest ↦ some (t ∷ rest) ]

-- DisproveUser
unfoldable pub disprove_user : Bytes → List UserData → List UserData
disprove_user token [] = []
disprove_user token (user ∷ users) = elim (erase_token token user.tokens) [
  | some tokens ↦ with_tokens user tokens ∷ users
  | none ↦ user ∷ disprove_user token users
]

-- The `find_if` over the tokens of one user: `in.find(token) != npos`.
unfoldable pub holds_token : Bytes → UserData → Bool
holds_token token user = any (contains token) user.tokens

-- GetUserData
unfoldable pub get_user_data : Bytes → List UserData → UserData
get_user_data token [] = no_user
get_user_data token (user ∷ users) =
    if holds_token token user then user else get_user_data token users

-- TokenExist
unfoldable pub token_exist : Bytes → List UserData → Bool
token_exist token [] = false
token_exist token (user ∷ users) = if holds_token token user then true else token_exist token users

-- CheckAccess
unfoldable pub check_access : Bytes → Bytes → List UserData → Bool
check_access token requesting_route users =
    any (λ route. eqb route requesting_route) (get_user_data token users).routes

-- AddUser and DeleteUser only take the mutex.
unfoldable pub add_user : UserData → List UserData → List UserData
add_user user users = users

unfoldable pub delete_user : List UserData → List UserData
delete_user users = users

-- The end of VerifyToken, from the result of Verify.
abbrev pub drop_invalid : Bytes → List UserData → Outcome Bool → Outcome Bool × List UserData
drop_invalid token users (raise e) = (raise e, users)
drop_invalid token users (ret true) = (ret true, users)
drop_invalid token users (ret false) = (ret false, disprove_user token users)

module _ (jwt : JwtCpp) where
  -- AuthenticateUser(username, password, token). `some token`: it returns true with the token
  -- filled in; `none`: it returns false and leaves the token alone. `issued` and `now` are the
  -- readings of the clock in CreateToken.
  unfoldable pub authenticate_user :
      (issued now : ℕ) → Bytes → Bytes → List UserData → Option Bytes × List UserData
  authenticate_user issued now username password [] = (none, [])
  authenticate_user issued now username password (user ∷ users) =
      let rest = authenticate_user issued now username password users in
      let token = create_token jwt issued now username in
      if eqb user.credentials.username username
      then (if eqb user.credentials.password password
          then (some token, with_tokens user (user.tokens ++ token ∷ []) ∷ users)
          else pass_over user rest)
      else pass_over user rest

  -- AuthenticateUser(creds, token)
  unfoldable pub authenticate_credentials :
      (issued now : ℕ) → Credentials → List UserData → Option Bytes × List UserData
  authenticate_credentials issued now creds users =
      authenticate_user issued now creds.username creds.password users

  -- VerifyToken. An exception of Verify leaves the users as they are.
  unfoldable pub verify_token : (now : ℕ) → Bytes → List UserData → Outcome Bool × List UserData
  verify_token now token users =
      if token_exist token users
      then drop_invalid token users (verify jwt now token)
      else (ret false, users)
