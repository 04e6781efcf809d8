-- ===== src/Users/Login.antt =====
-- AuthenticateUser of http_server/users/users_storage.cpp against what a login promises.
use da_gis_service.Common.{
  ℕ, ◌≡◌, refl, Option, none, some, List, [], ◌∷◌, ◌++◌, Bytes, eqb, eqb_iff, All, Bool-cases, inl,
  inr, if◌then◌else◌,
}
use da_gis_service.Jwt.{JwtCpp, create_token}
use da_gis_service.Users.{UserData, with_tokens, pass_over, authenticate_user}

abbrev pub HasCredentials : (username password : Bytes) → UserData → Type 0
HasCredentials username password user =
    (user.credentials.username ≡ username) × (user.credentials.password ≡ password)

-- `after` is `before` with `token` added to the tokens of the first user who has the credentials.
pub record Granted (username password token : Bytes) (before after : List UserData) : Type 0 where
  pub earlier : List UserData
  pub user : UserData
  pub later : List UserData
  pub found : before ≡ earlier ++ user ∷ later
  pub added : after ≡ earlier ++ with_tokens user (user.tokens ++ token ∷ []) ∷ later
  pub owner : HasCredentials username password user
  pub first : All (λ u. ¬ HasCredentials username password u) earlier

-- A login is granted, or nobody has the credentials and nothing changes.
abbrev pub LoginPost :
    (username password token : Bytes) (before : List UserData)
    → Option Bytes × List UserData
    → Type 0
LoginPost username password token before (some t, after) =
    (t ≡ token) × Granted username password token before after
LoginPost username password token before (none, after) =
    (after ≡ before) × All (λ u. ¬ HasCredentials username password u) before

-- The first element with a property is one, however the list is split.
pub first_unique :
    {A : Type 0} (P : A → Type 0) (xs ys xs' ys' : List A) (x x' : A)
    → xs ++ x ∷ ys ≡ xs' ++ x' ∷ ys'
    → P x
    → P x'
    → All (λ a. ¬ P a) xs
    → All (λ a. ¬ P a) xs'
    → x ≡ x'
first_unique P [] ys [] ys' x x' e p p' h h' = cc
first_unique P [] ys (z ∷ xs') ys' x x' e p p' h (n, h') =
    let same : x ≡ z = cc in absurd (n (rw (← same) p))
first_unique P (z ∷ xs) ys [] ys' x x' e p p' (n, h) h' =
    let same : x' ≡ z = cc in absurd (n (rw (← same) p'))
first_unique P (z ∷ xs) ys (w ∷ xs') ys' x x' e p p' (_, h) (_, h') =
    let tails : xs ++ x ∷ ys ≡ xs' ++ x' ∷ ys' = cc in
    first_unique P xs ys xs' ys' x x' tails p p' h h'

module _ (username password token : Bytes) where
  abbrev Other : UserData → Type 0
  Other user = ¬ HasCredentials username password user

  Granted-cons :
      {before after : List UserData} (user : UserData)
      → Other user
      → Granted username password token before after
      → Granted username password token (user ∷ before) (user ∷ after)
  Granted-cons user other g = record {
    earlier = user ∷ g.earlier;
    user = g.user;
    later = g.later;
    found = cc g.found;
    added = cc g.added;
    owner = g.owner;
    first = (other, g.first);
  }

  LoginPost-pass_over :
      (user : UserData) (before : List UserData) (r : Option Bytes × List UserData)
      → Other user
      → LoginPost username password token before r
      → LoginPost username password token (user ∷ before) (pass_over user r)
  LoginPost-pass_over user before (some t, after) other (e, g) = (e, Granted-cons user other g)
  LoginPost-pass_over user before (none, after) other (e, a) = (cc e, (other, a))

  -- The two tests of the loop, and what each branch gives.
  LoginPost-tests :
      (user : UserData) (before : List UserData) (r : Option Bytes × List UserData)
      → LoginPost username password token before r
      → LoginPost username password token (user ∷ before) (
          if eqb user.credentials.username username
          then (if eqb user.credentials.password password
              then (some token, with_tokens user (user.tokens ++ token ∷ []) ∷ before)
              else pass_over user r)
          else pass_over user r)
  LoginPost-tests user before r h = elim (Bool-cases (eqb user.credentials.username username)) [
    | inl named ↦ elim (Bool-cases (eqb user.credentials.password password)) [
      | inl known ↦
          rw (named, known)
            (
              refl,
              record {
                earlier = [];
                user = user;
                later = before;
                found = refl;
                added = refl;
                owner = ((eqb_iff _ _).0 named, (eqb_iff _ _).0 known);
                first = tt;
              },
            )
      | inr wrong ↦
          rw (named, wrong)
            (LoginPost-pass_over user before r
              (λ own. cc (wrong, (eqb_iff user.credentials.password password).1 own.1)) h)
    ]
    | inr unnamed ↦ rw unnamed (
        LoginPost-pass_over user before r
          (λ own. cc (unnamed, (eqb_iff user.credentials.username username).1 own.0)) h)
  ]

module _ (jwt : JwtCpp) (issued now : ℕ) (username password : Bytes) where
  -- A login succeeds exactly when a user has the name and the password; the first such user gets a
  -- fresh token for that name behind the tokens held, and all else stays as it was.
  pub authenticate_user-LoginPost :
      (users : List UserData)
      → LoginPost username password
          (create_token jwt issued now username)
          users
          (authenticate_user jwt issued now username password users)
  unfolding authenticate_user
  authenticate_user-LoginPost [] = (refl, tt)
  authenticate_user-LoginPost (user ∷ users) =
      LoginPost-tests username password (create_token jwt issued now username) user users
        (authenticate_user jwt issued now username password users)
        (authenticate_user-LoginPost users)
