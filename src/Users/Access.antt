-- ===== src/Users/Access.antt =====
-- The queries of http_server/users/users_storage.cpp: which user a token leads to, and what CheckAccess
-- and TokenExist grant.
use da_gis_service.Common.{
  ◌≡◌, ◌≢◌, ◌↔◌, ◌∙◌, sym, refl, Bool, true, false, List, [], ◌∷◌, ◌++◌, arith, Bytes, eqb, eqb_iff,
  contains, contains-append, contains→append, any, All, Bool-cases, inl, inr, ap,
}
use da_gis_service.Users.{UserData, no_user, holds_token, get_user_data, token_exist, check_access}

-- `x` stands in `xs`.
abbrev pub Listed {ℓ} : {A : Type ℓ} → A → List A → Type ℓ
Listed {A} x xs = (before : List A) × (after : List A) × (xs ≡ before ++ x ∷ after)

any→Listed {ℓ} :
    {A : Type ℓ} (p : A → Bool) (xs : List A)
    → any p xs ≡ true
    → (x : A) × Listed x xs × (p x ≡ true)
unfolding any
any→Listed p [] h = cc
any→Listed p (x ∷ xs) h = elim (Bool-cases (p x)) [
  | inl now ↦ (x, ([], xs, refl), now)
  | inr later ↦
      let (y, (before, after, e), q) = any→Listed p xs (ground arith) in
      (y, (x ∷ before, after, ap (λ t. x ∷ t) e), q)
]

pub any-append {ℓ} :
    {A : Type ℓ} (p : A → Bool) (before : List A) (x : A) (after : List A)
    → p x ≡ true
    → any p (before ++ x ∷ after) ≡ true
unfolding any
any-append p [] x after h = ground arith
any-append p (y ∷ before) x after h = ground (arith, any-append p before x after h)

pub cons-not-nil {ℓ} :
    {A : Type ℓ} (before : List A) (x : A) (after : List A) → before ++ x ∷ after ≢ []
cons-not-nil [] x after e = cc
cons-not-nil (y ∷ before) x after e = cc

-- A stored token that `token` is part of. The code searches, it does not compare.
pub record PartOfStored (token : Bytes) (user : UserData) : Type 0 where
  pub stored : Bytes
  pub in_list : Listed stored user.tokens
  pub left : Bytes
  pub right : Bytes
  pub part : stored ≡ left ++ (token ++ right)

-- `user` is the first whose stored tokens have `token` as a part.
pub record Session (token : Bytes) (users : List UserData) (user : UserData) : Type 0 where
  pub earlier : List UserData
  pub later : List UserData
  pub found : users ≡ earlier ++ user ∷ later
  pub holder : PartOfStored token user
  pub first : All (λ u. ¬ PartOfStored token u) earlier

holds_token_iff :
    (token : Bytes) (user : UserData) → (holds_token token user ≡ true) ↔ PartOfStored token user
unfolding holds_token
holds_token_iff token user = (to, from)
  where
    to : any (contains token) user.tokens ≡ true → PartOfStored token user
    to h =
        let (stored, at, has) = any→Listed (contains token) user.tokens h in
        let (left, right, part) = contains→append token stored has in
        record { stored = stored; in_list = at; left = left; right = right; part = part }

    from : PartOfStored token user → any (contains token) user.tokens ≡ true
    from s = rw s.in_list.2 (
        any-append (contains token) s.in_list.0 s.stored s.in_list.1
          (rw s.part (contains-append s.left token s.right)))

not_holds_token :
    (token : Bytes) (user : UserData) → holds_token token user ≡ false → ¬ PartOfStored token user
not_holds_token token user h s = cc (h, (holds_token_iff token user).1 s)

Session-cons :
    (token : Bytes) (u : UserData) {users : List UserData} {user : UserData}
    → holds_token token u ≡ false
    → Session token users user
    → Session token (u ∷ users) user
Session-cons token u h s = record {
  earlier = u ∷ s.earlier;
  later = s.later;
  found = ap (λ us. u ∷ us) s.found;
  holder = s.holder;
  first = (not_holds_token token u h, s.first);
}

Session-here :
    (token : Bytes) (user : UserData) (users : List UserData)
    → holds_token token user ≡ true
    → Session token (user ∷ users) user
Session-here token user users h = record {
  earlier = [];
  later = users;
  found = refl;
  holder = (holds_token_iff token user).0 h;
  first = tt;
}

pub token_exist→Session :
    (token : Bytes) (users : List UserData)
    → token_exist token users ≡ true
    → Session token users (get_user_data token users)
unfolding token_exist get_user_data
token_exist→Session token [] h = cc
token_exist→Session token (user ∷ users) h = elim (Bool-cases (holds_token token user)) [
  | inl here ↦ rw (here, get_user_data) (Session-here token user users here)
  | inr later ↦
      rw (later, get_user_data)
        (Session-cons token user later (token_exist→Session token users (ground arith)))
]

get_user_data-append :
    (token : Bytes) (earlier : List UserData) (user : UserData) (later : List UserData)
    → PartOfStored token user
    → All (λ u. ¬ PartOfStored token u) earlier
    → (get_user_data token (earlier ++ user ∷ later) ≡ user)
      × (token_exist token (earlier ++ user ∷ later) ≡ true)
unfolding get_user_data token_exist
get_user_data-append token [] user later p h = ground (arith, (holds_token_iff token user).1 p)
get_user_data-append token (u ∷ earlier) user later p (h, hs) =
    elim (Bool-cases (holds_token token u)) [
      | inl holds ↦ absurd (h ((holds_token_iff token u).0 holds))
      | inr other ↦ ground (arith, get_user_data-append token earlier user later p hs)
    ]

-- GetUserData returns the first user with a stored token that has the given one as a part.
pub Session-get_user_data :
    (token : Bytes) (users : List UserData) (user : UserData)
    → Session token users user
    → (get_user_data token users ≡ user) × (token_exist token users ≡ true)
Session-get_user_data token users user s =
    rw s.found (get_user_data-append token s.earlier user s.later s.holder s.first)

token_exist-false :
    (token : Bytes) (users : List UserData)
    → token_exist token users ≡ false
    → get_user_data token users ≡ no_user
unfolding token_exist get_user_data
token_exist-false token [] h = refl
token_exist-false token (user ∷ users) h = ground (arith, token_exist-false token users)

check_access→Listed :
    (token route : Bytes) (users : List UserData)
    → check_access token route users ≡ true
    → Listed route (get_user_data token users).routes
unfolding check_access
check_access→Listed token route users h =
    let (r, at, same) = any→Listed (λ r. eqb r route) (get_user_data token users).routes h in
    rw (← (eqb_iff r route).0 same) at

Listed→check_access :
    (token route : Bytes) (users : List UserData)
    → Listed route (get_user_data token users).routes
    → check_access token route users ≡ true
unfolding check_access
Listed→check_access token route users (before, after, e) =
    rw e (any-append (λ r. eqb r route) before route after ((eqb_iff route route).1 refl))

-- CheckAccess grants a route exactly when it is on the list of the first user with a stored token
-- that has the given one as a part; with no such user it grants nothing.
pub check_access_iff :
    (token route : Bytes) (users : List UserData)
    → (check_access token route users ≡ true)
      ↔ ((user : UserData) × Session token users user × Listed route user.routes)
check_access_iff token route users = (to, from)
  where
    to :
        check_access token route users ≡ true
        → (user : UserData) × Session token users user × Listed route user.routes
    to h = elim (Bool-cases (token_exist token users)) [
      | inl known ↦ (
        get_user_data token users,
        token_exist→Session token users known,
        check_access→Listed token route users h,
      )
      | inr unknown ↦
          let (before, after, e) = check_access→Listed token route users h in
          let none_listed : get_user_data token users ≡ no_user =
            token_exist-false token users unknown in
          absurd
            (cons-not-nil before route after (sym e ∙ ap (λ (u : UserData). u.routes) none_listed))
    ]

    from :
        (user : UserData) × Session token users user × Listed route user.routes
        → check_access token route users ≡ true
    from (user, s, at) =
        Listed→check_access token route users (rw (Session-get_user_data token users user s).0 at)
