-- ===== src/Users/Issued.antt =====
-- The tokens that the users of http_server/users/users_storage.cpp hold: each is one that CreateToken
-- made for the user's own name.
use da_gis_service.Common.{
  ℕ, ◌≤◌, ◌<◌, ◌≡◌, refl, Bool, true, false, Option, none, some, List, [], ◌∷◌, arith, Bytes, eqb,
  All, All-append, All-middle, All-replace, Bool-cases, Option-cases, inl, inr, if◌then◌else◌, ◌+◌,
}
use da_gis_service.Outcome.{Outcome, ret, raise}
use da_gis_service.Jwt.{JwtCpp, JwtLaws, create_token, verify}
use da_gis_service.Jwt.Lifetime.{verify-create_token, verify-expired}
use da_gis_service.Users.{
  UserData, erase_token, disprove_user, authenticate_user, drop_invalid, verify_token, token_exist,
  initial_users,
}
use da_gis_service.Users.Login.{LoginPost, authenticate_user-LoginPost}

drop_invalid-ret :
    (token : Bytes) (users : List UserData) (valid : Bool)
    → drop_invalid token users (ret valid)
      ≡ (if valid then (ret true, users) else (ret false, disprove_user token users))
drop_invalid-ret token users true = refl
drop_invalid-ret token users false = refl

module _ (jwt : JwtCpp) where
  -- `token` was issued for `username`, at some time.
  pub record IsIssued (username token : Bytes) : Type 0 where
    pub issued : ℕ
    pub now : ℕ
    pub made : token ≡ create_token jwt issued now username

  abbrev pub HasIssued : UserData → Type 0
  HasIssued user = All (IsIssued user.credentials.username) user.tokens

  abbrev pub AllIssued : List UserData → Type 0
  AllIssued = All HasIssued

  pub AllIssued-initial_users : AllIssued initial_users
  AllIssued-initial_users = (tt, (tt, tt))

  erase_token-All :
      (P : Bytes → Type 0) (token : Bytes) (ts rest : List Bytes)
      → erase_token token ts ≡ some rest
      → All P ts
      → All P rest
  unfolding erase_token
  erase_token-All P token [] rest e h = cc
  erase_token-All P token (t ∷ ts) rest e (p, h) = elim (Bool-cases (eqb t token)) [
    | inl same ↦ let r : ts ≡ rest = ground arith in rw (← r) h
    | inr differ ↦ elim (Option-cases (erase_token token ts)) [
      | inl missing ↦ absurd (ground arith)
      | inr (r, found) ↦
          let same : t ∷ r ≡ rest = ground arith in
          rw (← same) (p, erase_token-All P token ts r found h)
    ]
  ]

  pub disprove_user-AllIssued :
      (token : Bytes) (users : List UserData)
      → AllIssued users
      → AllIssued (disprove_user token users)
  unfolding disprove_user
  disprove_user-AllIssued token [] h = tt
  disprove_user-AllIssued token (user ∷ users) (p, h) =
      elim (Option-cases (erase_token token user.tokens)) [
        | inl missing ↦ rw (missing, disprove_user) (p, disprove_user-AllIssued token users h)
        | inr (rest, found) ↦
            rw (found, disprove_user)
              (
                erase_token-All (IsIssued user.credentials.username) token user.tokens rest found p,
                h,
              )
      ]

  LoginPost-AllIssued :
      (issued now : ℕ) (username password : Bytes) (users : List UserData)
      (r : Option Bytes × List UserData)
      → LoginPost username password (create_token jwt issued now username) users r
      → AllIssued users
      → AllIssued r.1
  LoginPost-AllIssued issued now username password users (none, after) (e, _) h = rw e h
  LoginPost-AllIssued issued now username password users (some t, after) (e, g) h =
      let before = rw g.found at h in
      let fresh : IsIssued g.user.credentials.username (create_token jwt issued now username) =
        record { issued = issued; now = now; made = rw g.owner.0 refl } in
      rw g.added (
        All-replace HasIssued g.earlier g.user _ g.later
          (All-append (IsIssued g.user.credentials.username) g.user.tokens _
            (All-middle HasIssued g.earlier g.user g.later before) (fresh, tt))
          before)

  pub authenticate_user-AllIssued :
      (issued now : ℕ) (username password : Bytes) (users : List UserData)
      → AllIssued users
      → AllIssued (authenticate_user jwt issued now username password users).1
  authenticate_user-AllIssued issued now username password users h =
      LoginPost-AllIssued issued now username password users _
        (authenticate_user-LoginPost jwt issued now username password users) h

  drop_invalid-AllIssued :
      (token : Bytes) (users : List UserData) (r : Outcome Bool)
      → AllIssued users
      → AllIssued (drop_invalid token users r).1
  drop_invalid-AllIssued token users (raise e) h = h
  drop_invalid-AllIssued token users (ret true) h = h
  drop_invalid-AllIssued token users (ret false) h = disprove_user-AllIssued token users h

  pub verify_token-AllIssued :
      (now : ℕ) (token : Bytes) (users : List UserData)
      → AllIssued users
      → AllIssued (verify_token jwt now token users).1
  unfolding verify_token
  verify_token-AllIssued now token users h = elim (Bool-cases (token_exist token users)) [
    | inl known ↦ rw (known, verify_token) (drop_invalid-AllIssued token users _ h)
    | inr unknown ↦ rw (unknown, verify_token) h
  ]

  module _ (laws : JwtLaws jwt) where
    -- A token that a user holds never makes VerifyToken throw. It is accepted within its lifetime, and
    -- after it is taken away from its holder.
    pub verify_token-IsIssued :
        (at : ℕ) (username token : Bytes) (users : List UserData)
        → (i : IsIssued username token) → token_exist token users ≡ true
        → (i.issued ≤ at → at < i.now + 60 → verify_token jwt at token users ≡ (ret true, users))
          × (i.now + 60 < at
              → verify_token jwt at token users ≡ (ret false, disprove_user token users))
    unfolding verify_token
    verify_token-IsIssued at username token users i known = (
      λ from until.
          let w : verify jwt at token ≡ ret true =
            rw i.made (verify-create_token jwt laws i.issued i.now at username from until) in
          rw (known, verify_token) (rw w refl),
      λ late.
          let w : verify jwt at token ≡ ret false =
            rw i.made (verify-expired jwt laws i.issued i.now at username late) in
          rw (known, verify_token) (rw w refl),
    )
