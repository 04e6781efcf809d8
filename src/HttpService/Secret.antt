-- ===== src/HttpService/Secret.antt =====
-- Who gets the answer to /api/secret from the server of http_server/httpserver.cpp.
use da_gis_service.Common.{
  ℕ, ◌≡◌, ◌∙◌, ◌⊎◌, inl, inr, ap, sym, refl, Bool, true, some, [], Bytes, bytes, eqb, contains,
  is_prefix, get_elem?, All-get_elem?,
}
use da_gis_service.Jwt.{JwtCpp}
use da_gis_service.Json.{BoostJson, JsonLaws}
use da_gis_service.Users.{UserData}
use da_gis_service.Users.Access.{Session}
use da_gis_service.Api.{
  get, post, Request, ok, Server, Clock, Reply, login_path, handle_api_request,
}
use da_gis_service.Api.Authorized.{reply_status}
use da_gis_service.Api.Handled.{
  HasToken, Handled, login, no_token, unknown, thrown, invalid, no_method, denied, served,
  handle_api_request-Handled,
}
use da_gis_service.Api.Reach.{Reach, secret-is_admin}
use da_gis_service.HttpResponse.{Response, Opened}
use da_gis_service.Http.{is_illegal}
use da_gis_service.Http.Routed.{IsApi}
use da_gis_service.Http.Framed.{response_status}
use da_gis_service.Http.Answers.{handle_request-IsApi}
use da_gis_service.Http.Listener.{Setup}
use da_gis_service.HttpService.{Connection, World, Serving, Was}
use da_gis_service.Http.Connection.Moments.{Moment, IsAnswer, Answered-get_elem?}
use da_gis_service.HttpService.Sound.{Serving-IsSound}

abbrev pub secret : Bytes
secret = bytes "/api/secret"

secret-not_login : ¬ (secret ≡ login_path)
unfolding eqb
secret-not_login e = cc (ap (eqb secret) e)

-- A GET or a POST of /api/secret goes to HandleApiRequest.
secret-IsApi :
    (req : Request) → (req.method ≡ get) ⊎ (req.method ≡ post) → req.target ≡ secret → IsApi req
unfolding is_illegal contains is_prefix eqb
secret-IsApi req (inl gets) there = (rw there refl, inr (gets, rw there refl))
secret-IsApi req (inr posts) there = (rw there refl, inl posts)

-- An answer with 200 other than to a login is one to a request with a token.
Handled-HasToken :
    {jwt : JwtCpp} {js : BoostJson} {clock : Clock} {req : Request} {response : Bytes} {s : Server}
    {r : Reply}
    → Handled jwt js clock req response s r
    → ¬ (req.target ≡ login_path)
    → reply_status r ≡ some ok
    → HasToken req
Handled-HasToken (login l _) elsewhere h = absurd (elsewhere l.1)
Handled-HasToken (no_token _ _ q) elsewhere h = absurd cc
Handled-HasToken (unknown has _ _) elsewhere h = has
Handled-HasToken (thrown has _ _ _ _) elsewhere h = has
Handled-HasToken (invalid has _ _ _) elsewhere h = has
Handled-HasToken (no_method has _ _ _ _) elsewhere h = has
Handled-HasToken (denied has _ _ _ _) elsewhere h = has
Handled-HasToken (served has _ _ _ _ _ _) elsewhere h = has

-- When the request was read, its token was part of a stored one, and the first user with such a token was an
-- administrator.
pub record FromAdmin (m : Moment) : Type 0 where
  pub user : UserData
  pub session : Session m.asked_for.authorization m.before.users user
  pub admin : user.is_admin ≡ true

module _ (beast_version : Bytes) (open_file : Bytes → Opened) (jwt : JwtCpp) (js : BoostJson)
    (laws : JsonLaws js) (doc_root : Bytes) where
  IsAnswer-FromAdmin :
      (m : Moment) (msg : Response)
      → Reach jwt js m.before
      → IsAnswer beast_version open_file jwt js doc_root m msg
      → (m.asked_for.method ≡ get) ⊎ (m.asked_for.method ≡ post)
      → m.asked_for.target ≡ secret
      → msg.status ≡ ok
      → FromAdmin m
  IsAnswer-FromAdmin m msg reached answer method there is_ok =
      let req = m.asked_for in
      let api = secret-IsApi req method there in
      let same =
        (handle_request-IsApi beast_version open_file jwt js doc_root m.clock req m.before laws
          api).0 in
      let answered : reply_status (handle_api_request jwt js m.clock req [] m.before) ≡ some ok =
        sym same ∙ (ap response_status answer ∙ ap some is_ok) in
      let has =
        Handled-HasToken (handle_api_request-Handled jwt js m.clock req [] m.before)
          (λ l. secret-not_login (sym there ∙ l)) answered in
      let (user, session, admin) =
        secret-is_admin jwt js reached m.clock req [] has there answered in
      record { user = user; session = session; admin = admin }

  -- However the handlers of the HTTP server interleave, if a session has answered a GET or a POST of
  -- /api/secret with 200, then at the moment when that request was read, in a state that the server was in on
  -- its way, the token of the request was part of a stored token, and the first user with such a token was an
  -- administrator. Serialised JSON is assumed to have no NUL.
  pub Serving-FromAdmin :
      (need_eof : Response → Bool) {setup : Setup} {w : World}
      → (serving : Serving need_eof beast_version open_file jwt js doc_root setup w)
      → (k i : ℕ) (c : Connection) (m : Moment) (msg : Response)
      → get_elem? w.connections k ≡ some c
      → get_elem? c.asked i ≡ some m
      → get_elem? c.session.written i ≡ some msg
      → (m.asked_for.method ≡ get) ⊎ (m.asked_for.method ≡ post)
      → m.asked_for.target ≡ secret
      → msg.status ≡ ok
      → FromAdmin m × Was need_eof beast_version open_file jwt js doc_root setup serving m.before
  Serving-FromAdmin need_eof {setup} {w} serving k i c m msg kth asked written method there is_ok =
      let sound = Serving-IsSound beast_version open_file jwt js doc_root need_eof setup serving in
      let answered = All-get_elem? _ w.connections k c sound.exchanges kth in
      let passed = All-get_elem? _ w.connections k c sound.passed kth in
      let was = (All-get_elem? _ c.asked i m passed asked).0 in
      let answer =
        Answered-get_elem? beast_version open_file jwt js doc_root c.asked c.session.written i m msg
          answered asked written in
      (IsAnswer-FromAdmin m msg (sound.reached m.before was) answer method there is_ok, was)
