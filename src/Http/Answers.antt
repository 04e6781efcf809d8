-- ===== src/Http/Answers.antt =====
-- Answers of handle_request of http_server/httpserver.cpp: the length that they declare, the state that they
-- leave, and how the API's status becomes theirs.
use da_gis_service.Common.{◌≡◌, ◌↔◌, refl, true, false, [], arith, Bytes, inl, inr, ◌⊎◌}
use da_gis_service.Outcome.{Outcome, ret}
use da_gis_service.Jwt.{JwtCpp}
use da_gis_service.Json.{BoostJson, JsonLaws}
use da_gis_service.Api.{Verb, Request, Server, Clock, Reply, handle_api_request}
use da_gis_service.Api.Authorized.{reply_status}
use da_gis_service.Api.Replies.{IsSendable, handle_api_request-IsSendable}
use da_gis_service.HttpResponse.{Response, Opened, preflight, bad_request}
use da_gis_service.Http.{is_known, is_illegal, handle_request}
use da_gis_service.Http.Routed.{
  IsApi, IsPreflight, Routed, refused, to_api, head_of, file_of, preflight_of,
  handle_request-Routed,
}
use da_gis_service.Http.Framed.{
  response_status, IsFramed, IsFailedHead, Verb-cases, HasItsLength-IsFramed, answer-status,
  answer-HasItsLength, get_file-HasItsLength, head_file-ok, head_file-nothing,
}

module _ (beast_version : Bytes) (open_file : Bytes → Opened) (jwt : JwtCpp) (js : BoostJson)
    (root : Bytes) (clock : Clock) (req : Request) (s : Server) where
  abbrev Here : Outcome Response × Server → Type 0
  Here = Routed beast_version open_file jwt js root clock req s

  abbrev replied : Reply
  replied = handle_api_request jwt js clock req [] s

  known_method : {v : Verb} → req.method ≡ v → is_known v ≡ true → is_known req.method ≡ true
  known_method e h = rw e h

  -- A request that is refused is neither an API request nor an OPTIONS to answer.
  refused-IsApi : (is_known req.method ≡ false) ⊎ (is_illegal req.target ≡ true) → ¬ IsApi req
  refused-IsApi (inl unknown) (legal, inl e) = cc (unknown, known_method e refl)
  refused-IsApi (inl unknown) (legal, inr (e, _)) = cc (unknown, known_method e refl)
  refused-IsApi (inr illegal) (legal, _) = cc (illegal, legal)

  refused-IsPreflight :
      (is_known req.method ≡ false) ⊎ (is_illegal req.target ≡ true) → ¬ IsPreflight req
  refused-IsPreflight (inl unknown) (legal, e) = cc (unknown, known_method e refl)
  refused-IsPreflight (inr illegal) (legal, e) = cc (illegal, legal)

  Routed-IsApi :
      (r : Outcome Response × Server)
      → IsSendable replied
      → IsApi req
      → Here r
      → (response_status r ≡ reply_status replied) × (r.1 ≡ replied.1)
  Routed-IsApi r can api (refused why _ _) = absurd (refused-IsApi why api)
  Routed-IsApi r can api (to_api _ q) = rw q (answer-status beast_version req replied can)
  Routed-IsApi r can (_, inl e) (head_of _ e' _) = cc (e, e')
  Routed-IsApi r can (_, inr (e, _)) (head_of _ e' _) = cc (e, e')
  Routed-IsApi r can (_, inl e) (file_of _ e' _ _) = cc (e, e')
  Routed-IsApi r can (_, inr (_, has)) (file_of _ _ hasnt _) = absurd (hasnt has)
  Routed-IsApi r can (_, inl e) (preflight_of (_, e') _) = cc (e, e')
  Routed-IsApi r can (_, inr (e, _)) (preflight_of (_, e') _) = cc (e, e')

  Routed-state :
      (r : Outcome Response × Server) → ¬ IsApi req → Here r → (res : Response) × (r ≡ (ret res, s))
  Routed-state r h (refused _ _ q) = (_, q)
  Routed-state r h (to_api api _) = absurd (h api)
  Routed-state r h (head_of _ _ q) = (_, q)
  Routed-state r h (file_of _ _ _ q) = (_, q)
  Routed-state r h (preflight_of _ q) = (_, q)

  Routed-IsFramed :
      (r : Outcome Response × Server)
      → IsSendable replied
      → ¬ IsPreflight req
      → ¬ IsFailedHead req.method r
      → Here r
      → IsFramed req.method r
  unfolding bad_request
  Routed-IsFramed r can h good (refused _ _ q) = elim (Verb-cases req.method) [
    | inl is_head ↦ absurd (good (is_head, rw q (λ e. cc)))
    | inr not_head ↦ HasItsLength-IsFramed req.method r not_head (rw q refl)
  ]
  Routed-IsFramed r can h good (to_api (_, inl e) q) =
      HasItsLength-IsFramed req.method r (λ is_head. cc (e, is_head))
        (rw q (answer-HasItsLength beast_version req replied can))
  Routed-IsFramed r can h good (to_api (_, inr (e, _)) q) =
      HasItsLength-IsFramed req.method r (λ is_head. cc (e, is_head))
        (rw q (answer-HasItsLength beast_version req replied can))
  Routed-IsFramed r can h good (head_of _ e q) =
      rw (e, q) (head_file-nothing beast_version req _ _ s (λ bad. good (e, rw q bad)))
  Routed-IsFramed r can h good (file_of _ e _ q) =
      HasItsLength-IsFramed req.method r (λ is_head. cc (e, is_head))
        (rw q (get_file-HasItsLength beast_version req _ _ s))
  Routed-IsFramed r can h good (preflight_of p _) = absurd (h p)

  Routed-IsPreflight :
      (r : Outcome Response × Server) → IsPreflight req → Here r → ¬ IsFramed req.method r
  unfolding preflight
  Routed-IsPreflight r p (refused why _ _) f = absurd (refused-IsPreflight why p)
  Routed-IsPreflight r (_, e) (to_api (_, inl e') _) f = cc (e, e')
  Routed-IsPreflight r (_, e) (to_api (_, inr (e', _)) _) f = cc (e, e')
  Routed-IsPreflight r (_, e) (head_of _ e' _) f = cc (e, e')
  Routed-IsPreflight r (_, e) (file_of _ e' _ _) f = cc (e, e')
  Routed-IsPreflight r (_, e) (preflight_of _ q) f =
      let g = rw (e, q) at f in absurd (omega (arith, g))

  Routed-IsFailedHead :
      (r : Outcome Response × Server) → IsFailedHead req.method r → Here r → ¬ IsFramed req.method r
  unfolding bad_request
  Routed-IsFailedHead r (e, bad) (refused _ _ q) f = let g = rw (e, q) at f in absurd cc
  Routed-IsFailedHead r (e, bad) (to_api (_, inl e') _) f = cc (e, e')
  Routed-IsFailedHead r (e, bad) (to_api (_, inr (e', _)) _) f = cc (e, e')
  Routed-IsFailedHead r (e, bad) (head_of _ _ q) f =
      let g = rw (e, q) at f in absurd (bad (rw q (head_file-ok beast_version req _ _ s g)))
  Routed-IsFailedHead r (e, bad) (file_of _ e' _ _) f = cc (e, e')
  Routed-IsFailedHead r (e, bad) (preflight_of (_, e') _) f = cc (e, e')

module _ (beast_version : Bytes) (open_file : Bytes → Opened) (jwt : JwtCpp) (js : BoostJson)
    (root : Bytes) (clock : Clock) (req : Request) (s : Server) where
  abbrev handled : Outcome Response × Server
  handled = handle_request beast_version open_file jwt js root clock req s

  routed : Routed beast_version open_file jwt js root clock req s handled
  routed = handle_request-Routed beast_version open_file jwt js root clock req s

  sendable : JsonLaws js → IsSendable (handle_api_request jwt js clock req [] s)
  sendable laws = handle_api_request-IsSendable js laws jwt clock req s

  -- An API request is answered with the status that HandleApiRequest gives it, leaves the state that
  -- HandleApiRequest leaves, and throws if HandleApiRequest does.
  pub handle_request-IsApi :
      JsonLaws js
      → IsApi req
      → (response_status handled ≡ reply_status (handle_api_request jwt js clock req [] s))
        × (handled.1 ≡ (handle_api_request jwt js clock req [] s).1)
  handle_request-IsApi laws api =
      Routed-IsApi beast_version open_file jwt js root clock req s handled (sendable laws) api
        routed

  -- Any other request is answered without an exception, and leaves users and context alone.
  pub handle_request-state : ¬ IsApi req → (res : Response) × (handled ≡ (ret res, s))
  handle_request-state h =
      Routed-state beast_version open_file jwt js root clock req s handled h routed

  -- The client finds the end of a response (that to HEAD has no body, any other declares the length of its
  -- body), but for the answer to an accepted OPTIONS request, which declares 0 and has a body of two bytes, and
  -- for each answer to HEAD with another status than 200, which has a body.
  pub handle_request-IsFramed_iff :
      JsonLaws js
      → IsFramed req.method handled ↔ ((¬ IsPreflight req) × (¬ IsFailedHead req.method handled))
  handle_request-IsFramed_iff laws = (
    λ f. (
      λ p. Routed-IsPreflight beast_version open_file jwt js root clock req s handled p routed f,
      λ bad.
          Routed-IsFailedHead beast_version open_file jwt js root clock req s handled bad routed f,
    ),
    λ h.
        Routed-IsFramed beast_version open_file jwt js root clock req s handled (sendable laws) h.0
          h.1 routed,
  )
