-- ===== src/Http/Framed.antt =====
-- Responses of http_server/httpserver.cpp: their statuses, and whether a client finds their ends.
use da_gis_service.Common.{
  ℕ, ◌≡◌, ◌≢◌, refl, ap, Option, none, some, Bytes, length, c_str, inl, inr, ◌⊎◌,
}
use da_gis_service.Outcome.{Outcome, ret, raise}
use da_gis_service.Api.{Verb, get, head, post, options, other, Request, Status, Server, Reply}
use da_gis_service.Api.Authorized.{reply_status}
use da_gis_service.Api.Replies.{IsSendable}
use da_gis_service.HttpResponse.{
  Response, Payload, nothing, text, file, Opened, opened, no_such_file, failed, head_file, get_file,
  bad_request, not_found, server_error, unauthorized, forbidden, api_response,
}
use da_gis_service.Http.{answer}

abbrev pub response_status : Outcome Response × Server → Option Status
response_status (ret res, _) = some res.status
response_status (raise _, _) = none

-- The declared length is that of the body.
abbrev pub HasLength : ℕ → Payload → Type 0
HasLength n nothing = n ≡ 0
HasLength n (text body) = n ≡ length body
HasLength n (file path size) = n ≡ size

abbrev pub HasItsLength : Outcome Response × Server → Type 0
HasItsLength (raise e, s) = Unit
HasItsLength (ret res, s) = HasLength res.content_length res.body

-- The client finds the end of the response: that to HEAD has no body, and any other declares the length of its
-- body.
abbrev pub IsFramed : Verb → Outcome Response × Server → Type 0
IsFramed v (raise e, s) = Unit
IsFramed head (ret res, s) = res.body ≡ nothing
IsFramed get (ret res, s) = HasLength res.content_length res.body
IsFramed post (ret res, s) = HasLength res.content_length res.body
IsFramed options (ret res, s) = HasLength res.content_length res.body
IsFramed other (ret res, s) = HasLength res.content_length res.body

-- A request for HEAD, with a response of another status than 200.
abbrev pub IsFailedHead : Verb → Outcome Response × Server → Type 0
IsFailedHead v r = (v ≡ head) × (response_status r ≢ some Status.ok)

pub Verb-cases : (v : Verb) → (v ≡ head) ⊎ (v ≢ head)
Verb-cases get = inr (λ e. cc)
Verb-cases head = inl refl
Verb-cases post = inr (λ e. cc)
Verb-cases options = inr (λ e. cc)
Verb-cases other = inr (λ e. cc)

pub HasItsLength-IsFramed :
    (v : Verb) (r : Outcome Response × Server) → v ≢ head → HasItsLength r → IsFramed v r
HasItsLength-IsFramed v (raise e, s) h has = tt
HasItsLength-IsFramed get (ret res, s) h has = has
HasItsLength-IsFramed head (ret res, s) h has = absurd (h refl)
HasItsLength-IsFramed post (ret res, s) h has = has
HasItsLength-IsFramed options (ret res, s) h has = has
HasItsLength-IsFramed other (ret res, s) h has = has

module _ (beast_version : Bytes) (req : Request) where
  api_response-status :
      (status : Status) (body : Bytes)
      → status ≢ Status.created
      → (api_response beast_version req status body).status ≡ status
  unfolding api_response bad_request not_found server_error unauthorized forbidden
  api_response-status Status.created body h = absurd (h refl)
  api_response-status _ body h = refl

  pub answer-status :
      (r : Reply)
      → IsSendable r
      → (response_status (answer beast_version req r) ≡ reply_status r)
        × ((answer beast_version req r).1 ≡ r.1)
  answer-status (raise e, s) h = (refl, refl)
  answer-status (ret (status, body), s) h = (ap some (api_response-status status body h.0), refl)

  api_response-HasItsLength :
      (status : Status) (body : Bytes) (s : Server)
      → (status ≡ Status.ok → c_str body ≡ body)
      → HasItsLength (ret (api_response beast_version req status body), s)
  unfolding api_response bad_request not_found server_error unauthorized forbidden
  api_response-HasItsLength Status.ok body s h = rw (h refl) refl
  api_response-HasItsLength _ body s h = refl

  pub answer-HasItsLength : (r : Reply) → IsSendable r → HasItsLength (answer beast_version req r)
  answer-HasItsLength (raise e, s) h = tt
  answer-HasItsLength (ret (status, body), s) h = api_response-HasItsLength status body s h.1

  pub get_file-HasItsLength :
      (path : Bytes) (o : Opened) (s : Server)
      → HasItsLength (ret (get_file beast_version req path o), s)
  unfolding get_file not_found server_error
  get_file-HasItsLength path (opened size) s = refl
  get_file-HasItsLength path no_such_file s = refl
  get_file-HasItsLength path (failed message) s = refl

  -- The response to HEAD has no body exactly if its status is 200.
  pub head_file-ok :
      (path : Bytes) (o : Opened) (s : Server)
      → (head_file beast_version req path o).body ≡ nothing
      → response_status (ret (head_file beast_version req path o), s) ≡ some Status.ok
  unfolding head_file not_found server_error
  head_file-ok path (opened size) s e = refl
  head_file-ok path no_such_file s e = absurd cc
  head_file-ok path (failed message) s e = absurd cc

  pub head_file-nothing :
      (path : Bytes) (o : Opened) (s : Server)
      → ¬ (response_status (ret (head_file beast_version req path o), s) ≢ some Status.ok)
      → (head_file beast_version req path o).body ≡ nothing
  unfolding head_file not_found server_error
  head_file-nothing path (opened size) s h = refl
  head_file-nothing path no_such_file s h = absurd (h (λ e. cc))
  head_file-nothing path (failed message) s h = absurd (h (λ e. cc))
