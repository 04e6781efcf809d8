-- ===== src/Http/Tests.antt =====
-- Runs of http_server/httpserver.cpp, and the theorems about it at concrete requests.
use da_gis_service.Common.{
  ◌≡◌, ◌↔◌, refl, true, some, [], arith, Bytes, bytes, eqb, contains, is_prefix, c_str,
  if◌then◌else◌, inl, inr,
}
use da_gis_service.Outcome.{Outcome}
use da_gis_service.Api.{
  Verb, get, head, post, options, other, Request, Status, Server, initial_server, Clock,
  handle_api_request,
}
use da_gis_service.Api.Authorized.{reply_status}
use da_gis_service.HttpResponse.{
  Response, Opened, opened, no_such_file, extension, iequals, mime_of, mime_type, head_file,
  get_file, preflight, bad_request, not_found, server_error, unauthorized, forbidden, api_response,
}
use da_gis_service.Http.{
  ends_in_slash, drop_last, path_cat, is_illegal, file_path, dispatch, handle_request,
}
use da_gis_service.Http.Files.{IsUnder, handle_request-IsUnder}
use da_gis_service.Http.Routed.{IsApi, IsPreflight}
use da_gis_service.Http.Framed.{response_status, IsFramed, IsFailedHead}
use da_gis_service.Http.Answers.{handle_request-IsApi, handle_request-IsFramed_iff}
use da_gis_service.Samples.{sample_jwt, sample_json, sample_json_laws}

code : Unit {0}
unfolding handle_request dispatch file_path path_cat ends_in_slash drop_last is_illegal mime_type
    mime_of iequals extension head_file get_file preflight bad_request not_found server_error
    unauthorized forbidden api_response handle_api_request eqb contains is_prefix c_str
code = tt

-- One page, in the root of the documents.
unfoldable pub disk : Bytes → Opened
disk path = if eqb path (bytes "/srv/index.html") then opened 512 else no_such_file

-- The same page beside files elsewhere.
wide_disk : Bytes → Opened
wide_disk path =
    if eqb path (bytes "/srv/index.html")
    then opened 512
    else if is_prefix (bytes "/srv") path
    then no_such_file
    else opened 7

abbrev pub root : Bytes
root = bytes "/srv/"

abbrev pub noon : Clock
noon = record { issued = 0; now = 0; at = 0 }

abbrev pub ask : Verb → Bytes → Request
ask method target = record {
  method = method;
  target = target;
  version = 11;
  keep_alive = true;
  authorization = [];
  control_request_headers = [];
  control_request_method = bytes "GET";
  body = [];
}

abbrev serve : Request → Outcome Response × Server
serve req =
    handle_request (bytes "Boost.Beast") disk sample_jwt sample_json root noon req initial_server

http_run :
    (response_status (serve (ask get (bytes "/"))) ≡ some Status.ok)
    × (response_status (serve (ask head (bytes "/index.html"))) ≡ some Status.ok)
    × (response_status (serve (ask get (bytes "/none"))) ≡ some Status.not_found)
    × (response_status (serve (ask get (bytes "/../etc"))) ≡ some Status.bad_request)
    × (response_status (serve (ask other (bytes "/"))) ≡ some Status.bad_request)
    × (response_status (serve (ask options (bytes "/"))) ≡ some Status.created)
    × (response_status (serve (ask get (bytes "/api/info"))) ≡ some Status.unauthorized)
unfolding code disk
http_run = (refl, refl, refl, refl, refl, refl, refl)

mime_run :
    (mime_type (bytes "/a.b/logo.SVG") ≡ bytes "image/svg+xml")
    × (mime_type (bytes "/a/readme") ≡ bytes "application/text")
unfolding code
mime_run = (refl, refl)

abbrev api_request : Request
api_request = ask post (bytes "/api/login")

login-IsApi : IsApi api_request
unfolding code
login-IsApi = (refl, inl refl)

handle_request-IsApi_example :
    (response_status (serve api_request)
      ≡ reply_status (handle_api_request sample_jwt sample_json noon api_request [] initial_server))
    × ((serve api_request).1
        ≡ (handle_api_request sample_jwt sample_json noon api_request [] initial_server).1)
handle_request-IsApi_example =
    handle_request-IsApi (bytes "Boost.Beast") disk sample_jwt sample_json root noon api_request
      initial_server sample_json_laws login-IsApi

page_not-IsApi : ¬ IsApi (ask get (bytes "/"))
unfolding code
page_not-IsApi (legal, inl p) = cc p
page_not-IsApi (legal, inr (p, q)) = cc q

handle_request-IsFramed_iff_example : IsFramed options (serve (ask options (bytes "/"))) ↔ (
    (¬ IsPreflight (ask options (bytes "/")))
    × (¬ IsFailedHead options (serve (ask options (bytes "/")))))
handle_request-IsFramed_iff_example =
    handle_request-IsFramed_iff (bytes "Boost.Beast") disk sample_jwt sample_json root noon
      (ask options (bytes "/")) initial_server sample_json_laws

is_prefix_under : (path : Bytes) → IsUnder root path → is_prefix (bytes "/srv") path ≡ true
unfolding is_prefix ends_in_slash drop_last
is_prefix_under path u = rw u.split refl

disks_agree : (path : Bytes) → IsUnder root path → disk path ≡ wide_disk path
unfolding disk wide_disk
disks_agree path u = ground (arith, is_prefix_under path u)

root_no_nul : c_str root ≡ root
unfolding c_str
root_no_nul = refl

handle_request-IsUnder_example :
    handle_request
      (bytes "Boost.Beast")
      disk
      sample_jwt
      sample_json
      root
      noon
      (ask get (bytes "/"))
      initial_server
    ≡ handle_request
        (bytes "Boost.Beast")
        wide_disk
        sample_jwt
        sample_json
        root
        noon
        (ask get (bytes "/"))
        initial_server
handle_request-IsUnder_example =
    handle_request-IsUnder (bytes "Boost.Beast") sample_jwt sample_json disk wide_disk root
      root_no_nul disks_agree noon (ask get (bytes "/")) initial_server
