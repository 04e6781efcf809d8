-- ===== src/Http/Connection/Tests.antt =====
-- Connections of http_server/httpserver.cpp at concrete requests.
use da_gis_service.Common.{
  ◌≡◌, refl, Bool, false, not, none, List, [], ◌∷◌, bytes, eqb, contains, is_prefix, c_str,
}
use da_gis_service.Api.{get, initial_server, Request}
use da_gis_service.HttpResponse.{
  Response, opened, extension, iequals, mime_of, mime_type, get_file, not_found,
}
use da_gis_service.Http.{
  ends_in_slash, drop_last, path_cat, is_illegal, file_path, dispatch, handle_request,
}
use da_gis_service.Http.Tests.{root, noon, ask, disk}
use da_gis_service.Http.Connection.{
  HttpSession, request, end_of_stream, fresh, do_read, do_close, send_lambda, send_answer, on_read,
  on_write,
}
use da_gis_service.Http.Connection.Moments.{requests, Answered}
use da_gis_service.Http.Connection.Ordered.{
  Run, begin, reads, writes, moments_of, WellFormed, Run-Answered, Run-WellFormed,
}
use da_gis_service.Http.Connection.Served.{Serves, IsServed, Serves-IsServed}
use da_gis_service.Samples.{sample_jwt, sample_json}

code : Unit {0}
unfolding on_read on_write send_answer send_lambda do_read do_close handle_request dispatch
    file_path path_cat ends_in_slash drop_last is_illegal mime_type mime_of iequals extension
    get_file not_found eqb contains is_prefix c_str disk
code = tt

-- http::message::need_eof of a response with a length.
abbrev closes : Response → Bool
closes msg = not msg.keep_alive

abbrev page : Request
page = ask get (bytes "/")

abbrev missing_page : Request
missing_page = ask get (bytes "/none")

-- What handle_request makes of the two.
abbrev page_response : Response
page_response = get_file (bytes "Boost.Beast") page (bytes "/srv/index.html") (opened 512)

abbrev missing_response : Response
missing_response = not_found (bytes "Boost.Beast") missing_page

abbrev first_sent : HttpSession
first_sent = send_lambda closes page_response (do_read fresh)

abbrev second_sent : HttpSession
second_sent = send_lambda closes missing_response (on_write false none first_sent)

abbrev Here : List Request → HttpSession → Type 0
Here reqs c =
    Run closes (bytes "Boost.Beast") disk sample_jwt sample_json root reqs c initial_server

two_requests : Here (page ∷ missing_page ∷ []) second_sent
unfolding code
two_requests =
    reads (writes (reads (begin initial_server) refl (request noon page) refl) false refl none) refl
      (request noon missing_page) refl

hung_up : Here (page ∷ missing_page ∷ []) (do_close (on_write false none second_sent))
unfolding code
hung_up = reads (writes two_requests false refl none) refl end_of_stream refl

Run-Answered_example :
    Answered
      (bytes "Boost.Beast")
      disk
      sample_jwt
      sample_json
      root
      (moments_of closes (bytes "Boost.Beast") disk sample_jwt sample_json root two_requests)
      second_sent.written
    × (requests
          (moments_of closes (bytes "Boost.Beast") disk sample_jwt sample_json root two_requests)
        ≡ page ∷ missing_page ∷ [])
Run-Answered_example =
    Run-Answered closes (bytes "Boost.Beast") disk sample_jwt sample_json root two_requests

Run-WellFormed_example :
    WellFormed closes
      (bytes "Boost.Beast")
      disk
      sample_jwt
      sample_json
      root
      (do_close (on_write false none second_sent))
Run-WellFormed_example =
    Run-WellFormed closes (bytes "Boost.Beast") disk sample_jwt sample_json root hung_up

page_served :
    Serves closes
      (bytes "Boost.Beast")
      disk
      sample_jwt
      sample_json
      root
      ((noon, page) ∷ (noon, missing_page) ∷ [])
      initial_server
      (page_response ∷ missing_response ∷ [])
      initial_server
unfolding code
page_served = (refl, initial_server, refl, (refl, initial_server, refl, (refl, refl)))

Serves-IsServed_example :
    IsServed closes
      (bytes "Boost.Beast")
      disk
      sample_jwt
      sample_json
      root
      (page ∷ missing_page ∷ [])
      (page_response ∷ missing_response ∷ [])
      initial_server
Serves-IsServed_example =
    Serves-IsServed closes (bytes "Boost.Beast") disk sample_jwt sample_json root
      ((noon, page) ∷ (noon, missing_page) ∷ []) initial_server initial_server
      (page_response ∷ missing_response ∷ []) page_served
