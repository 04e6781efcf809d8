-- ===== src/Http.antt =====
-- http_server/httpserver.cpp: the answer to one HTTP request. The library Boost.Beast is seen as the
-- request that it parsed and the response that it is given; log lines are left out.
pub mod Files
pub mod Routed
pub mod Mime
mod Tests
pub mod Framed
pub mod Answers
pub mod Connection
pub mod Listener
use da_gis_service.Common.{
  ◌+◌, Bool, true, false, not, ◌||◌, [], ◌∷◌, ◌++◌, Bytes, bytes, eqb, contains, c_str, take, ◌==◌,
  if◌then◌else◌,
}
use da_gis_service.Outcome.{Outcome, ret, raise}
use da_gis_service.Jwt.{JwtCpp}
use da_gis_service.Json.{BoostJson}
use da_gis_service.Api.{
  Verb, get, head, options, other, Request, Server, Clock, Reply, handle_api_request,
}
use da_gis_service.HttpResponse.{
  file, Response, Opened, bad_request, head_file, get_file, preflight, api_response,
}

-- `result.back() == '/'`
unfoldable pub ends_in_slash : Bytes → Bool
ends_in_slash [] = false
ends_in_slash (c ∷ []) = c == b'/'
ends_in_slash (c ∷ d ∷ s) = ends_in_slash (d ∷ s)

-- `result.resize(result.size() - 1)`
unfoldable pub drop_last : Bytes → Bytes
drop_last [] = []
drop_last (c ∷ []) = []
drop_last (c ∷ d ∷ s) = c ∷ drop_last (d ∷ s)

-- path_cat, in its branch for other systems than Windows.
unfoldable pub path_cat : (base path : Bytes) → Bytes
path_cat base path =
    if eqb base [] then path else (if ends_in_slash base then drop_last base else base) ++ path

-- The methods that handle_request accepts.
abbrev pub is_known : Verb → Bool
is_known other = false
is_known _ = true

-- "Request path must be absolute and not contain `..`", negated.
unfoldable pub is_illegal : Bytes → Bool
is_illegal [] = true
is_illegal (c ∷ target) = not (c == b'/') || contains (bytes "..") (c ∷ target)

-- The path of the requested file.
unfoldable pub file_path : (doc_root target : Bytes) → Bytes
file_path doc_root target =
    let path = path_cat doc_root target in
    if ends_in_slash target then path ++ bytes "index.html" else path

-- `beast_version` is BOOST_BEAST_VERSION_STRING.
module _ (beast_version : Bytes) where
  abbrev pub answer : Request → Reply → Outcome Response × Server
  answer req (raise e, s) = (raise e, s)
  answer req (ret (status, resp_body), s) =
      (ret (api_response beast_version req status resp_body), s)

  module _ (open_file : Bytes → Opened) (jwt : JwtCpp) (js : BoostJson) where
    abbrev pub call_api : Clock → Request → Server → Outcome Response × Server
    call_api clock req s = answer req (handle_api_request jwt js clock req [] s)

    -- The branches of handle_request once method and target are accepted; `path` is that of the file.
    unfoldable pub dispatch : Verb → Clock → Request → Bytes → Server → Outcome Response × Server
    dispatch head clock req path s =
        (ret (head_file beast_version req path (open_file (c_str path))), s)
    dispatch options clock req path s = (ret (preflight beast_version req), s)
    dispatch get clock req path s =
        if eqb (take 4 req.target) (bytes "/api")
        then call_api clock req s
        else (ret (get_file beast_version req path (open_file (c_str path))), s)
    dispatch _ clock req path s = call_api clock req s

    -- handle_request
    unfoldable pub handle_request :
        (doc_root : Bytes) → Clock → Request → Server → Outcome Response × Server
    handle_request doc_root clock req s =
        if not (is_known req.method)
        then (ret (bad_request beast_version req (bytes "Unknown HTTP-method")), s)
        else if is_illegal req.target
        then (ret (bad_request beast_version req (bytes "Illegal request-target")), s)
        else dispatch req.method clock req (file_path doc_root req.target) s
