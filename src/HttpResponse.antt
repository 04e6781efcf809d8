-- ===== src/HttpResponse.antt =====
-- http_server/httpserver.cpp: the types of files and the responses that handle_request builds. The library
-- Boost.Beast is seen as the response that it is given.
use da_gis_service.Common.{
  ℕ, ◌+◌, Bool, ◌&&◌, List, [], ◌∷◌, ◌++◌, map, Bytes, bytes, eqb, c_str, length, ◌==◌, leb,
  if◌then◌else◌,
}
use da_gis_service.Api.{Request, Status}

-- The fields of http::field that the program sets.
pub data Field : Type 0 where
  server allow_origin allow_headers allow_methods content_type : Field

-- empty_body, string_body, and file_body with the path and the size of the file.
pub data Payload : Type 0 where
  nothing : Payload
  text : Bytes → Payload
  file : Bytes → ℕ → Payload

-- http::response
pub record Response : Type 0 where
  pub status : Status
  pub version : ℕ
  pub keep_alive : Bool
  pub fields : List (Field × Bytes)
  pub content_length : ℕ
  pub body : Payload

-- What `body.open(path, scan, ec)` comes to.
pub data Opened : Type 0 where
  opened : (size : ℕ) → Opened
  no_such_file : Opened
  failed : (message : Bytes) → Opened

abbrev pub server_version_string : Bytes
server_version_string = bytes "blabber/1.0 (Linux)"

-- `path.substr(path.rfind("."))`, "" if there is no dot.
unfoldable pub extension : Bytes → Bytes
extension [] = []
extension (c ∷ s) =
    let later = extension s in if eqb later [] then (if c == b'.' then c ∷ s else []) else later

abbrev pub lower : ℕ → ℕ
lower c = if leb b'A' c && leb c b'Z' then c + 32 else c

-- beast::iequals
unfoldable pub iequals : Bytes → Bytes → Bool
iequals a b = eqb (map lower a) (map lower b)

abbrev pub mime_types : List (Bytes × Bytes)
mime_types =
    (bytes ".htm", bytes "text/html")
    ∷ (bytes ".html", bytes "text/html")
    ∷ (bytes ".php", bytes "text/html")
    ∷ (bytes ".css", bytes "text/css")
    ∷ (bytes ".txt", bytes "text/plain")
    ∷ (bytes ".js", bytes "application/javascript")
    ∷ (bytes ".json", bytes "application/json")
    ∷ (bytes ".xml", bytes "application/xml")
    ∷ (bytes ".swf", bytes "application/x-shockwave-flash")
    ∷ (bytes ".flv", bytes "video/x-flv")
    ∷ (bytes ".png", bytes "image/png")
    ∷ (bytes ".jpe", bytes "image/jpeg")
    ∷ (bytes ".jpeg", bytes "image/jpeg")
    ∷ (bytes ".jpg", bytes "image/jpeg")
    ∷ (bytes ".gif", bytes "image/gif")
    ∷ (bytes ".bmp", bytes "image/bmp")
    ∷ (bytes ".ico", bytes "image/vnd.microsoft.icon")
    ∷ (bytes ".tiff", bytes "image/tiff")
    ∷ (bytes ".tif", bytes "image/tiff")
    ∷ (bytes ".svg", bytes "image/svg+xml")
    ∷ (bytes ".svgz", bytes "image/svg+xml")
    ∷ []

-- The chain of tests of mime_type, over its table.
unfoldable pub mime_of : Bytes → List (Bytes × Bytes) → Bytes
mime_of ext [] = bytes "application/text"
mime_of ext ((e, mime) ∷ rows) = if iequals ext e then mime else mime_of ext rows

-- mime_type
unfoldable pub mime_type : Bytes → Bytes
mime_type path = mime_of (extension path) mime_types

-- `beast_version` is BOOST_BEAST_VERSION_STRING.
module _ (beast_version : Bytes) where
  -- The part that the error responses share: prepare_payload sets the length of the body.
  abbrev pub html : Status → Request → Bytes → Response
  html status req body = record {
    status = status;
    version = req.version;
    keep_alive = req.keep_alive;
    fields =
        (server, beast_version)
        ∷ (allow_origin, bytes "*")
        ∷ (content_type, bytes "text/html")
        ∷ [];
    content_length = length body;
    body = text body;
  }

  unfoldable pub bad_request : Request → Bytes → Response
  bad_request req why = html Status.bad_request req why

  unfoldable pub not_found : Request → Response
  not_found req =
      html Status.not_found req (bytes "The resource '" ++ (req.target ++ bytes "' was not found."))

  unfoldable pub server_error : Request → Bytes → Response
  server_error req what =
      html Status.internal_server_error req (bytes "An error occurred: '" ++ (what ++ bytes "'"))

  unfoldable pub unauthorized : Request → Response
  unauthorized req = html Status.unauthorized req (bytes "You are not logged in")

  unfoldable pub forbidden : Request → Response
  forbidden req = html Status.forbidden req (bytes "You are not allowed to access" ++ req.target)

  -- The responses to HEAD and to GET of a file, from the result of opening it on.
  abbrev pub file_response : Request → Bytes → Payload → ℕ → Response
  file_response req path body size = record {
    status = Status.ok;
    version = req.version;
    keep_alive = req.keep_alive;
    fields = (server, beast_version) ∷ (content_type, mime_type path) ∷ [];
    content_length = size;
    body = body;
  }

  unfoldable pub head_file : Request → Bytes → Opened → Response
  head_file req path no_such_file = not_found req
  head_file req path (failed message) = server_error req message
  head_file req path (opened size) = file_response req path nothing size

  unfoldable pub get_file : Request → Bytes → Opened → Response
  get_file req path no_such_file = not_found req
  get_file req path (failed message) = server_error req message
  get_file req path (opened size) = file_response req path (file path size) size

  -- The response to OPTIONS.
  unfoldable pub preflight : Request → Response
  preflight req = record {
    status = Status.created;
    version = req.version;
    keep_alive = req.keep_alive;
    fields =
        (server, beast_version)
        ∷ (allow_origin, bytes "*")
        ∷ (allow_headers, req.control_request_headers)
        ∷ (allow_methods, req.control_request_method)
        ∷ (content_type, bytes "text/plain")
        ∷ [];
    content_length = 0;
    body = text (13 ∷ 10 ∷ []);
  }

  -- The response to an API request, from the result of HandleApiRequest on.
  unfoldable pub api_response : Request → Status → Bytes → Response
  api_response req Status.ok resp_body = record {
    status = Status.ok;
    version = req.version;
    keep_alive = req.keep_alive;
    fields =
        (server, server_version_string)
        ∷ (allow_origin, bytes "*")
        ∷ (content_type, bytes "application/json")
        ∷ [];
    content_length = length resp_body;
    body = text (c_str resp_body);
  }
  api_response req Status.unauthorized resp_body = unauthorized req
  api_response req Status.forbidden resp_body = forbidden req
  api_response req Status.not_found resp_body = not_found req
  api_response req Status.bad_request resp_body = bad_request req resp_body
  api_response req _ resp_body = server_error req resp_body
