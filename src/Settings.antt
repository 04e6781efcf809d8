-- ===== src/Settings.antt =====
-- parse_settings of main.cpp. It takes nothing from the settings: it returns whether they are there. The
-- streams and rapidjson are seen as what they give.
pub mod Missing
mod Tests
use da_gis_service.Common.{
  ◌≡◌, Bool, true, false, not, Option, none, some, List, [], ◌∷◌, Bytes, bytes, if◌then◌else◌,
}

-- rapidjson: `ParseStream` on what a stream gives, which leaves a document also when it fails, and
-- `IsObject`, `HasMember`, and `operator[]` followed by `GetString`, none if it asserts.
pub record RapidJson : Type 1 where
  pub Document : Type 0
  pub parse_stream : Bytes → Document
  pub is_object : Document → Bool
  pub has_member : Bytes → Document → Bool
  pub get_string : Bytes → Document → Option Bytes

-- What a stream gives that was opened on a file, nothing if it could not be opened.
abbrev pub stream_of : Option Bytes → Bytes
stream_of none = []
stream_of (some content) = content

-- `doc["server"].GetString()` and `return true`.
abbrev pub after_server : Option Bytes → Option Bool
after_server none = none
after_server (some str) = some true

module _ (json : RapidJson) where
  -- The members that must be there, and the string that is read; the tests of the other members do nothing.
  unfoldable pub check_members : json.Document → Option Bool
  check_members doc =
      if not (json.has_member (bytes "start_date") doc)
      then some false
      else if not (json.has_member (bytes "server") doc)
      then some false
      else if not (json.has_member (bytes "region") doc)
      then some false
      else after_server (json.get_string (bytes "server") doc)

  unfoldable pub check_document : json.Document → Option Bool
  check_document doc = if not (json.is_object doc) then some false else check_members doc

  -- parse_settings; none if it asserts. The name of the file is that of a new string.
  unfoldable pub parse_settings : (open_file : Bytes → Option Bytes) → Option Bool
  parse_settings open_file =
      let filename : Bytes = [] in
      check_document (json.parse_stream (stream_of (open_file filename)))
