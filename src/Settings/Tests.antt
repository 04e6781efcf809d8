-- ===== src/Settings/Tests.antt =====
-- Calls of parse_settings of main.cpp.
use da_gis_service.Common.{
  ◌≡◌, refl, Bool, true, false, Option, none, some, List, [], ◌∷◌, Bytes, bytes, any, eqb,
}
use da_gis_service.Settings.{RapidJson, check_members, check_document, parse_settings}

-- A document is the list of its members, none if it is no object; any text is a document with one member, itself.
abbrev parse : Bytes → Option (List Bytes)
parse [] = none
parse (c ∷ s) = some ((c ∷ s) ∷ [])

abbrev is_some : Option (List Bytes) → Bool
is_some none = false
is_some (some members) = true

has : Bytes → Option (List Bytes) → Bool
has name none = false
has name (some members) = any (λ m. eqb m name) members

abbrev members : RapidJson
members = record {
  Document = Option (List Bytes);
  parse_stream = parse;
  is_object = is_some;
  has_member = has;
  get_string = λ name doc. some name;
}

code : Unit {0}
unfolding check_members check_document parse_settings has any eqb
code = tt

abbrev no_files : Bytes → Option Bytes
no_files name = none

settings_run :
    (check_document members (some (bytes "region" ∷ bytes "server" ∷ bytes "start_date" ∷ []))
      ≡ some true)
    × (check_document members (some (bytes "server" ∷ [])) ≡ some false)
unfolding code
settings_run = (refl, refl)
