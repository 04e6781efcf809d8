-- ===== src/Json.antt =====
-- http_server/api/json_structs.hpp: the structures that the API reads and writes as JSON, over the
-- library boost::json.
pub mod RoundTrip
use da_gis_service.Common.{
  ◌≡◌, Bool, true, false, ◌&&◌, Option, none, some, List, [], ◌∷◌, Bytes, bytes, eqb, c_str,
  if◌then◌else◌,
}
use da_gis_service.Outcome.{Outcome, ret, raise, wrong_kind, out_of_range, ◌>>=◌}
use da_gis_service.Users.{Credentials}

-- The first pair of an object with the given key.
unfoldable pub lookup {ℓ} : {V : Type ℓ} → Bytes → List (Bytes × V) → Option V
lookup key [] = none
lookup key ((k, v) ∷ pairs) = if eqb k key then some v else lookup key pairs

-- boost::json as the program calls it.
pub record BoostJson : Type 1 where
  pub Value : Type 0
  pub JsonObject : Type 0
  -- `json::parse(text, ec)`; `none`: it sets `ec`
  pub parse : Bytes → Option Value
  pub serialize : Value → Bytes
  -- `as_object()`; `none`: the value is of another kind, and it throws
  pub as_object : Value → Option JsonObject
  -- `value_to<std::string>`; `none`: the value is of another kind, and it throws
  pub as_string : Value → Option Bytes
  -- `obj.at(key)`; `none`: there is no such key, and it throws
  pub at : JsonObject → Bytes → Option Value
  -- `obj.find(key)` converted to `bool`
  pub find_bool : JsonObject → Bytes → Bool
  -- how an initializer list of pairs, a string and a `bool` become values
  pub object : List (Bytes × Value) → Value
  pub string : Bytes → Value
  pub bool : Bool → Value

-- The documented behaviour that the program relies on.
pub record JsonLaws (js : BoostJson) : Type 0 where
  pub parse-serialize : (v : js.Value) → js.parse (js.serialize v) ≡ some v
  -- JSON text has no control characters
  pub c_str-serialize : (v : js.Value) → c_str (js.serialize v) ≡ js.serialize v
  pub as_string-string : (s : Bytes) → js.as_string (js.string s) ≡ some s
  pub as_object-object :
      (pairs : List (Bytes × js.Value))
      → (o : js.JsonObject) × (js.as_object (js.object pairs) ≡ some o)
        × ((key : Bytes) → js.at o key ≡ lookup key pairs)
  -- `find` returns a pointer to the pair, which is not null
  pub find_bool-at :
      (o : js.JsonObject) (key : Bytes) (v : js.Value)
      → js.at o key ≡ some v
      → js.find_bool o key ≡ true

-- For a key that an object does not have, `find` returns `end()`, a pointer past the pairs, and
-- a pointer that is not null converts to `true`.
pub record EndIsTrue (js : BoostJson) : Type 0 where
  pub find_bool-end :
      (o : js.JsonObject) (key : Bytes) → js.at o key ≡ none → js.find_bool o key ≡ true

pub record JsUserInfo : Type 0 where
  pub is_admin : Bool
  pub is_user : Bool
  pub first_login : Bool
  pub name : Bytes
  pub position : Bytes

module _ (js : BoostJson) where
  open js use {Value, JsonObject}

  -- `json::value_to<std::string>(obj.at(key))`
  unfoldable pub string_at : JsonObject → Bytes → Outcome Bytes
  string_at obj key = elim (js.at obj key) [
    | none ↦ raise out_of_range
    | some v ↦ elim (js.as_string v) [ none ↦ raise wrong_kind | some s ↦ ret s ]
  ]

  unfoldable pub object_of : Value → Outcome JsonObject
  object_of jv = elim (js.as_object jv) [ none ↦ raise wrong_kind | some obj ↦ ret obj ]

  -- tag_invoke of value_to<JSToken>
  unfoldable pub token_of_json : Value → Outcome Bytes
  token_of_json jv = do
    obj ← object_of jv
    if js.find_bool obj (bytes "token") then string_at obj (bytes "token") else ret []

  -- tag_invoke of value_from(JSToken)
  unfoldable pub json_of_token : Bytes → Value
  json_of_token token = js.object ((bytes "token", js.string token) ∷ [])

  -- The two members in the order of the initializer list.
  unfoldable pub credentials_at : JsonObject → Outcome Credentials
  credentials_at obj = do
    username ← string_at obj (bytes "username")
    password ← string_at obj (bytes "password")
    ret (record { username = username; password = password })

  -- tag_invoke of value_to<Credentials>
  unfoldable pub credentials_of_json : Value → Outcome Credentials
  credentials_of_json jv = do
    obj ← object_of jv
    if js.find_bool obj (bytes "username") && js.find_bool obj (bytes "password")
        then credentials_at obj
        else ret (record { username = []; password = [] })

  -- tag_invoke of value_from(JSUserInfo)
  unfoldable pub json_of_user_info : JsUserInfo → Value
  json_of_user_info s = js.object (
      (bytes "isAdmin", js.bool s.is_admin)
      ∷ (bytes "isUser", js.bool s.is_user)
      ∷ (bytes "firstLogin", js.bool s.first_login)
      ∷ (bytes "name", js.string s.name)
      ∷ (bytes "position", js.string s.position)
      ∷ [])

  -- JsonToStruct: `ret none` is `false`, with the structure left alone.
  unfoldable pub json_to_struct : {A : Type 0} → (Value → Outcome A) → Bytes → Outcome (Option A)
  json_to_struct value_to body = elim (js.parse (c_str body)) [
    | none ↦ ret none
    | some v ↦ value_to v >>= λ st. ret (some st)
  ]

  -- StructToJson
  unfoldable pub struct_to_json : {A : Type 0} → (A → Value) → A → Bytes
  struct_to_json value_from st = js.serialize (value_from st)
