-- ===== src/Json/RoundTrip.antt =====
-- What of http_server/api/json_structs.hpp comes back from its own JSON, and which credentials a body
-- gives.
use da_gis_service.Common.{
  none, ◌≡◌, true, some, [], ◌∷◌, arith, Bytes, bytes, eqb_refl, Option-cases, ◌⊎◌, inl, inr,
}
use da_gis_service.Outcome.{Exception, ret, raise, wrong_kind, out_of_range}
use da_gis_service.Users.{Credentials}
use da_gis_service.Json.{
  BoostJson, JsonLaws, EndIsTrue, lookup, string_at, object_of, token_of_json, json_of_token,
  credentials_at, credentials_of_json, json_to_struct, struct_to_json,
}

lookup_self {ℓ} : {V : Type ℓ} (key : Bytes) (v : V) → lookup key ((key, v) ∷ []) ≡ some v
unfolding lookup
lookup_self key v = rw (eqb_refl key)

module _ (js : BoostJson) where
  -- The member `key` of an object is the string `s`.
  pub record StringAt (obj : js.JsonObject) (key s : Bytes) : Type 0 where
    pub member : js.Value
    pub found : js.at obj key ≡ some member
    pub text : js.as_string member ≡ some s

  -- An object lacks a string under `key`: the member, or one that is a string.
  pub data NoStringAt (obj : js.JsonObject) (key : Bytes) : Type 0 where
    no_member : js.at obj key ≡ none → NoStringAt obj key
    no_string :
        (member : js.Value)
        → js.at obj key ≡ some member
        → js.as_string member ≡ none
        → NoStringAt obj key

  -- A value that is no object, or lacks a user name or a password that is a string.
  pub data LacksCredentials (v : js.Value) : Type 0 where
    no_object : js.as_object v ≡ none → LacksCredentials v
    no_username :
        (obj : js.JsonObject)
        → js.as_object v ≡ some obj
        → NoStringAt obj (bytes "username")
        → LacksCredentials v
    no_password :
        (obj : js.JsonObject)
        → js.as_object v ≡ some obj
        → NoStringAt obj (bytes "password")
        → LacksCredentials v

  string_at-StringAt :
      (obj : js.JsonObject) (key s : Bytes) → StringAt obj key s → string_at js obj key ≡ ret s
  unfolding string_at
  string_at-StringAt obj key s a = rw (a.found, a.text, string_at)

  -- A value with a user name and a password.
  pub record CredentialsIn (v : js.Value) (creds : Credentials) : Type 0 where
    pub obj : js.JsonObject
    pub is_object : js.as_object v ≡ some obj
    pub username : StringAt obj (bytes "username") creds.username
    pub password : StringAt obj (bytes "password") creds.password

  module _ (laws : JsonLaws js) where
    -- The token that a login sends is read back by `JsonToStruct<JSToken>`.
    pub json_to_struct-struct_to_json :
        (token : Bytes)
        → json_to_struct js (token_of_json js) (struct_to_json js (json_of_token js) token)
          ≡ ret (some token)
    unfolding json_to_struct struct_to_json token_of_json json_of_token object_of
    json_to_struct-struct_to_json token =
        let v = js.object ((bytes "token", js.string token) ∷ []) in
        let (o, is_object, at) = laws.as_object-object ((bytes "token", js.string token) ∷ []) in
        let found : js.at o (bytes "token") ≡ some (js.string token) =
          rw (at (bytes "token")) (lookup_self (bytes "token") (js.string token)) in
        let s : StringAt o (bytes "token") token = record {
          member = js.string token;
          found = found;
          text = laws.as_string-string token;
        } in
        rw (laws.c_str-serialize v, json_to_struct)
          (ground (
            arith,
            laws.parse-serialize v,
            is_object,
            laws.find_bool-at o (bytes "token") (js.string token) found,
            string_at-StringAt o (bytes "token") token s,
          ))

    pub credentials_of_json-CredentialsIn :
        (v : js.Value) (creds : Credentials)
        → CredentialsIn v creds
        → credentials_of_json js v ≡ ret creds
    unfolding credentials_of_json credentials_at object_of
    credentials_of_json-CredentialsIn v creds c = ground (
      arith,
      c.is_object,
      laws.find_bool-at c.obj (bytes "username") c.username.member c.username.found,
      laws.find_bool-at c.obj (bytes "password") c.password.member c.password.found,
      string_at-StringAt c.obj (bytes "username") creds.username c.username,
      string_at-StringAt c.obj (bytes "password") creds.password c.password,
    )

  string_at-cases :
      (obj : js.JsonObject) (key : Bytes)
      → ((s : Bytes) × StringAt obj key s)
        ⊎ ((e : Exception) × NoStringAt obj key × (string_at js obj key ≡ raise e))
  unfolding string_at
  string_at-cases obj key = elim (Option-cases (js.at obj key)) [
    | inl missing ↦ inr (out_of_range, no_member missing, rw (missing, string_at))
    | inr (v, found) ↦ elim (Option-cases (js.as_string v)) [
      | inl other ↦ inr (wrong_kind, no_string v found other, rw (found, other, string_at))
      | inr (s, text) ↦ inl (s, record { member = v; found = found; text = text })
    ]
  ]

  module _ (laws : JsonLaws js) (ends : EndIsTrue js) where
    find_bool-true : (obj : js.JsonObject) (key : Bytes) → js.find_bool obj key ≡ true
    find_bool-true obj key = elim (Option-cases (js.at obj key)) [
      | inl missing ↦ ends.find_bool-end obj key missing
      | inr (v, found) ↦ laws.find_bool-at obj key v found
    ]

    -- A value without a user name and a password that are strings makes the reading of the
    -- credentials throw: the empty credentials of its `else` branch are never made.
    pub credentials_of_json-cases :
        (v : js.Value)
        → ((creds : Credentials) × CredentialsIn v creds)
          ⊎ ((e : Exception) × LacksCredentials v × (credentials_of_json js v ≡ raise e))
    unfolding credentials_of_json credentials_at object_of
    credentials_of_json-cases v = elim (Option-cases (js.as_object v)) [
      | inl other ↦ inr (wrong_kind, no_object other, ground (arith, other))
      | inr (obj, is_object) ↦
          let has_username = find_bool-true obj (bytes "username") in
          let has_password = find_bool-true obj (bytes "password") in
          elim (string_at-cases obj (bytes "username")) [
            | inr (e, lacks, bad) ↦ inr (
              e,
              no_username obj is_object lacks,
              ground (arith, is_object, has_username, has_password, bad),
            )
            | inl (username, u) ↦ elim (string_at-cases obj (bytes "password")) [
              | inr (e, lacks, bad) ↦ inr (
                e,
                no_password obj is_object lacks,
                ground (
                  arith,
                  is_object,
                  has_username,
                  has_password,
                  bad,
                  string_at-StringAt obj (bytes "username") username u,
                ),
              )
              | inl (password, p) ↦ inl (
                record { username = username; password = password },
                record { obj = obj; is_object = is_object; username = u; password = p },
              )
            ]
          ]
    ]
