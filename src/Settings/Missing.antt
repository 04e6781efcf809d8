-- ===== src/Settings/Missing.antt =====
-- The result of parse_settings of main.cpp.
use da_gis_service.Common.{
  ◌≡◌, ◌↔◌, refl, true, false, Option, none, some, [], arith, Bytes, bytes, Bool-cases,
  Option-cases, inl, inr,
}
use da_gis_service.Settings.{RapidJson, check_members, check_document, parse_settings}

module _ (json : RapidJson) where
  -- An empty text is no JSON, and leaves a document that is no object.
  pub record EmptyLaws : Type 0 where
    pub empty_stream : json.is_object (json.parse_stream []) ≡ false

  -- Settings with which parse_settings succeeds.
  pub record IsComplete (doc : json.Document) : Type 0 where
    pub object : json.is_object doc ≡ true
    pub start_date : json.has_member (bytes "start_date") doc ≡ true
    pub server : json.has_member (bytes "server") doc ≡ true
    pub region : json.has_member (bytes "region") doc ≡ true
    pub text : Bytes
    pub server_text : json.get_string (bytes "server") doc ≡ some text

  members-IsComplete :
      (doc : json.Document)
      → json.is_object doc ≡ true
      → check_members json doc ≡ some true
      → IsComplete doc
  unfolding check_members
  members-IsComplete doc object h = elim (Bool-cases (json.has_member (bytes "start_date") doc)) [
    | inr e ↦ absurd (ground (arith, h, e))
    | inl start_date ↦ elim (Bool-cases (json.has_member (bytes "server") doc)) [
      | inr e ↦ absurd (ground (arith, h, start_date, e))
      | inl server ↦ elim (Bool-cases (json.has_member (bytes "region") doc)) [
        | inr e ↦ absurd (ground (arith, h, start_date, server, e))
        | inl region ↦ elim (Option-cases (json.get_string (bytes "server") doc)) [
          | inl e ↦ absurd (ground (arith, h, start_date, server, region, e))
          | inr (text, e) ↦ record {
            object = object;
            start_date = start_date;
            server = server;
            region = region;
            text = text;
            server_text = e;
          }
        ]
      ]
    ]
  ]

  document-IsComplete : (doc : json.Document) → check_document json doc ≡ some true → IsComplete doc
  unfolding check_document
  document-IsComplete doc h = elim (Bool-cases (json.is_object doc)) [
    | inr e ↦ absurd (ground (arith, h, e))
    | inl object ↦ members-IsComplete doc object (ground (arith, h, object))
  ]

  check_document-true : (doc : json.Document) → IsComplete doc → check_document json doc ≡ some true
  unfolding check_document check_members
  check_document-true doc c = rw (c.object, c.start_date, c.server, c.region, c.server_text) refl

  -- A document passes the tests of parse_settings exactly if it is an object with a date of start, a region and
  -- a server, which is a text; but parse_settings always returns false, since no file has the empty name and
  -- an empty stream gives no object.
  pub parse_settings-false :
      EmptyLaws
      → (open_file : Bytes → Option Bytes) → open_file [] ≡ none
      → ((doc : json.Document) → (check_document json doc ≡ some true) ↔ IsComplete doc)
        × (parse_settings json open_file ≡ some false)
  unfolding parse_settings check_document
  parse_settings-false laws open_file closed = (
    λ doc. (document-IsComplete doc, check_document-true doc),
    rw (closed, laws.empty_stream) refl,
  )
