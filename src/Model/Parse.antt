-- ===== src/Model/Parse.antt =====
-- `parse_invoice` of src/rechnungsprobe/model.py, from the root of the parsed document on. Elements
-- of namespaces other than UBL's match no path of the program, so the trees leave them out.
pub mod Document
use rechnungsprobe.Prelude.{
  String, Text, codes, text_eq, Bool, true, false, not, ◌&&◌, any, Option, none, some, List, [],
  ◌∷◌, if◌then◌else◌,
}
use rechnungsprobe.Errors.{
  Result, ok, err, ModelError, model_error, missing, not_a_decimal, not_a_date, not_finite,
  not_matching, document, ◌>>=◌, ◌>>◌,
}
use rechnungsprobe.Decimal.{Decimal, is_finite, half_even, quantize, decimal_eq}
use rechnungsprobe.Model.Invoice.{Date, Party, InvoiceLine, Invoice, Host, Reader}
use rechnungsprobe.Model.Validate.{require, validate}
use rechnungsprobe.Model.Totals.{line_extension, line_total, tax_total, payable_total}
use rechnungsprobe.Model.Xml.{Namespace, ubl, cbc, cac, Element, Elements, element, nil, cons}

abbrev pub Step : Type 0
Step = Namespace × String

abbrev same_namespace : Namespace → Namespace → Bool
same_namespace ubl ubl = true
same_namespace cbc cbc = true
same_namespace cac cac = true
same_namespace a b = false

abbrev pub has_tag : Namespace → String → Element → Bool
has_tag ns local (element ns' local' text attributes parts) =
    same_namespace ns' ns && text_eq (codes local') (codes local)

-- The children with a tag, in document order
unfoldable pub children_with : Namespace → String → Elements → List Element
children_with ns local nil = []
children_with ns local (cons x rest) =
    let later = children_with ns local rest in if has_tag ns local x then x ∷ later else later

abbrev pub parts_of : Element → Elements
parts_of (element ns local text attributes parts) = parts

abbrev first_found : Option Element → Option Element → Option Element
first_found none later = later
first_found (some x) later = some x

abbrev pub first_of : (Element → Option Element) → List Element → Option Element
first_of search [] = none
first_of search (x ∷ rest) = first_found (search x) (first_of search rest)

-- `element.find(path, NS)`: the first element on the path in document order.
unfoldable pub find : List Step → Element → Option Element
unfolding children_with
find [] x = some x
find (step ∷ path) x = first_of (λ y. find path y) (children_with step.0 step.1 (parts_of x))

abbrev pub text_of : Element → Option Text
text_of (element ns local text attributes parts) = text

abbrev pub attributes_of : Element → List (String × Text)
attributes_of (element ns local text attributes parts) = attributes

-- `attrib.get(name)`
unfoldable pub attribute : String → List (String × Text) → Option Text
attribute name [] = none
attribute name ((key, value) ∷ rest) =
    let later = attribute name rest in
    if text_eq (codes key) (codes name) then some value else later

abbrev pub or_empty : Option Text → Text
or_empty none = []
or_empty (some t) = t

-- `found.text or None` of an element that may be missing
unfoldable pub optional_text : List Step → Element → Option Text
unfolding find
optional_text path x = elim (find path x) [
  | none ↦ none
  | some found ↦ elim (text_of found) [ none ↦ none | some [] ↦ none | some (c ∷ t) ↦ some (c ∷ t) ]
]

abbrev entity : Step
entity = (cac, "PartyLegalEntity")

abbrev address : Step
address = (cac, "PostalAddress")

abbrev contact : Step
contact = (cac, "Contact")

abbrev pub found_or : Option Element → ModelError → Result Element
found_or none e = err (model_error e)
found_or (some x) e = ok x

module _ ⦃reader : Reader⦄ where
  -- Some character is left by `str.strip`.
  abbrev is_filled : Text → Bool
  is_filled text = any (λ c. not (reader.is_space c)) text

  abbrev filled_or : Option Text → ModelError → Result Text
  filled_or none e = err (model_error e)
  filled_or (some text) e = require (is_filled text) e >> ok text

  unfoldable pub required_text : String → List Step → Element → Result Text
  unfolding find
  required_text name path x = do
    found ← found_or (find path x) (missing name)
    filled_or (text_of found) (missing name)

  abbrev decimal_or : Option Decimal → ModelError → Result Decimal
  decimal_or none e = err (model_error e)
  decimal_or (some d) e = ok d

  unfoldable pub parse_decimal : Text → String → Result Decimal
  parse_decimal value field = do
    parsed ← decimal_or (reader.decimal_from value) (not_a_decimal field)
    require (is_finite parsed) (not_finite document field)
    ok parsed

  unfoldable pub parse_date : Text → String → Result Date
  parse_date value field = elim (reader.date_from value) [
    | none ↦ err (model_error (not_a_date field))
    | some d ↦ ok d
  ]

  unfoldable pub parse_optional_date : Option Text → String → Result (Option Date)
  unfolding parse_date
  parse_optional_date none field = ok none
  parse_optional_date (some text) field = parse_date text field >>= λ d. ok (some d)

  unfoldable pub parse_party : Element → Result Party
  unfolding find attribute optional_text required_text
  parse_party x = do
    endpoint ← found_or (find ((cbc, "EndpointID") ∷ []) x) (missing "cbc:EndpointID")
    registration_name ←
        required_text "cbc:RegistrationName" (entity ∷ (cbc, "RegistrationName") ∷ []) x
    street ← required_text "cbc:StreetName" (address ∷ (cbc, "StreetName") ∷ []) x
    city ← required_text "cbc:CityName" (address ∷ (cbc, "CityName") ∷ []) x
    postal_code ← required_text "cbc:PostalZone" (address ∷ (cbc, "PostalZone") ∷ []) x
    country_code ←
        required_text "cac:Country" (address ∷ (cac, "Country") ∷ (cbc, "IdentificationCode") ∷ [])
          x
    ok (record {
      endpoint = or_empty (text_of endpoint);
      endpoint_scheme = or_empty (attribute "schemeID" (attributes_of endpoint));
      registration_name = registration_name;
      street = street;
      city = city;
      postal_code = postal_code;
      country_code = country_code;
      trading_name = optional_text ((cac, "PartyName") ∷ (cbc, "Name") ∷ []) x;
      tax_identifier = optional_text ((cac, "PartyTaxScheme") ∷ (cbc, "CompanyID") ∷ []) x;
      legal_identifier = optional_text (entity ∷ (cbc, "CompanyID") ∷ []) x;
      legal_form = optional_text (entity ∷ (cbc, "CompanyLegalForm") ∷ []) x;
      party_identifier = optional_text ((cac, "PartyIdentification") ∷ (cbc, "ID") ∷ []) x;
      contact_name = optional_text (contact ∷ (cbc, "Name") ∷ []) x;
      contact_phone = optional_text (contact ∷ (cbc, "Telephone") ∷ []) x;
      contact_email = optional_text (contact ∷ (cbc, "ElectronicMail") ∷ []) x;
    })

-- A reported amount against the computed one
unfoldable pub check_reported : Decimal → Result Decimal → String → Result (Unit {0})
check_reported reported computed name = do
  rounded ← quantize half_even reported
  total ← computed
  require (decimal_eq rounded total) (not_matching name)
