-- ===== src/Shrink/Parties.antt =====
-- The reductions of a party in src/rechnungsprobe/shrink.py.
use rechnungsprobe.Prelude.{Text, Option, none, some, List, [], ◌∷◌, ◌++◌, map}
use rechnungsprobe.Model.Invoice.{Party, Invoice}
use rechnungsprobe.Shrink.Operations
use rechnungsprobe.Shrink.Operations.{
  PartyName, PartyOptionalField, PartyTextField, TextOperation, Reduction, text_reductions,
}

unfoldable pub replace_party : Invoice → PartyName → Party → Invoice
replace_party i PartyName.seller p = record i { seller = p }
replace_party i PartyName.buyer p = record i { buyer = p }

-- `getattr(party, name)` on an optional field
unfoldable pub party_optional : PartyOptionalField → Party → Option Text
party_optional PartyOptionalField.trading_name p = p.trading_name
party_optional PartyOptionalField.tax_identifier p = p.tax_identifier
party_optional PartyOptionalField.legal_identifier p = p.legal_identifier
party_optional PartyOptionalField.legal_form p = p.legal_form
party_optional PartyOptionalField.party_identifier p = p.party_identifier
party_optional PartyOptionalField.contact_name p = p.contact_name
party_optional PartyOptionalField.contact_phone p = p.contact_phone
party_optional PartyOptionalField.contact_email p = p.contact_email

unfoldable pub remove_party_optional : Party → PartyOptionalField → Party
remove_party_optional p PartyOptionalField.trading_name = record p { trading_name = none }
remove_party_optional p PartyOptionalField.tax_identifier = record p { tax_identifier = none }
remove_party_optional p PartyOptionalField.legal_identifier = record p { legal_identifier = none }
remove_party_optional p PartyOptionalField.legal_form = record p { legal_form = none }
remove_party_optional p PartyOptionalField.party_identifier = record p { party_identifier = none }
remove_party_optional p PartyOptionalField.contact_name = record p { contact_name = none }
remove_party_optional p PartyOptionalField.contact_phone = record p { contact_phone = none }
remove_party_optional p PartyOptionalField.contact_email = record p { contact_email = none }

-- `getattr(party, name)` on a text field
unfoldable pub party_text : PartyTextField → Party → Text
party_text PartyTextField.endpoint p = p.endpoint
party_text PartyTextField.registration_name p = p.registration_name
party_text PartyTextField.street p = p.street
party_text PartyTextField.city p = p.city
party_text PartyTextField.postal_code p = p.postal_code

unfoldable pub replace_party_text : Party → PartyTextField → Text → Party
replace_party_text p PartyTextField.endpoint v = record p { endpoint = v }
replace_party_text p PartyTextField.registration_name v = record p { registration_name = v }
replace_party_text p PartyTextField.street v = record p { street = v }
replace_party_text p PartyTextField.city v = record p { city = v }
replace_party_text p PartyTextField.postal_code v = record p { postal_code = v }

abbrev pub party_optional_fields : List PartyOptionalField
party_optional_fields =
    PartyOptionalField.trading_name ∷ PartyOptionalField.tax_identifier
    ∷ PartyOptionalField.legal_identifier ∷ PartyOptionalField.legal_form
    ∷ PartyOptionalField.party_identifier ∷ PartyOptionalField.contact_name
    ∷ PartyOptionalField.contact_phone ∷ PartyOptionalField.contact_email ∷ []

abbrev pub party_text_fields : List PartyTextField
party_text_fields =
    PartyTextField.endpoint ∷ PartyTextField.registration_name ∷ PartyTextField.street
    ∷ PartyTextField.city ∷ PartyTextField.postal_code ∷ []

-- `if getattr(party, name) is not None: yield ...`
unfoldable pub party_removal :
    Invoice → PartyName → Party → PartyOptionalField → Option Text → List Reduction
party_removal i who p field none = []
party_removal i who p field (some value) =
    record {
      operation = Operations.remove_party_optional who field;
      invoice = replace_party i who (remove_party_optional p field);
    }
    ∷ []

unfoldable pub party_removals :
    Invoice → PartyName → Party → List PartyOptionalField → List Reduction
party_removals i who p [] = []
party_removals i who p (field ∷ rest) =
    party_removal i who p field (party_optional field p) ++ party_removals i who p rest

abbrev pub party_text_reduction :
    Invoice → PartyName → Party → PartyTextField → TextOperation × Text → Reduction
party_text_reduction i who p field (operation, value) = record {
  operation = Operations.party_text who field operation;
  invoice = replace_party i who (replace_party_text p field value);
}

unfoldable pub party_text_reductions :
    Invoice → PartyName → Party → List PartyTextField → List Reduction
party_text_reductions i who p [] = []
party_text_reductions i who p (field ∷ rest) =
    map (party_text_reduction i who p field) (text_reductions (party_text field p))
    ++ party_text_reductions i who p rest

unfoldable pub party_reductions : Invoice → PartyName → Party → List Reduction
party_reductions i who p =
    party_removals i who p party_optional_fields ++ party_text_reductions i who p party_text_fields
