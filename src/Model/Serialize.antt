-- ===== src/Model/Serialize.antt =====
-- `serialize_invoice` of src/rechnungsprobe/model.py: the element tree, part by part.
use rechnungsprobe.Prelude.{
  String, Text, codes, Bool, ◌||◌, true, false, Option, none, some, List, [], ◌∷◌, ◌++◌,
  if◌then◌else◌,
}
use rechnungsprobe.Errors.{Result, ok, err, runtime_error, ◌>>=◌, ◌>>◌}
use rechnungsprobe.Decimal.{Decimal}
use rechnungsprobe.Model.Invoice.{Party, InvoiceLine, Invoice, Date, isoformat, Host}
use rechnungsprobe.Model.Validate.{validate}
use rechnungsprobe.Model.Totals.{
  line_extension, line_total, tax_total, payable_total, decimal_text, money_text,
}
use rechnungsprobe.Model.Xml.{Element, ubl, cbc, cac, leaf, branch, optional_leaf, tostring}

-- Python's truth of an optional text
abbrev is_truthy : Option Text → Bool
is_truthy none = false
is_truthy (some []) = false
is_truthy (some (c ∷ t)) = true

abbrev wrap : String → List Element → List Element
wrap local [] = []
wrap local (x ∷ xs) = branch cac local (x ∷ xs) ∷ []

unfoldable pub serialize_party : Party → Element
serialize_party p = branch cac "Party" (
    leaf cbc "EndpointID" p.endpoint (("schemeID", p.endpoint_scheme) ∷ [])
    ∷ (wrap "PartyIdentification" (optional_leaf cbc "ID" p.party_identifier)
        ++ (wrap "PartyName" (optional_leaf cbc "Name" p.trading_name)
            ++ (branch cac "PostalAddress" (
                  leaf cbc "StreetName" p.street []
                  ∷ leaf cbc "CityName" p.city []
                  ∷ leaf cbc "PostalZone" p.postal_code []
                  ∷ branch cac "Country" (leaf cbc "IdentificationCode" p.country_code [] ∷ [])
                  ∷ [])
                ∷ (tax_scheme p.tax_identifier
                    ++ (branch cac "PartyLegalEntity" (
                          leaf cbc "RegistrationName" p.registration_name []
                          ∷ (optional_leaf cbc "CompanyID" p.legal_identifier
                              ++ optional_leaf cbc "CompanyLegalForm" p.legal_form))
                        ∷ contact))))))
  where
    tax_scheme : Option Text → List Element
    tax_scheme none = []
    tax_scheme (some identifier) =
        branch cac "PartyTaxScheme" (
          leaf cbc "CompanyID" identifier []
          ∷ branch cac "TaxScheme" (leaf cbc "ID" (codes "VAT") [] ∷ [])
          ∷ [])
        ∷ []

    contact : List Element
    contact =
        if is_truthy p.contact_name || (is_truthy p.contact_phone || is_truthy p.contact_email)
        then branch cac "Contact" (
            optional_leaf cbc "Name" p.contact_name
            ++ (optional_leaf cbc "Telephone" p.contact_phone
                ++ optional_leaf cbc "ElectronicMail" p.contact_email))
          ∷ []
        else []

abbrev period_part : Option Date → Option Date → List Element
period_part (some start) (some end) =
    branch cac "InvoicePeriod"
      (leaf cbc "StartDate" (isoformat start) [] ∷ leaf cbc "EndDate" (isoformat end) [] ∷ [])
    ∷ []
period_part _ _ = []

abbrev classification_part : Option Text → Option Text → List Element
classification_part (some c) (some l) =
    branch cac "CommodityClassification"
      (leaf cbc "ItemClassificationCode" c (("listID", l) ∷ []) ∷ [])
    ∷ []
classification_part _ _ = []

unfoldable pub serialize_line : Text → InvoiceLine → Result Element
serialize_line currency l = do
  extension ← line_extension l
  amount ← money_text extension
  ok (
      branch cac "InvoiceLine" (
        leaf cbc "ID" l.identifier []
        ∷ (optional_leaf cbc "Note" l.note
            ++ (leaf cbc "InvoicedQuantity" (decimal_text l.quantity)
                  (("unitCode", l.unit_code) ∷ [])
                ∷ leaf cbc "LineExtensionAmount" amount (("currencyID", currency) ∷ [])
                ∷ (period_part l.period_start l.period_end
                    ++ (wrap "OrderLineReference"
                          (optional_leaf cbc "LineID" l.order_line_identifier)
                        ++ (branch cac "Item" (
                              optional_leaf cbc "Description" l.description
                              ++ (leaf cbc "Name" l.name []
                                  ∷ (wrap "SellersItemIdentification"
                                        (optional_leaf cbc "ID" l.seller_item_identifier)
                                      ++ (classification_part l.classification_code
                                            l.classification_list
                                          ++ (branch cac "ClassifiedTaxCategory" (
                                                leaf cbc "ID" l.vat_category []
                                                ∷ leaf cbc "Percent" (decimal_text l.vat_rate) []
                                                ∷ branch cac "TaxScheme"
                                                    (leaf cbc "ID" (codes "VAT") [] ∷ [])
                                                ∷ [])
                                              ∷ [])))))
                            ∷ branch cac "Price" (
                                leaf cbc "PriceAmount" (decimal_text l.price)
                                  (("currencyID", currency) ∷ [])
                                ∷ [])
                            ∷ [])))))))

unfoldable pub serialize_lines : Text → List InvoiceLine → Result (List Element)
serialize_lines currency [] = ok []
serialize_lines currency (l ∷ rest) = do
  first ← serialize_line currency l
  others ← serialize_lines currency rest
  ok (first ∷ others)

abbrev due_part : Option Date → List Element
due_part none = []
due_part (some due) = leaf cbc "PaymentDueDate" (isoformat due) [] ∷ []

-- `invoice.lines[0].vat_rate`
abbrev first_rate : List InvoiceLine → Result Decimal
first_rate [] = err (runtime_error "tuple index out of range")
first_rate (l ∷ rest) = ok l.vat_rate

unfoldable pub invoice_tree : Invoice → Result Element
invoice_tree i = do
  let money = ("currencyID", i.currency) ∷ []
  lines ← line_total i
  tax ← tax_total i
  payable ← payable_total i
  lines_text ← money_text lines
  tax_text ← money_text tax
  payable_text ← money_text payable
  rate ← first_rate i.lines
  line_elements ← serialize_lines i.currency i.lines
  ok (
      branch ubl "Invoice" (
        leaf cbc "CustomizationID" i.customization_id []
        ∷ leaf cbc "ProfileID" i.profile_id []
        ∷ leaf cbc "ID" i.identifier []
        ∷ leaf cbc "IssueDate" (isoformat i.issue_date) []
        ∷ leaf cbc "InvoiceTypeCode" i.invoice_type_code []
        ∷ (optional_leaf cbc "Note" i.note
            ++ (leaf cbc "DocumentCurrencyCode" i.currency []
                ∷ leaf cbc "BuyerReference" i.buyer_reference []
                ∷ branch cac "AccountingSupplierParty" (serialize_party i.seller ∷ [])
                ∷ branch cac "AccountingCustomerParty" (serialize_party i.buyer ∷ [])
                ∷ branch cac "PaymentMeans" (
                    leaf cbc "PaymentMeansCode" i.payment_means_code []
                    ∷ (due_part i.payment_due_date
                        ++ (branch cac "PayeeFinancialAccount"
                              (leaf cbc "ID" i.payee_account_identifier [] ∷ [])
                            ∷ [])))
                ∷ branch cac "PaymentTerms" (leaf cbc "Note" i.payment_terms [] ∷ [])
                ∷ branch cac "TaxTotal" (
                    leaf cbc "TaxAmount" tax_text money
                    ∷ branch cac "TaxSubtotal" (
                        leaf cbc "TaxableAmount" lines_text money
                        ∷ leaf cbc "TaxAmount" tax_text money
                        ∷ branch cac "TaxCategory" (
                            leaf cbc "ID" (codes "S") []
                            ∷ leaf cbc "Percent" (decimal_text rate) []
                            ∷ branch cac "TaxScheme" (leaf cbc "ID" (codes "VAT") [] ∷ [])
                            ∷ [])
                        ∷ [])
                    ∷ [])
                ∷ branch cac "LegalMonetaryTotal" (
                    leaf cbc "LineExtensionAmount" lines_text money
                    ∷ leaf cbc "TaxExclusiveAmount" lines_text money
                    ∷ leaf cbc "TaxInclusiveAmount" payable_text money
                    ∷ leaf cbc "PayableAmount" payable_text money
                    ∷ [])
                ∷ line_elements))))

module _ ⦃host : Host⦄ where
  -- The document's text with the newline that the program adds.
  unfoldable pub serialize_invoice : Invoice → Result Text
  serialize_invoice i = do validate i; root ← invoice_tree i; ok (tostring root ++ (10 ∷ []))
