-- ===== src/Model/Parse/Document.antt =====
-- `_parse_line` and `parse_invoice` of src/rechnungsprobe/model.py.
use rechnungsprobe.Prelude.{
  String, Text, text_eq, Bool, true, false, Option, none, some, List, [], ◌∷◌,
}
use rechnungsprobe.Errors.{Result, ok, missing, not_matching, ◌>>=◌, ◌>>◌}
use rechnungsprobe.Decimal.{Decimal}
use rechnungsprobe.Model.Invoice.{InvoiceLine, Invoice, Host, Reader}
use rechnungsprobe.Model.Validate.{require, validate}
use rechnungsprobe.Model.Totals.{line_extension, line_total, tax_total, payable_total}
use rechnungsprobe.Model.Xml.{ubl, cbc, cac, Element}
use rechnungsprobe.Model.Parse.{
  Step, has_tag, children_with, parts_of, find, text_of, attributes_of, attribute, or_empty,
  optional_text, found_or, required_text, parse_decimal, parse_optional_date, parse_date,
  parse_party, check_reported,
}

abbrev item : List Step → List Step
item path = (cac, "Item") ∷ path

abbrev category : String → List Step
category local = item ((cac, "ClassifiedTaxCategory") ∷ (cbc, local) ∷ [])

abbrev classification : List Step
classification = item ((cac, "CommodityClassification") ∷ (cbc, "ItemClassificationCode") ∷ [])

-- The attribute of an element that may be missing
abbrev attribute_of : String → Option Element → Option Text
attribute_of name none = none
attribute_of name (some x) = attribute name (attributes_of x)

-- No element, or one with the invoice's currency
abbrev has_currency : Text → Option Element → Bool
has_currency currency none = true
has_currency currency (some x) = elim (attribute "currencyID" (attributes_of x)) [
  | none ↦ false
  | some value ↦ text_eq value currency
]

abbrev pub extension_path : List Step
extension_path = (cbc, "LineExtensionAmount") ∷ []

abbrev pub total_path : String → List Step
total_path local = (cac, "LegalMonetaryTotal") ∷ (cbc, local) ∷ []

abbrev pub tax_path : List Step
tax_path = (cac, "TaxTotal") ∷ (cbc, "TaxAmount") ∷ []

abbrev pub is_invoice : Element → Bool
is_invoice root = has_tag ubl "Invoice" root

module _ ⦃reader : Reader⦄ where
  -- A reported amount is read, and compared with the computed one.
  unfoldable pub read_amount : String → List Step → Element → Result Decimal
  unfolding required_text parse_decimal
  read_amount name path x = do text ← required_text name path x; parse_decimal text name

  unfoldable pub parse_line_fields : Element → Result InvoiceLine
  unfolding find attribute optional_text required_text parse_decimal parse_optional_date
  parse_line_fields x = do
    quantity ← found_or (find ((cbc, "InvoicedQuantity") ∷ []) x) (missing "quantity or price")
    price ←
        found_or (find ((cac, "Price") ∷ (cbc, "PriceAmount") ∷ []) x) (missing "quantity or price")
    identifier ← required_text "cbc:ID" ((cbc, "ID") ∷ []) x
    quantity_value ← parse_decimal (or_empty (text_of quantity)) "line quantity"
    price_value ← parse_decimal (or_empty (text_of price)) "line price"
    name ← required_text "cbc:Name" (item ((cbc, "Name") ∷ [])) x
    vat_category ← required_text "cbc:ID" (category "ID") x
    percent ← required_text "cbc:Percent" (category "Percent") x
    vat_rate ← parse_decimal percent "line VAT rate"
    period_start ←
        parse_optional_date (optional_text ((cac, "InvoicePeriod") ∷ (cbc, "StartDate") ∷ []) x)
          "line period start"
    period_end ←
        parse_optional_date (optional_text ((cac, "InvoicePeriod") ∷ (cbc, "EndDate") ∷ []) x)
          "line period end"
    ok (record {
      identifier = identifier;
      quantity = quantity_value;
      unit_code = or_empty (attribute "unitCode" (attributes_of quantity));
      price = price_value;
      name = name;
      vat_category = vat_category;
      vat_rate = vat_rate;
      note = optional_text ((cbc, "Note") ∷ []) x;
      description = optional_text (item ((cbc, "Description") ∷ [])) x;
      period_start = period_start;
      period_end = period_end;
      order_line_identifier = optional_text ((cac, "OrderLineReference") ∷ (cbc, "LineID") ∷ []) x;
      seller_item_identifier =
          optional_text (item ((cac, "SellersItemIdentification") ∷ (cbc, "ID") ∷ [])) x;
      classification_code = optional_text classification x;
      classification_list = attribute_of "listID" (find classification x);
    })

  unfoldable pub parse_line : Text → Element → Result InvoiceLine
  unfolding find attribute parse_line_fields read_amount check_reported
  parse_line currency x = do
    line ← parse_line_fields x
    reported ← read_amount "line extension amount" extension_path x
    check_reported reported (line_extension line) "line extension amount"
    require (has_currency currency (find extension_path x)) (not_matching "line currency")
    ok line

  unfoldable pub parse_lines : Text → List Element → Result (List InvoiceLine)
  unfolding parse_line
  parse_lines currency [] = ok []
  parse_lines currency (x ∷ rest) = do
    line ← parse_line currency x
    lines ← parse_lines currency rest
    ok (line ∷ lines)

  unfoldable pub parse_fields : Element → Result Invoice
  unfolding find optional_text required_text parse_date parse_optional_date parse_party parse_lines
      children_with
  parse_fields root = do
    currency ← required_text "cbc:DocumentCurrencyCode" ((cbc, "DocumentCurrencyCode") ∷ []) root
    supplier ←
        found_or (find ((cac, "AccountingSupplierParty") ∷ (cac, "Party") ∷ []) root)
          (missing "supplier or customer party")
    customer ←
        found_or (find ((cac, "AccountingCustomerParty") ∷ (cac, "Party") ∷ []) root)
          (missing "supplier or customer party")
    let due = optional_text ((cac, "PaymentMeans") ∷ (cbc, "PaymentDueDate") ∷ []) root
    customization_id ← required_text "cbc:CustomizationID" ((cbc, "CustomizationID") ∷ []) root
    profile_id ← required_text "cbc:ProfileID" ((cbc, "ProfileID") ∷ []) root
    identifier ← required_text "cbc:ID" ((cbc, "ID") ∷ []) root
    issued ← required_text "cbc:IssueDate" ((cbc, "IssueDate") ∷ []) root
    issue_date ← parse_date issued "issue date"
    invoice_type_code ← required_text "cbc:InvoiceTypeCode" ((cbc, "InvoiceTypeCode") ∷ []) root
    buyer_reference ← required_text "cbc:BuyerReference" ((cbc, "BuyerReference") ∷ []) root
    seller ← parse_party supplier
    buyer ← parse_party customer
    payment_means_code ←
        required_text "cbc:PaymentMeansCode"
          ((cac, "PaymentMeans") ∷ (cbc, "PaymentMeansCode") ∷ []) root
    payee_account_identifier ←
        required_text "cac:PayeeFinancialAccount"
          ((cac, "PaymentMeans") ∷ (cac, "PayeeFinancialAccount") ∷ (cbc, "ID") ∷ []) root
    payment_terms ←
        required_text "cac:PaymentTerms" ((cac, "PaymentTerms") ∷ (cbc, "Note") ∷ []) root
    lines ← parse_lines currency (children_with cac "InvoiceLine" (parts_of root))
    payment_due_date ← parse_optional_date due "payment due date"
    ok (record {
      customization_id = customization_id;
      profile_id = profile_id;
      identifier = identifier;
      issue_date = issue_date;
      invoice_type_code = invoice_type_code;
      currency = currency;
      buyer_reference = buyer_reference;
      seller = seller;
      buyer = buyer;
      payment_means_code = payment_means_code;
      payee_account_identifier = payee_account_identifier;
      payment_terms = payment_terms;
      lines = lines;
      note = optional_text ((cbc, "Note") ∷ []) root;
      payment_due_date = payment_due_date;
    })

module _ ⦃host : Host⦄ ⦃reader : Reader⦄ where
  unfoldable pub parse_tree : Element → Result Invoice
  unfolding parse_fields read_amount check_reported
  parse_tree root = do
    require (is_invoice root) (missing "UBL Invoice")
    invoice ← parse_fields root
    validate invoice
    lines ← read_amount "line total" (total_path "LineExtensionAmount") root
    tax ← read_amount "tax total" tax_path root
    payable ← read_amount "payable total" (total_path "PayableAmount") root
    check_reported lines (line_total invoice) "line total"
    check_reported tax (tax_total invoice) "tax total"
    check_reported payable (payable_total invoice) "payable total"
    ok invoice
