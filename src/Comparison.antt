-- ===== src/Comparison.antt =====
-- `compare_semantics` of src/rechnungsprobe/comparison.py. The generic walk over dataclass fields is
-- written out as a table of the fields of each class, in the order of their declaration.
pub mod Exact
use rechnungsprobe.Prelude.{
  ℕ, ◌+◌, Text, codes, String, text_eq, contains, any, show_ℕ, Bool, true, false, not, ◌&&◌, ◌==◌,
  Option, none, some, List, [], ◌∷◌, ◌++◌, length, if◌then◌else◌,
}
use rechnungsprobe.Errors.{Result, ok, err, ◌>>=◌, ◌>>◌}
use rechnungsprobe.Decimal.{Decimal, decimal_eq}
use rechnungsprobe.Model.Invoice.{Date, Party, InvoiceLine, Invoice, Host}
use rechnungsprobe.Model.Validate.{validate}
use rechnungsprobe.Model.Totals.{line_total, tax_total, payable_total}
use rechnungsprobe.Findings.{total_fields}

pub record SemanticComparison : Type 0 where
  pub imported_changed_fields : List Text
  pub roundtrip_changed_fields : List Text
  pub totals_or_tax_changed : Bool
  pub roundtrip_loss : Bool

-- The values of the fields that are not dataclasses or tuples of them
pub data Value : Type 0 where
  text : Option Text → Value
  number : Decimal → Value
  date : Option Date → Value

unfoldable pub text_option_eq : Option Text → Option Text → Bool
text_option_eq none none = true
text_option_eq none (some b) = false
text_option_eq (some a) none = false
text_option_eq (some a) (some b) = text_eq a b

unfoldable pub date_option_eq : Option Date → Option Date → Bool
date_option_eq none none = true
date_option_eq none (some b) = false
date_option_eq (some a) none = false
date_option_eq (some a) (some b) = a.year == b.year && (a.month == b.month && a.day == b.day)

-- `before == after`
unfoldable pub value_eq : Value → Value → Bool
value_eq (text a) (text b) = text_option_eq a b
value_eq (number a) (number b) = decimal_eq a b
value_eq (date a) (date b) = date_option_eq a b
value_eq a b = false

abbrev pub Fields : Type 0 → Type 0
Fields A = List (String × (A → Value))

abbrev pub party_fields : Fields Party
party_fields =
    ("endpoint", λ p. text (some p.endpoint))
    ∷ ("endpoint_scheme", λ p. text (some p.endpoint_scheme))
    ∷ ("registration_name", λ p. text (some p.registration_name))
    ∷ ("street", λ p. text (some p.street))
    ∷ ("city", λ p. text (some p.city))
    ∷ ("postal_code", λ p. text (some p.postal_code))
    ∷ ("country_code", λ p. text (some p.country_code))
    ∷ ("trading_name", λ p. text p.trading_name)
    ∷ ("tax_identifier", λ p. text p.tax_identifier)
    ∷ ("legal_identifier", λ p. text p.legal_identifier)
    ∷ ("legal_form", λ p. text p.legal_form)
    ∷ ("party_identifier", λ p. text p.party_identifier)
    ∷ ("contact_name", λ p. text p.contact_name)
    ∷ ("contact_phone", λ p. text p.contact_phone)
    ∷ ("contact_email", λ p. text p.contact_email)
    ∷ []

abbrev pub line_fields : Fields InvoiceLine
line_fields =
    ("identifier", λ l. text (some l.identifier))
    ∷ ("quantity", λ l. number l.quantity)
    ∷ ("unit_code", λ l. text (some l.unit_code))
    ∷ ("price", λ l. number l.price)
    ∷ ("name", λ l. text (some l.name))
    ∷ ("vat_category", λ l. text (some l.vat_category))
    ∷ ("vat_rate", λ l. number l.vat_rate)
    ∷ ("note", λ l. text l.note)
    ∷ ("description", λ l. text l.description)
    ∷ ("period_start", λ l. date l.period_start)
    ∷ ("period_end", λ l. date l.period_end)
    ∷ ("order_line_identifier", λ l. text l.order_line_identifier)
    ∷ ("seller_item_identifier", λ l. text l.seller_item_identifier)
    ∷ ("classification_code", λ l. text l.classification_code)
    ∷ ("classification_list", λ l. text l.classification_list)
    ∷ []

-- The fields of an invoice before its parties, between them and its lines, and after those
abbrev pub first_fields : Fields Invoice
first_fields =
    ("customization_id", λ i. text (some i.customization_id))
    ∷ ("profile_id", λ i. text (some i.profile_id))
    ∷ ("identifier", λ i. text (some i.identifier))
    ∷ ("issue_date", λ i. date (some i.issue_date))
    ∷ ("invoice_type_code", λ i. text (some i.invoice_type_code))
    ∷ ("currency", λ i. text (some i.currency))
    ∷ ("buyer_reference", λ i. text (some i.buyer_reference))
    ∷ []

abbrev pub payment_fields : Fields Invoice
payment_fields =
    ("payment_means_code", λ i. text (some i.payment_means_code))
    ∷ ("payee_account_identifier", λ i. text (some i.payee_account_identifier))
    ∷ ("payment_terms", λ i. text (some i.payment_terms))
    ∷ []

abbrev pub last_fields : Fields Invoice
last_fields = ("note", λ i. text i.note) ∷ ("payment_due_date", λ i. date i.payment_due_date) ∷ []

-- `f"{prefix}.{field.name}" if prefix else field.name`
abbrev qualified : Text → Text → Text
qualified [] name = name
qualified (c ∷ prefix) name = c ∷ prefix ++ (b'.' ∷ name)

unfoldable pub changed_by : {A : Type 0} → Text → Fields A → A → A → List Text
changed_by prefix [] before after = []
changed_by prefix ((name, get) ∷ rest) before after =
    let later = changed_by prefix rest before after in
    if value_eq (get before) (get after) then later else qualified prefix (codes name) ∷ later

-- The tuples of lines, from an index on: the common ones first, then the lengths.
unfoldable pub changed_lines : ℕ → List InvoiceLine → List InvoiceLine → List Text
unfolding changed_by show_ℕ
changed_lines index [] [] = []
changed_lines index [] (b ∷ after) = codes "lines.length" ∷ []
changed_lines index (a ∷ before) [] = codes "lines.length" ∷ []
changed_lines index (a ∷ before) (b ∷ after) =
    changed_by (codes "lines[" ++ (show_ℕ index ++ codes "]")) line_fields a b
    ++ changed_lines (index + 1) before after

unfoldable pub changed_fields : Invoice → Invoice → List Text
unfolding changed_by changed_lines
changed_fields before after =
    changed_by [] first_fields before after
    ++ (changed_by (codes "seller") party_fields before.seller after.seller
        ++ (changed_by (codes "buyer") party_fields before.buyer after.buyer
            ++ (changed_by [] payment_fields before after
                ++ (changed_lines 0 before.lines after.lines
                    ++ changed_by [] last_fields before after))))

abbrev total_change : Text → Decimal → Decimal → List Text
total_change field a b = if decimal_eq a b then [] else field ∷ []

unfoldable pub invoice_changes : Invoice → Invoice → Result (List Text)
unfolding changed_fields
invoice_changes before after = do
  a ← line_total before
  b ← line_total after
  c ← tax_total before
  d ← tax_total after
  e ← payable_total before
  f ← payable_total after
  ok (
      changed_fields before after
      ++ (total_change (codes "line_total") a b
          ++ (total_change (codes "tax_total") c d ++ total_change (codes "payable_total") e f)))

-- Python's truth of a tuple
abbrev is_nonempty : List Text → Bool
is_nonempty [] = false
is_nonempty (x ∷ xs) = true

module _ ⦃host : Host⦄ where
  unfoldable pub compare_semantics : Invoice → Invoice → Invoice → Result SemanticComparison
  unfolding invoice_changes
  compare_semantics source imported roundtrip = do
    validate source
    validate imported
    validate roundtrip
    imported_changes ← invoice_changes source imported
    roundtrip_changes ← invoice_changes imported roundtrip
    ok (record {
      imported_changed_fields = imported_changes;
      roundtrip_changed_fields = roundtrip_changes;
      totals_or_tax_changed =
          any (λ field. contains field total_fields) (imported_changes ++ roundtrip_changes);
      roundtrip_loss = is_nonempty roundtrip_changes;
    })
