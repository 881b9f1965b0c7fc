-- ===== src/Model/Validate.antt =====
-- The validation of src/rechnungsprobe/model.py, check by check in the program's order.
pub mod Values
pub mod Meaning
pub mod Parts
pub mod Exact
use rechnungsprobe.Prelude.{
  ℕ, ◌+◌, String, Bool, true, false, not, ◌||◌, ◌&&◌, Option, none, some, List, [], ◌∷◌, ◌++◌, Text,
  codes, text_eq, contains, ltb, leb, ◌==◌, if◌then◌else◌, length, any, all,
}
use rechnungsprobe.Errors.{
  Place, document, seller, buyer, line_at, ModelError, invalid_length, control_character,
  not_finite, not_positive, negative_number, out_of_bounds, country_code_form, endpoint_form,
  vat_category_form, period_incomplete, period_reversed, classification_incomplete,
  unsupported_currency, line_count, duplicate_line_identifier, several_vat_rates,
  due_date_before_issue, Error, model_error, Result, ok, err, guard, ◌>>=◌, ◌>>◌,
}
use rechnungsprobe.Decimal.{
  Decimal, is_finite, is_at_most_zero, is_negative, exceeds, has_more_than_six_places, normalize,
  decimal_eq,
}
use rechnungsprobe.Model.Invoice.{Party, InvoiceLine, Invoice, Date, is_before, Host}

-- `raise ModelError` unless the test holds.
abbrev pub require : Bool → ModelError → Result (Unit {0})
require b e = guard b (model_error e)

unfoldable pub is_control : ℕ → Bool
is_control c = ltb c 32 && not (c == 9 || c == 10 || c == 13)

unfoldable pub validate_present : Text → Place → String → ℕ → Result (Unit {0})
validate_present value place field limit = do
  require (not (length value == 0) && leb (length value) limit) (invalid_length place field)
  require (not (any is_control value)) (control_character place field)

unfoldable pub validate_text : Option Text → Place → String → ℕ → Result (Unit {0})
unfolding validate_present
validate_text none place field limit = ok tt
validate_text (some value) place field limit = validate_present value place field limit

-- `for name in (...): _validate_text(getattr(self, name), ...)`
unfoldable pub validate_texts : Place → ℕ → List (String × Option Text) → Result (Unit {0})
unfolding validate_text
validate_texts place limit [] = ok tt
validate_texts place limit ((field, value) ∷ rest) = do
  validate_text value place field limit
  validate_texts place limit rest

abbrev pub admits_sign : Bool → Decimal → Bool
admits_sign true value = not (is_at_most_zero value)
admits_sign false value = not (is_negative value)

abbrev pub sign_error : Bool → Place → String → ModelError
sign_error true place field = not_positive place field
sign_error false place field = negative_number place field

unfoldable pub validate_decimal : Decimal → Place → String → Bool → Result (Unit {0})
validate_decimal value place field positive = do
  require (is_finite value) (not_finite place field)
  require (admits_sign positive value) (sign_error positive place field)
  require (not (exceeds 1000000000 value || has_more_than_six_places value))
      (out_of_bounds place field)

abbrev pub party_texts : Party → List (String × Option Text)
party_texts p =
    ("endpoint", some p.endpoint)
    ∷ ("endpoint_scheme", some p.endpoint_scheme)
    ∷ ("registration_name", some p.registration_name)
    ∷ ("street", some p.street)
    ∷ ("city", some p.city)
    ∷ ("postal_code", some p.postal_code)
    ∷ ("country_code", some p.country_code)
    ∷ ("trading_name", p.trading_name)
    ∷ ("tax_identifier", p.tax_identifier)
    ∷ ("legal_identifier", p.legal_identifier)
    ∷ ("legal_form", p.legal_form)
    ∷ ("party_identifier", p.party_identifier)
    ∷ ("contact_name", p.contact_name)
    ∷ ("contact_phone", p.contact_phone)
    ∷ ("contact_email", p.contact_email)
    ∷ []

abbrev pub line_texts : InvoiceLine → List (String × Option Text)
line_texts l =
    ("identifier", some l.identifier)
    ∷ ("unit_code", some l.unit_code)
    ∷ ("name", some l.name)
    ∷ ("vat_category", some l.vat_category)
    ∷ []

abbrev pub line_long_texts : InvoiceLine → List (String × Option Text)
line_long_texts l =
    ("note", l.note)
    ∷ ("description", l.description)
    ∷ ("order_line_identifier", l.order_line_identifier)
    ∷ ("seller_item_identifier", l.seller_item_identifier)
    ∷ ("classification_code", l.classification_code)
    ∷ ("classification_list", l.classification_list)
    ∷ []

abbrev pub invoice_texts : Invoice → List (String × Option Text)
invoice_texts i =
    ("customization_id", some i.customization_id)
    ∷ ("profile_id", some i.profile_id)
    ∷ ("identifier", some i.identifier)
    ∷ ("invoice_type_code", some i.invoice_type_code)
    ∷ ("currency", some i.currency)
    ∷ ("buyer_reference", some i.buyer_reference)
    ∷ ("payment_means_code", some i.payment_means_code)
    ∷ ("payee_account_identifier", some i.payee_account_identifier)
    ∷ ("payment_terms", some i.payment_terms)
    ∷ ("note", i.note)
    ∷ []

-- `(a is None) == (b is None)`
unfoldable pub both_or_none {ℓ} : {A B : Type ℓ} → Option A → Option B → Bool
both_or_none none none = true
both_or_none none (some b) = false
both_or_none (some a) none = false
both_or_none (some a) (some b) = true

-- A period whose end is not before its start, or no complete period.
unfoldable pub in_order : Option Date → Option Date → Bool
in_order (some start) (some end) = not (is_before end start)
in_order (some start) none = true
in_order none end = true

module _ ⦃host : Host⦄ where
  unfoldable pub validate_party : Place → Party → Result (Unit {0})
  unfolding validate_texts
  validate_party place p = do
    validate_texts place 1000 (party_texts p)
    require (length p.country_code == 2 && all host.is_alpha p.country_code)
        (country_code_form place)
    require (not (text_eq p.endpoint_scheme (codes "EM")) || any (λ c. c == b'@') p.endpoint)
        (endpoint_form place)

unfoldable pub validate_line : ℕ → InvoiceLine → Result (Unit {0})
unfolding validate_texts validate_decimal
validate_line index l = do
  let place = line_at index
  validate_texts place 1000 (line_texts l)
  validate_texts place 5000 (line_long_texts l)
  validate_decimal l.quantity place "quantity" true
  validate_decimal l.price place "price" false
  validate_decimal l.vat_rate place "vat_rate" true
  require (text_eq l.vat_category (codes "S")) (vat_category_form place)
  require (both_or_none l.period_start l.period_end) (period_incomplete place)
  require (in_order l.period_start l.period_end) (period_reversed place)
  require (both_or_none l.classification_code l.classification_list)
      (classification_incomplete place)

-- `rates.add(rate)` on a set of decimals, which are told apart by value.
unfoldable pub add_rate : Decimal → List Decimal → List Decimal
add_rate rate rates = if any (decimal_eq rate) rates then rates else rate ∷ rates

-- The loop over the lines; it returns the set of rates.
unfoldable pub validate_lines :
    ℕ → List Text → List Decimal → List InvoiceLine → Result (List Decimal)
unfolding validate_line add_rate
validate_lines index identifiers rates [] = ok rates
validate_lines index identifiers rates (l ∷ rest) = do
  validate_line index l
  require (not (contains l.identifier identifiers)) duplicate_line_identifier
  validate_lines (index + 1) (l.identifier ∷ identifiers) (add_rate (normalize l.vat_rate) rates)
      rest

unfoldable pub due_in_time : Option Date → Date → Bool
due_in_time none issued = true
due_in_time (some due) issued = not (is_before due issued)

module _ ⦃host : Host⦄ where
  unfoldable pub validate : Invoice → Result (Unit {0})
  unfolding validate_texts validate_party validate_lines
  validate i = do
    validate_texts document 5000 (invoice_texts i)
    validate_party seller i.seller
    validate_party buyer i.buyer
    require (text_eq i.currency (codes "EUR")) unsupported_currency
    require (leb 1 (length i.lines) && leb (length i.lines) 100) line_count
    rates ← validate_lines 0 [] [] i.lines
    require (length rates == 1) several_vat_rates
    require (due_in_time i.payment_due_date i.issue_date) due_date_before_issue
