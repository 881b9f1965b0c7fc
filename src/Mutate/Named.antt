-- ===== src/Mutate/Named.antt =====
-- The table `MUTATORS` and `mutate` of src/rechnungsprobe/mutators.py.
use rechnungsprobe.Prelude.{
  ℕ, Text, codes, text_eq, Option, none, some, List, [], ◌∷◌, if◌then◌else◌,
}
use rechnungsprobe.Errors.{Result, ok, err, value_error, ◌>>=◌, ◌>>◌}
use rechnungsprobe.Model.Invoice.{Invoice, Host}
use rechnungsprobe.Model.Validate.{validate}
use rechnungsprobe.Mutate.Fields.{
  invoice_id, buyer_reference, invoice_note_unicode, seller_endpoint, buyer_endpoint, seller_name,
  buyer_name, payment_terms, line_order, line_description, line_identifier, quantity_scale,
  price_scale, vat_rate, line_note, seller_identifier, address_variant, add_line, remove_optionals,
  payment_due_date,
}

abbrev pub Mutator : Type 0
Mutator = Invoice → ℕ → Result Invoice

unfoldable pub mutators : List (Text × Mutator)
mutators =
    (codes "invoice-id", invoice_id)
    ∷ (codes "buyer-reference", buyer_reference)
    ∷ (codes "invoice-note-unicode", invoice_note_unicode)
    ∷ (codes "seller-endpoint", seller_endpoint)
    ∷ (codes "buyer-endpoint", buyer_endpoint)
    ∷ (codes "seller-name", seller_name)
    ∷ (codes "buyer-name", buyer_name)
    ∷ (codes "payment-terms", payment_terms)
    ∷ (codes "line-order", line_order)
    ∷ (codes "line-description", line_description)
    ∷ (codes "line-identifier", line_identifier)
    ∷ (codes "quantity-scale", quantity_scale)
    ∷ (codes "price-scale", price_scale)
    ∷ (codes "vat-rate", vat_rate)
    ∷ (codes "line-note", line_note)
    ∷ (codes "seller-identifier", seller_identifier)
    ∷ (codes "address-variant", address_variant)
    ∷ (codes "add-line", add_line)
    ∷ (codes "remove-optionals", remove_optionals)
    ∷ (codes "payment-due-date", payment_due_date)
    ∷ []

unfoldable pub find_mutator : Text → List (Text × Mutator) → Option Mutator
find_mutator name [] = none
find_mutator name ((key, mutator) ∷ rest) =
    let later = find_mutator name rest in if text_eq key name then some mutator else later

abbrev pub found : Option Mutator → Result Mutator
found none = err (value_error "unknown mutator")
found (some mutator) = ok mutator

module _ ⦃host : Host⦄ where
  unfoldable pub mutate : Invoice → Text → ℕ → Result Invoice
  mutate i name token = do
    validate i
    mutator ← found (find_mutator name mutators)
    mutated ← mutator i token
    validate mutated
    ok mutated
