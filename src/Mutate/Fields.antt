-- ===== src/Mutate/Fields.antt =====
-- The mutators of src/rechnungsprobe/mutators.py that set fields, one function for each.
use rechnungsprobe.Prelude.{
  ℕ, false, ◌+◌, ◌*◌, ◌/◌, ◌%◌, codes, show_ℕ, pad, none, some, List, [], ◌∷◌, ◌++◌, map, ◌==◌,
  if◌then◌else◌,
}
use rechnungsprobe.Prelude.Int.{pos, negsuc}
use rechnungsprobe.Errors.{Result, ok, err, index_error, ◌>>=◌}
use rechnungsprobe.Decimal.{Decimal, finite, whole, half_even, quantize, decimal_eq}
use rechnungsprobe.Model.Invoice.{Invoice, InvoiceLine}
use rechnungsprobe.Mutate.Calendar.{add_days}

-- `_replace_first` with a change of `invoice.lines[0]`
abbrev pub replace_first : Invoice → (InvoiceLine → InvoiceLine) → Result Invoice
replace_first i change = elim i.lines [
  | [] ↦ err index_error
  | l ∷ rest ↦ ok (record i { lines = change l ∷ rest })
]

-- The quotient of two whole decimals, exact with at most two places as both callers have it.
unfoldable pub divided : ℕ → ℕ → Decimal
divided n d =
    if n % d == 0
    then finite false (n / d) (pos 0)
    else if n * 10 % d == 0
    then finite false (n * 10 / d) (negsuc 0)
    else finite false (n * 100 / d) (negsuc 1)

unfoldable pub invoice_id : Invoice → ℕ → Result Invoice
unfolding pad
invoice_id i token = ok (record i { identifier = codes "RP-" ++ pad 8 token })

unfoldable pub buyer_reference : Invoice → ℕ → Result Invoice
unfolding pad
buyer_reference i token = ok (record i { buyer_reference = codes "LEITWEG-ID-" ++ pad 8 token })

unfoldable pub invoice_note_unicode : Invoice → ℕ → Result Invoice
unfolding show_ℕ
invoice_note_unicode i token = ok (record i {
  note = some (codes "Prüfung № " ++ (show_ℕ token ++ codes " – gültige Unicode-Zeichen"));
})

unfoldable pub seller_endpoint : Invoice → ℕ → Result Invoice
unfolding show_ℕ
seller_endpoint i token =
    let endpoint = codes "seller-" ++ (show_ℕ token ++ codes "@example.invalid") in
    ok (record i { seller = record i.seller { endpoint = endpoint } })

unfoldable pub buyer_endpoint : Invoice → ℕ → Result Invoice
unfolding show_ℕ
buyer_endpoint i token =
    let endpoint = codes "buyer-" ++ (show_ℕ token ++ codes "@example.invalid") in
    ok (record i { buyer = record i.buyer { endpoint = endpoint } })

unfoldable pub seller_name : Invoice → ℕ → Result Invoice
unfolding show_ℕ
seller_name i token = ok (record i {
  seller = record i.seller {
    trading_name = some (codes "Musterlieferant " ++ show_ℕ token);
    registration_name = codes "Musterlieferant GmbH " ++ show_ℕ token;
  };
})

unfoldable pub buyer_name : Invoice → ℕ → Result Invoice
unfolding show_ℕ
buyer_name i token =
    let name = codes "Musterkunde " ++ show_ℕ token in
    ok (record i { buyer = record i.buyer { registration_name = name } })

unfoldable pub payment_terms : Invoice → ℕ → Result Invoice
unfolding show_ℕ
payment_terms i token =
    let days = token % 28 + 1 in
    ok (record i {
      payment_terms = codes "Zahlbar innerhalb von " ++ (show_ℕ days ++ codes " Tagen.");
    })

abbrev reversed : List InvoiceLine → List InvoiceLine → List InvoiceLine
reversed [] done = done
reversed (l ∷ rest) done = reversed rest (l ∷ done)

unfoldable pub line_order : Invoice → ℕ → Result Invoice
line_order i token = ok (record i { lines = reversed i.lines [] })

unfoldable pub line_description : Invoice → ℕ → Result Invoice
unfolding show_ℕ
line_description i token =
    replace_first i
      λ l. record l { description = some (codes "Leistung – Variante " ++ show_ℕ token) }

unfoldable pub line_identifier : Invoice → ℕ → Result Invoice
unfolding pad
line_identifier i token =
    replace_first i λ l. record l { identifier = codes "POSITION-" ++ pad 8 token }

unfoldable pub quantity_scale : Invoice → ℕ → Result Invoice
unfolding divided
quantity_scale i token =
    let quantity = divided (token % 7 + 2) 4 in
    replace_first i λ l. record l { quantity = quantity }

unfoldable pub price_scale : Invoice → ℕ → Result Invoice
unfolding divided quantize
price_scale i token = do
  price ← quantize half_even (divided (token % 997 + 101) 100)
  replace_first i λ l. record l { price = price }

unfoldable pub vat_rate : Invoice → ℕ → Result Invoice
unfolding decimal_eq
vat_rate i token = elim i.lines [
  | [] ↦ err index_error
  | l ∷ rest ↦
      let rate = if decimal_eq l.vat_rate (whole 19) then whole 7 else whole 19 in
      ok (record i { lines = map {A = InvoiceLine} (λ x. record x { vat_rate = rate }) (l ∷ rest) })
]

unfoldable pub line_note : Invoice → ℕ → Result Invoice
unfolding show_ℕ
line_note i token =
    replace_first i λ l. record l { note = some (codes "Hinweis zur Position " ++ show_ℕ token) }

unfoldable pub seller_identifier : Invoice → ℕ → Result Invoice
unfolding pad
seller_identifier i token =
    let identifier = codes "DE-RP-" ++ pad 8 token in
    ok (record i { seller = record i.seller { party_identifier = some identifier } })

unfoldable pub address_variant : Invoice → ℕ → Result Invoice
unfolding show_ℕ
address_variant i token = ok (record i {
  seller = record i.seller {
    street = codes "Prüfstraße " ++ show_ℕ (token % 200 + 1);
    city = codes "Köln";
    postal_code = codes "50667";
  };
})

-- The optional fields of a line, all removed
abbrev without_optionals : InvoiceLine → InvoiceLine
without_optionals l = record l {
  note = none;
  description = none;
  period_start = none;
  period_end = none;
  order_line_identifier = none;
  seller_item_identifier = none;
  classification_code = none;
  classification_list = none;
}

unfoldable pub add_line : Invoice → ℕ → Result Invoice
unfolding show_ℕ pad
add_line i token = elim i.lines [
  | [] ↦ err index_error
  | l ∷ rest ↦
      let added = record (without_optionals l) {
        identifier = codes "ZUSATZ-" ++ pad 8 token;
        quantity = whole 1;
        price = finite false 100 (negsuc 1);
        name = codes "Zusatzposition " ++ show_ℕ token;
      } in
      ok (record i { lines = (l ∷ rest) ++ added ∷ [] })
]

unfoldable pub remove_optionals : Invoice → ℕ → Result Invoice
remove_optionals i token =
    replace_first i without_optionals >>= λ changed. ok (record changed { note = none })

unfoldable pub payment_due_date : Invoice → ℕ → Result Invoice
unfolding add_days
payment_due_date i token = do
  due ← add_days i.issue_date (token % 28 + 1)
  ok (record i { payment_due_date = some due })
