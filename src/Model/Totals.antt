-- ===== src/Model/Totals.antt =====
-- The totals and the number formats of src/rechnungsprobe/model.py.
use rechnungsprobe.Prelude.{Text, codes, List, [], ◌∷◌, if◌then◌else◌}
use rechnungsprobe.Errors.{Result, ok, ◌>>=◌}
use rechnungsprobe.Decimal.{
  Decimal, whole, mul, add, hundredth, quantize, half_up, half_even, normalize, decimal_eq,
  format_plain,
}
use rechnungsprobe.Model.Invoice.{InvoiceLine, Invoice}

unfoldable pub line_extension : InvoiceLine → Result Decimal
line_extension l = quantize half_up (mul l.quantity l.price)

-- `sum(..., Decimal())` over amounts that may each fail
unfoldable pub sum_of : (InvoiceLine → Result Decimal) → Decimal → List InvoiceLine → Result Decimal
sum_of amount total [] = ok total
sum_of amount total (l ∷ rest) = do x ← amount l; sum_of amount (add total x) rest

unfoldable pub line_total : Invoice → Result Decimal
line_total i = do total ← sum_of line_extension (whole 0) i.lines; quantize half_even total

unfoldable pub line_tax : InvoiceLine → Result Decimal
line_tax l = do
  extension ← line_extension l
  quantize half_up (hundredth (mul extension l.vat_rate))

unfoldable pub tax_total : Invoice → Result Decimal
tax_total i = do total ← sum_of line_tax (whole 0) i.lines; quantize half_even total

unfoldable pub payable_total : Invoice → Result Decimal
payable_total i = do lines ← line_total i; tax ← tax_total i; quantize half_even (add lines tax)

unfoldable pub decimal_text : Decimal → Text
decimal_text value =
    let normalized = normalize value in
    if decimal_eq normalized (whole 0) then codes "0" else format_plain normalized

unfoldable pub money_text : Decimal → Result Text
money_text value = do q ← quantize half_up value; ok (format_plain q)
