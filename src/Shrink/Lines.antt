-- ===== src/Shrink/Lines.antt =====
-- The reductions of an invoice line in src/rechnungsprobe/shrink.py.
use rechnungsprobe.Prelude.{
  ℕ, Text, Option, none, some, List, [], ◌∷◌, ◌++◌, map, set, if◌then◌else◌,
}
use rechnungsprobe.Errors.{Result, ok, ◌>>=◌}
use rechnungsprobe.Decimal.{Decimal, whole, quantize, half_even, decimal_eq}
use rechnungsprobe.Model.Invoice.{InvoiceLine, Invoice}
use rechnungsprobe.Shrink.Operations.{
  LineOptionalField, LineTextField, NumericField, TextOperation, Operation, Reduction,
  text_reductions,
}

unfoldable pub replace_line : Invoice → ℕ → InvoiceLine → Invoice
replace_line i index l = record i { lines = set i.lines index l }

-- `getattr(line, name)` on an optional field
unfoldable pub line_optional : LineOptionalField → InvoiceLine → Option Text
line_optional LineOptionalField.note l = l.note
line_optional LineOptionalField.description l = l.description
line_optional LineOptionalField.order_line_identifier l = l.order_line_identifier
line_optional LineOptionalField.seller_item_identifier l = l.seller_item_identifier

unfoldable pub remove_line_optional : InvoiceLine → LineOptionalField → InvoiceLine
remove_line_optional l LineOptionalField.note = record l { note = none }
remove_line_optional l LineOptionalField.description = record l { description = none }
remove_line_optional l LineOptionalField.order_line_identifier = record l {
  order_line_identifier = none;
}
remove_line_optional l LineOptionalField.seller_item_identifier = record l {
  seller_item_identifier = none;
}

-- `getattr(line, name)` on a text field
unfoldable pub line_text : LineTextField → InvoiceLine → Option Text
line_text LineTextField.identifier l = some l.identifier
line_text LineTextField.name l = some l.name
line_text LineTextField.note l = l.note
line_text LineTextField.description l = l.description

unfoldable pub replace_line_text : InvoiceLine → LineTextField → Text → InvoiceLine
replace_line_text l LineTextField.identifier v = record l { identifier = v }
replace_line_text l LineTextField.name v = record l { name = v }
replace_line_text l LineTextField.note v = record l { note = some v }
replace_line_text l LineTextField.description v = record l { description = some v }

abbrev pub line_optional_fields : List LineOptionalField
line_optional_fields =
    LineOptionalField.note ∷ LineOptionalField.description ∷ LineOptionalField.order_line_identifier
    ∷ LineOptionalField.seller_item_identifier ∷ []

abbrev pub line_text_fields : List LineTextField
line_text_fields =
    LineTextField.identifier ∷ LineTextField.name ∷ LineTextField.note ∷ LineTextField.description
    ∷ []

-- One reduction of the line at an index, where the field in question is there.
abbrev pub if_present {ℓ} :
    {A : Type ℓ} → Invoice → ℕ → Operation → InvoiceLine → Option A → List Reduction
if_present i index operation l none = []
if_present i index operation l (some value) =
    record { operation = operation; invoice = replace_line i index l } ∷ []

unfoldable pub line_removals : Invoice → ℕ → InvoiceLine → List LineOptionalField → List Reduction
line_removals i index l [] = []
line_removals i index l (field ∷ rest) =
    if_present i index (Operation.remove_line_optional index field) (remove_line_optional l field)
      (line_optional field l)
    ++ line_removals i index l rest

unfoldable pub line_group_removals : Invoice → ℕ → InvoiceLine → List Reduction
line_group_removals i index l =
    if_present i index (Operation.remove_period index)
      (record l { period_start = none; period_end = none }) l.period_start
    ++ if_present i index (Operation.remove_classification index)
        (record l { classification_code = none; classification_list = none }) l.classification_code

abbrev pub line_text_reduction :
    Invoice → ℕ → InvoiceLine → LineTextField → TextOperation × Text → Reduction
line_text_reduction i index l field (operation, value) = record {
  operation = Operation.line_text index field operation;
  invoice = replace_line i index (replace_line_text l field value);
}

-- `if text_value is None: continue`
abbrev pub reductions_if_text : Option Text → List (TextOperation × Text)
reductions_if_text none = []
reductions_if_text (some value) = text_reductions value

unfoldable pub line_text_reductions :
    Invoice → ℕ → InvoiceLine → List LineTextField → List Reduction
line_text_reductions i index l [] = []
line_text_reductions i index l (field ∷ rest) =
    map (line_text_reduction i index l field) (reductions_if_text (line_text field l))
    ++ line_text_reductions i index l rest

unfoldable pub line_number : NumericField → InvoiceLine → Decimal
line_number NumericField.quantity l = l.quantity
line_number NumericField.price l = l.price

unfoldable pub replace_line_number : InvoiceLine → NumericField → Decimal → InvoiceLine
replace_line_number l NumericField.quantity v = record l { quantity = v }
replace_line_number l NumericField.price v = record l { price = v }

-- `if numeric_reduced != numeric_value: yield ...`
unfoldable pub number_reduction :
    Invoice → ℕ → InvoiceLine → NumericField → Decimal → List Reduction
number_reduction i index l field reduced =
    if decimal_eq reduced (line_number field l)
    then []
    else record {
      operation = Operation.line_number index field reduced;
      invoice = replace_line i index (replace_line_number l field reduced);
    }
      ∷ []

unfoldable pub number_reductions :
    Invoice → ℕ → InvoiceLine → NumericField → Result (List Reduction)
number_reductions i index l field = do
  cents ← quantize half_even (line_number field l)
  ok (number_reduction i index l field (whole 1) ++ number_reduction i index l field cents)

unfoldable pub line_reductions : Invoice → ℕ → InvoiceLine → Result (List Reduction)
line_reductions i index l = do
  quantities ← number_reductions i index l NumericField.quantity
  prices ← number_reductions i index l NumericField.price
  ok (
      line_removals i index l line_optional_fields
      ++ (line_group_removals i index l
          ++ (line_text_reductions i index l line_text_fields ++ (quantities ++ prices))))
