-- ===== src/Shrink/Steps.antt =====
-- `one_step_reductions` of src/rechnungsprobe/shrink.py.
use rechnungsprobe.Prelude.{
  ℕ, zero, suc, ◌+◌, Text, not, ◌&&◌, Option, none, some, List, [], ◌∷◌, ◌++◌, map, take, drop,
  length, ltb, text_eq, contains, if◌then◌else◌,
}
use rechnungsprobe.Errors.{Result, ok, err, model_error, ◌>>=◌, ◌>>◌}
use rechnungsprobe.Model.Invoice.{InvoiceLine, Invoice, Host}
use rechnungsprobe.Model.Validate.{validate}
use rechnungsprobe.Model.Fingerprint.{semantic_fingerprint}
use rechnungsprobe.Shrink.Operations.{
  PartyName, InvoiceTextField, TextOperation, Operation, Reduction, text_reductions,
}
use rechnungsprobe.Shrink.Parties.{party_reductions}
use rechnungsprobe.Shrink.Lines.{line_reductions}

-- `getattr(invoice, name)` on a text field
unfoldable pub invoice_text : InvoiceTextField → Invoice → Text
invoice_text InvoiceTextField.identifier i = i.identifier
invoice_text InvoiceTextField.buyer_reference i = i.buyer_reference
invoice_text InvoiceTextField.payment_terms i = i.payment_terms
invoice_text InvoiceTextField.payee_account_identifier i = i.payee_account_identifier

unfoldable pub replace_invoice_text : Invoice → InvoiceTextField → Text → Invoice
replace_invoice_text i InvoiceTextField.identifier v = record i { identifier = v }
replace_invoice_text i InvoiceTextField.buyer_reference v = record i { buyer_reference = v }
replace_invoice_text i InvoiceTextField.payment_terms v = record i { payment_terms = v }
replace_invoice_text i InvoiceTextField.payee_account_identifier v = record i {
  payee_account_identifier = v;
}

abbrev pub invoice_text_fields : List InvoiceTextField
invoice_text_fields =
    InvoiceTextField.identifier ∷ InvoiceTextField.buyer_reference ∷ InvoiceTextField.payment_terms
    ∷ InvoiceTextField.payee_account_identifier ∷ []

abbrev pub header_removal {ℓ} : {A : Type ℓ} → Operation → Invoice → Option A → List Reduction
header_removal operation reduced none = []
header_removal operation reduced (some value) =
    record { operation = operation; invoice = reduced } ∷ []

-- `for index in range(n - 1, -1, -1)`: the line at each index is left out.
unfoldable pub line_drops : Invoice → ℕ → List Reduction
line_drops i zero = []
line_drops i (suc index) =
    record {
      operation = Operation.remove_line index;
      invoice = record i { lines = take index i.lines ++ drop (index + 1) i.lines };
    }
    ∷ line_drops i index

abbrev pub invoice_text_reduction : Invoice → InvoiceTextField → TextOperation × Text → Reduction
invoice_text_reduction i field (operation, value) = record {
  operation = Operation.invoice_text field operation;
  invoice = replace_invoice_text i field value;
}

unfoldable pub invoice_text_reductions : Invoice → List InvoiceTextField → List Reduction
invoice_text_reductions i [] = []
invoice_text_reductions i (field ∷ rest) =
    map (invoice_text_reduction i field) (text_reductions (invoice_text field i))
    ++ invoice_text_reductions i rest

-- `for index, line in enumerate(invoice.lines)`
unfoldable pub all_line_reductions : Invoice → ℕ → List InvoiceLine → Result (List Reduction)
all_line_reductions i index [] = ok []
all_line_reductions i index (l ∷ rest) = do
  first ← line_reductions i index l
  others ← all_line_reductions i (index + 1) rest
  ok (first ++ others)

-- The candidates in their order, those of the lines last.
abbrev pub ordered_candidates : Invoice → List Reduction → List Reduction
ordered_candidates i lines =
    header_removal Operation.remove_invoice_note (record i { note = none }) i.note
    ++ (header_removal Operation.remove_payment_due_date (record i { payment_due_date = none })
          i.payment_due_date
        ++ ((if ltb 1 (length i.lines) then line_drops i (length i.lines) else [])
            ++ (party_reductions i PartyName.seller i.seller
                ++ (party_reductions i PartyName.buyer i.buyer
                    ++ (invoice_text_reductions i invoice_text_fields ++ lines)))))

-- Every candidate, before the invalid and the repeated ones are left out.
unfoldable pub candidates : Invoice → Result (List Reduction)
candidates i = do lines ← all_line_reductions i 0 i.lines; ok (ordered_candidates i lines)

module _ ⦃host : Host⦄ where
  -- The body of the `try`.
  unfoldable pub candidate_fingerprint : Invoice → Result Text
  candidate_fingerprint i = do validate i; semantic_fingerprint i

  -- The loop that keeps the first valid candidate of each new fingerprint; `next` goes on after a
  -- candidate that is kept, and after one that is passed over.
  abbrev pub keep_one :
      Text
      → List Text
      → Reduction
      → (List Text → Result (List Reduction))
      → Result Text
      → Result (List Reduction)
  keep_one original seen r next (err (model_error e)) = next seen
  keep_one original seen r next (err e) = err e
  keep_one original seen r next (ok fingerprint) =
      if not (text_eq fingerprint original) && not (contains fingerprint seen)
      then (next (fingerprint ∷ seen) >>= λ others. ok (r ∷ others))
      else next seen

  unfoldable pub keep_unique : Text → List Text → List Reduction → Result (List Reduction)
  keep_unique original seen [] = ok []
  keep_unique original seen (r ∷ rest) =
      keep_one original seen r (λ seen'. keep_unique original seen' rest)
        (candidate_fingerprint r.invoice)

  unfoldable pub one_step_reductions : Invoice → Result (List Reduction)
  one_step_reductions i = do
    validate i
    reductions ← candidates i
    original ← semantic_fingerprint i
    keep_unique original [] reductions
