-- ===== src/Shrink/Smaller.antt =====
-- Every candidate of `one_step_reductions` is smaller than its invoice.
use native.Mathlib.Numerals.{add-one}
use rechnungsprobe.Prelude.{
  ℕ, zero, suc, ◌≤◌, ◌<◌, Text, Option, none, some, List, [], ◌∷◌, ◌++◌, take, drop, length, ◌≡◌,
  refl, arith, All, All-append, All-map, All-imp,
}
use rechnungsprobe.Model.Invoice.{Party, InvoiceLine, Invoice}
use rechnungsprobe.Shrink.Operations.{
  PartyName, PartyOptionalField, PartyTextField, InvoiceTextField, Reduction,
}
use rechnungsprobe.Shrink.Parties.{
  replace_party, party_optional, party_text, party_removal, party_removals, party_text_reductions,
  party_reductions, party_optional_fields, party_text_fields, party_text_reduction,
}
use rechnungsprobe.Shrink.Steps.{
  invoice_text, replace_invoice_text, line_drops, invoice_text_reductions, invoice_text_reduction,
}
use rechnungsprobe.Shrink.Size.{
  party_size, lines_size, invoice_size, text_reductions-IsShorter, remove_party_optional-lt,
  replace_party_text-lt,
}

abbrev pub IsSmaller : Invoice → Reduction → Type 0
IsSmaller i r = invoice_size r.invoice < invoice_size i

abbrev pub AreSmaller : Invoice → List Reduction → Type 0
AreSmaller i rs = All (IsSmaller i) rs

-- The party that a name stands for.
abbrev pub party_of : Invoice → PartyName → Party
party_of i PartyName.seller = i.seller
party_of i PartyName.buyer = i.buyer

replace_party-lt :
    (i : Invoice) (who : PartyName) (p : Party)
    → party_size p < party_size (party_of i who)
    → invoice_size (replace_party i who p) < invoice_size i
unfolding replace_party
replace_party-lt i PartyName.seller p h = omega arith
replace_party-lt i PartyName.buyer p h = omega arith

party_removal-AreSmaller :
    (i : Invoice) (who : PartyName) (field : PartyOptionalField) (o : Option Text)
    → party_optional field (party_of i who) ≡ o
    → AreSmaller i (party_removal i who (party_of i who) field o)
unfolding party_removal
party_removal-AreSmaller i who field none e = tt
party_removal-AreSmaller i who field (some v) e =
    (replace_party-lt i who _ (remove_party_optional-lt (party_of i who) field v e), tt)

party_removals-AreSmaller :
    (i : Invoice) (who : PartyName) (fields : List PartyOptionalField)
    → AreSmaller i (party_removals i who (party_of i who) fields)
unfolding party_removals
party_removals-AreSmaller i who [] = tt
party_removals-AreSmaller i who (field ∷ rest) =
    All-append (IsSmaller i) _ _ (party_removal-AreSmaller i who field _ refl)
      (party_removals-AreSmaller i who rest)

party_texts-AreSmaller :
    (i : Invoice) (who : PartyName) (fields : List PartyTextField)
    → AreSmaller i (party_text_reductions i who (party_of i who) fields)
unfolding party_text_reductions
party_texts-AreSmaller i who [] = tt
party_texts-AreSmaller i who (field ∷ rest) =
    All-append (IsSmaller i) _ _
      (All-map (IsSmaller i) (party_text_reduction i who (party_of i who) field) _ (
        All-imp _ _
          (λ p h. replace_party-lt i who _ (replace_party_text-lt (party_of i who) field p.1 h.1)) _
          (text_reductions-IsShorter (party_text field (party_of i who)))))
      (party_texts-AreSmaller i who rest)

pub party_reductions-AreSmaller :
    (i : Invoice) (who : PartyName) → AreSmaller i (party_reductions i who (party_of i who))
unfolding party_reductions
party_reductions-AreSmaller i who =
    All-append (IsSmaller i) _ _ (party_removals-AreSmaller i who party_optional_fields)
      (party_texts-AreSmaller i who party_text_fields)

replace_invoice_text-lt :
    (i : Invoice) (field : InvoiceTextField) (v : Text)
    → length v < length (invoice_text field i)
    → invoice_size (replace_invoice_text i field v) < invoice_size i
unfolding invoice_text replace_invoice_text
replace_invoice_text-lt i InvoiceTextField.identifier v h = omega arith
replace_invoice_text-lt i _ v h = omega arith

pub invoice_texts-AreSmaller :
    (i : Invoice) (fields : List InvoiceTextField) → AreSmaller i (invoice_text_reductions i fields)
unfolding invoice_text_reductions
invoice_texts-AreSmaller i [] = tt
invoice_texts-AreSmaller i (field ∷ rest) =
    All-append (IsSmaller i) _ _
      (All-map (IsSmaller i) (invoice_text_reduction i field) _ (
        All-imp _ _ (λ p h. replace_invoice_text-lt i field p.1 h.1) _
          (text_reductions-IsShorter (invoice_text field i))))
      (invoice_texts-AreSmaller i rest)

-- A line left out.
lines_size-drop :
    (ls : List InvoiceLine) (n : ℕ)
    → n < length ls
    → lines_size (take n ls ++ drop (suc n) ls) < lines_size ls
lines_size-drop [] n h = absurd (omega arith)
lines_size-drop (l ∷ rest) zero h = omega arith
lines_size-drop (l ∷ rest) (suc n) h = omega (arith, lines_size-drop rest n (omega arith))

pub line_drops-AreSmaller :
    (i : Invoice) (n : ℕ) → n ≤ length i.lines → AreSmaller i (line_drops i n)
unfolding line_drops
line_drops-AreSmaller i zero h = tt
line_drops-AreSmaller i (suc n) h = (
  rw (add-one n) (omega (arith, lines_size-drop i.lines n (omega arith))),
  line_drops-AreSmaller i n (omega arith),
)
