-- ===== src/Shrink/Decrease.antt =====
-- Every candidate from a line is smaller than the invoice, and so is every candidate of
-- `one_step_reductions`.
use native.Mathlib.Numerals.{add-one}
use mathlib.Core.Path.{subst}
use rechnungsprobe.Prelude.{
  ◌≢◌, ℕ, zero, suc, ◌+◌, ◌<◌, Text, Bool, true, false, Option, none, some, List, [], ◌∷◌, ◌++◌,
  map, drop, set, length, ltb, if◌then◌else◌, ◌≡◌, ap, refl, arith, All-append, All-map, All-imp,
  Bool-cases, inl, inr,
}
use rechnungsprobe.Errors.{ok, >>=-eq-ok}
use rechnungsprobe.Decimal.{Decimal, whole, quantize, half_even, decimal_eq}
use rechnungsprobe.Model.Invoice.{InvoiceLine, Invoice}
use rechnungsprobe.Shrink.Operations.{
  PartyName, LineOptionalField, LineTextField, NumericField, Operation, Reduction,
}
use rechnungsprobe.Shrink.Lines.{
  replace_line, line_optional, remove_line_optional, line_text, if_present, line_removals,
  line_group_removals, line_text_reductions, reductions_if_text, line_text_reduction, line_number,
  number_reduction, number_reductions, line_reductions, line_optional_fields, line_text_fields,
}
use rechnungsprobe.Shrink.Steps.{
  header_removal, line_drops, all_line_reductions, candidates, ordered_candidates,
  invoice_text_fields,
}
use rechnungsprobe.Shrink.Size.{
  option_size, number_size, line_size, lines_size, invoice_size, text_reductions-IsShorter,
  remove_line_optional-lt, replace_line_text-lt, number_size-one, number_size-cents,
  replace_line_number-lt,
}
use rechnungsprobe.Shrink.Smaller.{
  IsSmaller, AreSmaller, party_reductions-AreSmaller, invoice_texts-AreSmaller,
  line_drops-AreSmaller,
}

option_size-pos {ℓ} : {A : Type ℓ} (o : Option A) → o ≢ none → 0 < option_size o
option_size-pos none h = absurd (h refl)
option_size-pos (some a) h = omega arith

-- The line that stands at an index.
abbrev HasLine : List InvoiceLine → ℕ → InvoiceLine → Type 0
HasLine [] n l = ⊥
HasLine (m ∷ rest) zero l = m ≡ l
HasLine (m ∷ rest) (suc n) l = HasLine rest n l

lines_size-set :
    (ls : List InvoiceLine) (n : ℕ) (l l' : InvoiceLine)
    → HasLine ls n l
    → line_size l' < line_size l
    → lines_size (set ls n l') < lines_size ls
lines_size-set [] n l l' h k = absurd h
lines_size-set (m ∷ rest) zero l l' h k = omega (arith, ap (λ (x : InvoiceLine). line_size x) h)
lines_size-set (m ∷ rest) (suc n) l l' h k = omega (arith, lines_size-set rest n l l' h k)

-- What is left from an index on begins with its line.
drop-HasLine :
    (ls : List InvoiceLine) (n : ℕ) (l : InvoiceLine) (rest : List InvoiceLine)
    → drop n ls ≡ l ∷ rest
    → HasLine ls n l × (drop (suc n) ls ≡ rest)
drop-HasLine [] zero l rest h = cc
drop-HasLine [] (suc n) l rest h = cc
drop-HasLine (m ∷ ls) zero l rest h = (cc, cc)
drop-HasLine (m ∷ ls) (suc n) l rest h = drop-HasLine ls n l rest h

module _ (i : Invoice) (index : ℕ) (l : InvoiceLine) (at : HasLine i.lines index l) where
  replace_line-lt :
      (l' : InvoiceLine)
      → line_size l' < line_size l
      → invoice_size (replace_line i index l') < invoice_size i
  unfolding replace_line
  replace_line-lt l' h = omega (arith, lines_size-set i.lines index l l' at h)

  if_present-AreSmaller {ℓ} :
      {A : Type ℓ} (operation : Operation) (l' : InvoiceLine) (o : Option A)
      → (o ≢ none → line_size l' < line_size l)
      → AreSmaller i (if_present i index operation l' o)
  if_present-AreSmaller operation l' none h = tt
  if_present-AreSmaller operation l' (some a) h = (replace_line-lt l' (h (λ e. cc)), tt)

  line_removals-AreSmaller :
      (fields : List LineOptionalField) → AreSmaller i (line_removals i index l fields)
  unfolding line_removals
  line_removals-AreSmaller [] = tt
  line_removals-AreSmaller (field ∷ rest) =
      All-append (IsSmaller i) _ _
        (if_present-AreSmaller _ _ (line_optional field l) (removed (line_optional field l) refl))
        (line_removals-AreSmaller rest)
    where
      removed :
          (o : Option Text)
          → line_optional field l ≡ o
          → o ≢ none
          → line_size (remove_line_optional l field) < line_size l
      removed none e h = absurd (h refl)
      removed (some v) e h = remove_line_optional-lt l field v e

  line_groups-AreSmaller : AreSmaller i (line_group_removals i index l)
  unfolding line_group_removals
  line_groups-AreSmaller =
      All-append (IsSmaller i) _ _
        (if_present-AreSmaller _ _ l.period_start
          (λ h. omega (arith, option_size-pos l.period_start h)))
        (if_present-AreSmaller _ _ l.classification_code
          (λ h. omega (arith, option_size-pos l.classification_code h)))

  line_texts-AreSmaller :
      (fields : List LineTextField) → AreSmaller i (line_text_reductions i index l fields)
  unfolding line_text_reductions
  line_texts-AreSmaller [] = tt
  line_texts-AreSmaller (field ∷ rest) =
      All-append (IsSmaller i) _ _ (shorter (line_text field l) refl) (line_texts-AreSmaller rest)
    where
      shorter :
          (o : Option Text)
          → line_text field l ≡ o
          → AreSmaller i (map (line_text_reduction i index l field) (reductions_if_text o))
      shorter none e = tt
      shorter (some w) e = All-map (IsSmaller i) (line_text_reduction i index l field) _ (
          All-imp _ _ (λ p h. replace_line-lt _ (replace_line_text-lt l field p.1 w e h.1)) _
            (text_reductions-IsShorter w))

  number_reduction-AreSmaller :
      (field : NumericField) (v : Decimal)
      → (decimal_eq v (line_number field l) ≡ false
          → number_size v < number_size (line_number field l))
      → AreSmaller i (number_reduction i index l field v)
  unfolding number_reduction
  number_reduction-AreSmaller field v h = elim (Bool-cases (decimal_eq v (line_number field l))) [
    | inl same ↦ rw same tt
    | inr other ↦ rw other (replace_line-lt _ (replace_line_number-lt l field v (h other)), tt)
  ]

  number_reductions-AreSmaller :
      (field : NumericField) (rs : List Reduction)
      → number_reductions i index l field ≡ ok rs
      → AreSmaller i rs
  unfolding number_reductions
  number_reductions-AreSmaller field rs h =
      let (q, rounded, h1) = >>=-eq-ok (quantize half_even (line_number field l)) _ h in
      let whole_list : number_reduction i index l field (whole 1)
            ++ number_reduction i index l field q
          ≡ rs =
        cc h1 in
      subst (λ x. AreSmaller i x) whole_list
        (All-append (IsSmaller i) _ _
          (number_reduction-AreSmaller field (whole 1) (number_size-one (line_number field l)))
          (number_reduction-AreSmaller field q (number_size-cents (line_number field l) q rounded)))

  line_reductions-AreSmaller :
      (rs : List Reduction) → line_reductions i index l ≡ ok rs → AreSmaller i rs
  unfolding line_reductions
  line_reductions-AreSmaller rs h =
      let (quantities, h1, h2) =
        >>=-eq-ok (number_reductions i index l NumericField.quantity) _ h in
      let (prices, h3, h4) = >>=-eq-ok (number_reductions i index l NumericField.price) _ h2 in
      let whole_list : line_removals i index l line_optional_fields
            ++ (line_group_removals i index l
                ++ (line_text_reductions i index l line_text_fields ++ (quantities ++ prices)))
          ≡ rs =
        cc h4 in
      subst (λ x. AreSmaller i x) whole_list
        (All-append (IsSmaller i) _ _ (line_removals-AreSmaller line_optional_fields) (
          All-append (IsSmaller i) _ _ line_groups-AreSmaller (
            All-append (IsSmaller i) _ _ (line_texts-AreSmaller line_text_fields) (
              All-append (IsSmaller i) _ _
                (number_reductions-AreSmaller NumericField.quantity quantities h1)
                (number_reductions-AreSmaller NumericField.price prices h3)))))

all_lines-AreSmaller :
    (i : Invoice) (index : ℕ) (ls : List InvoiceLine) (rs : List Reduction)
    → drop index i.lines ≡ ls
    → all_line_reductions i index ls ≡ ok rs
    → AreSmaller i rs
unfolding all_line_reductions
all_lines-AreSmaller i index [] rs h k =
    let none_left : [] ≡ rs = cc k in subst (λ x. AreSmaller i x) none_left tt
all_lines-AreSmaller i index (l ∷ rest) rs h k =
    let (at, after) = drop-HasLine i.lines index l rest h in
    let (first, k1, k2) = >>=-eq-ok (line_reductions i index l) _ k in
    let (others, k3, k4) = >>=-eq-ok (all_line_reductions i (index + 1) rest) _ k2 in
    let whole_list : first ++ others ≡ rs = cc k4 in
    subst (λ x. AreSmaller i x) whole_list
      (All-append (IsSmaller i) _ _ (line_reductions-AreSmaller i index l at first k1)
        (all_lines-AreSmaller i (index + 1) rest others (rw (add-one index) after) k3))

header_removal-AreSmaller {ℓ} :
    {A : Type ℓ} (i j : Invoice) (operation : Operation) (o : Option A)
    → (o ≢ none → invoice_size j < invoice_size i)
    → AreSmaller i (header_removal operation j o)
header_removal-AreSmaller i j operation none h = tt
header_removal-AreSmaller i j operation (some a) h = (h (λ e. cc), tt)

drops-AreSmaller :
    (i : Invoice) (b : Bool) → AreSmaller i (if b then line_drops i (length i.lines) else [])
drops-AreSmaller i true = line_drops-AreSmaller i (length i.lines) (omega arith)
drops-AreSmaller i false = tt

ordered-AreSmaller :
    (i : Invoice) (lines : List Reduction)
    → AreSmaller i lines
    → AreSmaller i (ordered_candidates i lines)
ordered-AreSmaller i lines h =
    All-append (IsSmaller i) _ _
      (header_removal-AreSmaller i _ _ i.note (λ e. omega (arith, option_size-pos i.note e)))
      (All-append (IsSmaller i) _ _
        (header_removal-AreSmaller i _ _ i.payment_due_date
          (λ e. omega (arith, option_size-pos i.payment_due_date e)))
        (All-append (IsSmaller i) _ _ (drops-AreSmaller i (ltb 1 (length i.lines))) (
          All-append (IsSmaller i) _ _ (party_reductions-AreSmaller i PartyName.seller) (
            All-append (IsSmaller i) _ _ (party_reductions-AreSmaller i PartyName.buyer)
              (All-append (IsSmaller i) _ _ (invoice_texts-AreSmaller i invoice_text_fields) h)))))

-- Every candidate is smaller than the invoice.
pub candidates-AreSmaller :
    (i : Invoice) (rs : List Reduction) → candidates i ≡ ok rs → AreSmaller i rs
unfolding candidates
candidates-AreSmaller i rs h =
    let (lines, h1, h2) = >>=-eq-ok (all_line_reductions i 0 i.lines) _ h in
    let whole_list : ordered_candidates i lines ≡ rs = cc h2 in
    subst (λ x. AreSmaller i x) whole_list
      (ordered-AreSmaller i lines (all_lines-AreSmaller i 0 i.lines lines refl h1))
