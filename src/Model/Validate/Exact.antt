-- ===== src/Model/Validate/Exact.antt =====
-- What a validated invoice satisfies, and that `validate` accepts exactly the invoices that do.
use rechnungsprobe.Prelude.{
  ℕ, ◌+◌, ◌≤◌, true, false, not, ◌&&◌, Option, none, some, List, [], ◌∷◌, map, Text, codes, text_eq,
  text_eq_iff, contains, contains-false_iff, leb, ◌==◌, ◌≡◌, ◌≢◌, ◌↔◌, refl, arith, length, All,
  Bool-cases, inl, inr, ==_iff, All-map, All-imp,
}
use rechnungsprobe.Errors.{document, seller, buyer, ok, >>-eq-ok, >>=-eq-ok}
use rechnungsprobe.Decimal.{Decimal, decimal_eq, normalize}
use rechnungsprobe.Decimal.Same.{IsSameNumber, decimal_eq_iff}
use rechnungsprobe.Model.Invoice.{InvoiceLine, Invoice, Date, Host}
use rechnungsprobe.Model.Validate.{
  require, validate_texts, validate_party, validate_line, validate_lines, validate, invoice_texts,
  add_rate, due_in_time,
}
use rechnungsprobe.Model.Validate.Values.{not-true_iff}
use rechnungsprobe.Model.Validate.Meaning.{
  AreInvoiceTexts, invoice_texts_iff, IsNotBefore, is_before_iff,
}
use rechnungsprobe.Model.Validate.Parts.{
  IsParty, IsLine, validate_texts_iff, validate_party_iff, validate_line-IsLine,
  IsLine-validate_line, require_iff,
}

-- No text of the list stands in it twice.
abbrev pub Distinct : List Text → Type 0
Distinct [] = Unit
Distinct (x ∷ xs) = All (λ y. y ≢ x) xs × Distinct xs

abbrev pub identifiers : List InvoiceLine → List Text
identifiers = map (λ l. l.identifier)

-- Every line's rate has the value of the first line's.
abbrev pub AreOneRate : List InvoiceLine → Type 0
AreOneRate [] = ⊥
AreOneRate (l ∷ rest) = All (λ m. IsSameNumber (normalize m.vat_rate) (normalize l.vat_rate)) rest

abbrev pub IsDue : Option Date → Date → Type 0
IsDue none issued = Unit
IsDue (some due) issued = IsNotBefore due issued

module _ ⦃host : Host⦄ where
  pub record IsValid (i : Invoice) : Type 0 where
    pub texts : AreInvoiceTexts i
    pub seller : IsParty i.seller
    pub buyer : IsParty i.buyer
    pub euro : i.currency ≡ codes "EUR"
    pub some_lines : 1 ≤ length i.lines
    pub few_lines : length i.lines ≤ 100
    pub lines : All IsLine i.lines
    pub distinct : Distinct (identifiers i.lines)
    pub one_rate : AreOneRate i.lines
    pub due : IsDue i.payment_due_date i.issue_date

-- The rates that the loop ends with.
abbrev collect_rates : List Decimal → List InvoiceLine → List Decimal
collect_rates rates [] = rates
collect_rates rates (l ∷ rest) = collect_rates (add_rate (normalize l.vat_rate) rates) rest

-- No identifier of the lines is among those seen before, or stands twice.
abbrev AreFresh : List Text → List InvoiceLine → Type 0
AreFresh seen [] = Unit
AreFresh seen (l ∷ rest) =
    (contains l.identifier seen ≡ false) × AreFresh (l.identifier ∷ seen) rest

validate_lines→ :
    (index : ℕ) (seen : List Text) (rates : List Decimal) (ls : List InvoiceLine)
    {all : List Decimal}
    → validate_lines index seen rates ls ≡ ok all
    → All IsLine ls × AreFresh seen ls × (collect_rates rates ls ≡ all)
unfolding validate_lines
validate_lines→ index seen rates [] h = (tt, tt, cc)
validate_lines→ index seen rates (l ∷ rest) h =
    let (line, h1) = >>-eq-ok (validate_line index l) _ h in
    let (fresh, h2) = >>-eq-ok (require (not (contains l.identifier seen)) _) _ h1 in
    let (lines, others, rates_eq) = validate_lines→ (index + 1) _ _ rest h2 in
    (
      (validate_line-IsLine index l line, lines),
      ((not-true_iff _).0 ((require_iff _ _).0 fresh), others),
      rates_eq,
    )

→validate_lines :
    (index : ℕ) (seen : List Text) (rates : List Decimal) (ls : List InvoiceLine)
    → All IsLine ls
    → AreFresh seen ls
    → validate_lines index seen rates ls ≡ ok (collect_rates rates ls)
unfolding validate_lines
→validate_lines index seen rates [] valid fresh = refl
→validate_lines index seen rates (l ∷ rest) valid fresh =
    rw (IsLine-validate_line index l valid.0, fresh.0)
      (→validate_lines (index + 1) (l.identifier ∷ seen) _ rest valid.1 fresh.1)

fresh→distinct :
    (seen : List Text) (ls : List InvoiceLine)
    → AreFresh seen ls
    → Distinct (identifiers ls) × All (λ l. All (λ y. l.identifier ≢ y) seen) ls
fresh→distinct seen [] h = (tt, tt)
fresh→distinct seen (l ∷ rest) h =
    let (distinct, apart) = fresh→distinct (l.identifier ∷ seen) rest h.1 in
    (
      (
        All-map (λ y. y ≢ l.identifier) (λ m. m.identifier) rest
            (All-imp _ (λ m. m.identifier ≢ l.identifier) (λ m k. k.0) rest apart),
        distinct,
      ),
      ((contains-false_iff l.identifier seen).0 h.0, All-imp _ _ (λ m k. k.1) rest apart),
    )

distinct→fresh :
    (seen : List Text) (ls : List InvoiceLine)
    → Distinct (identifiers ls)
    → All (λ l. All (λ y. l.identifier ≢ y) seen) ls
    → AreFresh seen ls
distinct→fresh seen [] d h = tt
distinct→fresh seen (l ∷ rest) d h = (
  (contains-false_iff l.identifier seen).1 h.0,
  distinct→fresh (l.identifier ∷ seen) rest d.1 (both rest d.0 h.1),
)
  where
    both :
        (ms : List InvoiceLine)
        → All (λ y. y ≢ l.identifier) (identifiers ms)
        → All (λ m. All (λ y. m.identifier ≢ y) seen) ms
        → All (λ m. All (λ y. m.identifier ≢ y) (l.identifier ∷ seen)) ms
    both [] p q = tt
    both (m ∷ ms) p q = ((p.0, q.0), both ms p.1 q.1)

trivially_apart : (ls : List InvoiceLine) → All (λ l. All {A = Text} (λ y. l.identifier ≢ y) []) ls
trivially_apart [] = tt
trivially_apart (l ∷ rest) = (tt, trivially_apart rest)

length-add_rate : (r : Decimal) (rates : List Decimal) → length rates ≤ length (add_rate r rates)
unfolding add_rate
length-add_rate r rates = ground arith

add_rate-same : (d r : Decimal) → decimal_eq d r ≡ true → add_rate d (r ∷ []) ≡ r ∷ []
unfolding add_rate
add_rate-same d r h = rw h

add_rate-new : (d r : Decimal) → decimal_eq d r ≡ false → add_rate d (r ∷ []) ≡ d ∷ r ∷ []
unfolding add_rate
add_rate-new d r h = rw h

length-collect_rates :
    (rates : List Decimal) (ls : List InvoiceLine) → length rates ≤ length (collect_rates rates ls)
length-collect_rates rates [] = omega arith
length-collect_rates rates (l ∷ rest) = omega (
  arith,
  length-collect_rates (add_rate (normalize l.vat_rate) rates) rest,
  length-add_rate (normalize l.vat_rate) rates,
)

one_rate→ :
    (r : Decimal) (ls : List InvoiceLine)
    → length (collect_rates (r ∷ []) ls) ≡ 1
    → All (λ m. decimal_eq (normalize m.vat_rate) r ≡ true) ls
one_rate→ r [] h = tt
one_rate→ r (l ∷ rest) h = elim (Bool-cases (decimal_eq (normalize l.vat_rate) r)) [
  | inl same ↦ (same, one_rate→ r rest (rw (add_rate-same _ r same) at h))
  | inr differs ↦ absurd (
      omega (
        arith,
        rw (add_rate-new _ r differs) at h,
        length-collect_rates (normalize l.vat_rate ∷ r ∷ []) rest,
      ))
]

→one_rate :
    (r : Decimal) (ls : List InvoiceLine)
    → All (λ m. decimal_eq (normalize m.vat_rate) r ≡ true) ls
    → length (collect_rates (r ∷ []) ls) ≡ 1
→one_rate r [] h = refl
→one_rate r (l ∷ rest) h = rw (add_rate-same _ r h.0) (→one_rate r rest h.1)

rates_iff :
    (ls : List InvoiceLine) → 1 ≤ length ls → (length (collect_rates [] ls) ≡ 1) ↔ AreOneRate ls
unfolding add_rate
rates_iff [] h = absurd (omega arith)
rates_iff (l ∷ rest) h =
    let r = normalize l.vat_rate in
    (
      λ k.
          All-imp _ _ (λ m same. (decimal_eq_iff (normalize m.vat_rate) r).0 same) rest
            (one_rate→ r rest k),
      λ k.
          →one_rate r rest
            (All-imp _ _ (λ m same. (decimal_eq_iff (normalize m.vat_rate) r).1 same) rest k),
    )

IsDue-iff : (d : Option Date) (issued : Date) → (due_in_time d issued ≡ true) ↔ IsDue d issued
unfolding due_in_time
IsDue-iff none issued = (λ h. tt, λ h. refl)
IsDue-iff (some due) issued = (
  λ h. (is_before_iff due issued).0 ((not-true_iff _).0 h),
  λ h. (not-true_iff _).1 ((is_before_iff due issued).1 h),
)

count_iff : (n : ℕ) → ((leb 1 n && leb n 100) ≡ true) ↔ ((1 ≤ n) × (n ≤ 100))
count_iff n = (λ h. ground arith, λ h. ground arith)

module _ ⦃host : Host⦄ where
  validate-IsValid : (i : Invoice) → validate i ≡ ok tt → IsValid i
  unfolding validate
  validate-IsValid i h =
      let (texts, h1) = >>-eq-ok (validate_texts document 5000 (invoice_texts i)) _ h in
      let (sold, h2) = >>-eq-ok (validate_party seller i.seller) _ h1 in
      let (bought, h3) = >>-eq-ok (validate_party buyer i.buyer) _ h2 in
      let (euro, h4) = >>-eq-ok (require (text_eq i.currency (codes "EUR")) _) _ h3 in
      let (count, h5) = >>-eq-ok (require (leb 1 (length i.lines) && _) _) _ h4 in
      let (rates, collected, h6) = >>=-eq-ok (validate_lines 0 [] [] i.lines) _ h5 in
      let (one, due) = >>-eq-ok (require (length rates == 1) _) _ h6 in
      let (low, high) = (count_iff (length i.lines)).0 ((require_iff _ _).0 count) in
      let (lines, fresh, same) = validate_lines→ 0 [] [] i.lines collected in
      let one_rate : length rates ≡ 1 = (==_iff (length rates) 1).0 ((require_iff _ _).0 one) in
      record {
        texts =
            (invoice_texts_iff i).0 ((validate_texts_iff document 5000 (invoice_texts i)).0 texts);
        seller = (validate_party_iff seller i.seller).0 sold;
        buyer = (validate_party_iff buyer i.buyer).0 bought;
        euro = (text_eq_iff i.currency (codes "EUR")).0 ((require_iff _ _).0 euro);
        some_lines = low;
        few_lines = high;
        lines = lines;
        distinct = (fresh→distinct [] i.lines fresh).0;
        one_rate = (rates_iff i.lines low).0 (rw same one_rate);
        due = (IsDue-iff i.payment_due_date i.issue_date).0 ((require_iff _ _).0 due);
      }

  IsValid-validate : (i : Invoice) → IsValid i → validate i ≡ ok tt
  unfolding validate
  IsValid-validate i v = rw (
    (validate_texts_iff document 5000 (invoice_texts i)).1 ((invoice_texts_iff i).1 v.texts),
    (validate_party_iff seller i.seller).1 v.seller,
    (validate_party_iff buyer i.buyer).1 v.buyer,
    (text_eq_iff i.currency (codes "EUR")).1 v.euro,
    (count_iff (length i.lines)).1 (v.some_lines, v.few_lines),
    →validate_lines 0 [] [] i.lines v.lines
        (distinct→fresh [] i.lines v.distinct (trivially_apart i.lines)),
    (==_iff (length (collect_rates [] i.lines)) 1).1
        ((rates_iff i.lines v.some_lines).1 v.one_rate),
    (IsDue-iff i.payment_due_date i.issue_date).1 v.due,
  )

  -- `Invoice.validate` returns without an error exactly for the invoices that satisfy `IsValid`:
  -- every text is present, short enough and free of control characters, both parties have a
  -- two-letter country and an email endpoint where the scheme asks for one, the currency is EUR,
  -- there are 1 to 100 valid lines with distinct identifiers and one VAT rate, and the due date is
  -- not before the issue date.
  pub validate_exact : (i : Invoice) → (validate i ≡ ok tt) ↔ IsValid i
  validate_exact i = (validate-IsValid i, IsValid-validate i)
