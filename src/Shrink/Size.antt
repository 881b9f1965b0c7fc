-- ===== src/Shrink/Size.antt =====
-- A size of invoices that every reduction lowers: the lengths of the texts that are reduced, one for
-- each part that can go, and for a number how far it is from one.
use rechnungsprobe.Prelude.{
  ℕ, suc, ◌+◌, ◌-◌, ◌/◌, ◌≤◌, ◌<◌, Text, Bool, true, false, not, ◌&&◌, Option, none, some, List, [],
  ◌∷◌, length, length-take, length-drop, leb, if◌then◌else◌, ◌≡◌, ap, refl, arith, All, Bool-cases,
  inl, inr,
}
use rechnungsprobe.Errors.{Result, ok, err}
use rechnungsprobe.Decimal.{Decimal, whole, quantize, half_even, decimal_eq, cents}
use rechnungsprobe.Decimal.Cents.{quantize-quantize, quantize-eq_refl}
use rechnungsprobe.Model.Invoice.{Party, InvoiceLine, Invoice}
use rechnungsprobe.Shrink.Operations.{
  PartyOptionalField, PartyTextField, LineOptionalField, LineTextField, NumericField, TextOperation,
  is_new, keep_new, text_candidates, text_reductions,
}
use rechnungsprobe.Shrink.Parties.{
  party_optional, remove_party_optional, party_text, replace_party_text,
}
use rechnungsprobe.Shrink.Lines.{
  line_optional, remove_line_optional, line_text, replace_line_text, line_number,
  replace_line_number,
}

abbrev pub option_size {ℓ} : {A : Type ℓ} → Option A → ℕ
option_size none = 0
option_size (some a) = 1

abbrev pub text_size : Option Text → ℕ
text_size none = 0
text_size (some t) = suc (length t)

abbrev pub party_size : Party → ℕ
party_size p =
    length p.endpoint
    + length p.registration_name
    + length p.street
    + length p.city
    + length p.postal_code
    + option_size p.trading_name
    + option_size p.tax_identifier
    + option_size p.legal_identifier
    + option_size p.legal_form
    + option_size p.party_identifier
    + option_size p.contact_name
    + option_size p.contact_phone
    + option_size p.contact_email

-- One has size 0, a number of cents 1, any other 2.
abbrev size_from : Result Decimal → Decimal → ℕ
size_from (ok q) d = if decimal_eq q d then (if decimal_eq (whole 1) d then 0 else 1) else 2
size_from (err e) d = 2

unfoldable pub number_size : Decimal → ℕ
number_size d = size_from (quantize half_even d) d

abbrev pub line_size : InvoiceLine → ℕ
line_size l = suc (
    length l.identifier
    + length l.name
    + text_size l.note
    + text_size l.description
    + option_size l.order_line_identifier
    + option_size l.seller_item_identifier
    + option_size l.period_start
    + option_size l.classification_code
    + number_size l.quantity
    + number_size l.price)

abbrev pub lines_size : List InvoiceLine → ℕ
lines_size [] = 0
lines_size (l ∷ rest) = line_size l + lines_size rest

abbrev pub invoice_size : Invoice → ℕ
invoice_size i =
    length i.identifier
    + length i.buyer_reference
    + length i.payment_terms
    + length i.payee_account_identifier
    + option_size i.note
    + option_size i.payment_due_date
    + party_size i.seller
    + party_size i.buyer
    + lines_size i.lines

-- A reduced text is not empty and shorter than the text.
abbrev pub IsShorter : Text → TextOperation × Text → Type 0
IsShorter value p = (1 ≤ length p.1) × (length p.1 < length value)

not_empty : (n : ℕ) (b : Bool) → (not (leb n 0) && b) ≡ true → 1 ≤ n
not_empty n b h = ground arith

keep_new-IsShorter :
    (value : Text) (seen : List Text) (offered : List (TextOperation × Text))
    → All (λ p. length p.1 < length value) offered
    → All (IsShorter value) (keep_new value seen offered)
unfolding keep_new
keep_new-IsShorter value seen [] h = tt
keep_new-IsShorter value seen ((o, t) ∷ rest) h = elim (Bool-cases (is_new value seen t)) [
  | inl new ↦ rw new ((not_empty _ _ new, h.0), keep_new-IsShorter value (t ∷ seen) rest h.1)
  | inr old ↦ rw old (keep_new-IsShorter value seen rest h.1)
]

one_lt : (n : ℕ) → leb n 1 ≡ false → 1 < n
one_lt n h = ground arith

candidates_shorter :
    (value : Text) → 1 < length value → All (λ p. length p.1 < length value) (text_candidates value)
candidates_shorter value h = (
  omega (arith, length-take ((length value + 1) / 2) value),
  (
    omega (arith, length-drop (length value / 2) value),
    (
      omega (arith, length-take (length value - 1) value),
      (omega (arith, length-drop 1 value), (h, tt)),
    ),
  ),
)

-- Every reduction of a text is a shorter text that is not empty.
pub text_reductions-IsShorter : (value : Text) → All (IsShorter value) (text_reductions value)
unfolding text_reductions
text_reductions-IsShorter value = elim (Bool-cases (leb (length value) 1)) [
  | inl short ↦ rw short tt
  | inr long ↦ rw long (
      keep_new-IsShorter value [] (text_candidates value)
        (candidates_shorter value (one_lt _ long)))
]

pub remove_party_optional-lt :
    (p : Party) (field : PartyOptionalField) (v : Text)
    → party_optional field p ≡ some v
    → party_size (remove_party_optional p field) < party_size p
unfolding party_optional remove_party_optional
remove_party_optional-lt p PartyOptionalField.trading_name v h =
    omega (arith, ap (option_size {0}) h)
remove_party_optional-lt p PartyOptionalField.tax_identifier v h =
    omega (arith, ap (option_size {0}) h)
remove_party_optional-lt p _ v h = omega (arith, ap (option_size {0}) h)

pub replace_party_text-lt :
    (p : Party) (field : PartyTextField) (v : Text)
    → length v < length (party_text field p)
    → party_size (replace_party_text p field v) < party_size p
unfolding party_text replace_party_text
replace_party_text-lt p PartyTextField.endpoint v h = omega arith
replace_party_text-lt p _ v h = omega arith

pub remove_line_optional-lt :
    (l : InvoiceLine) (field : LineOptionalField) (v : Text)
    → line_optional field l ≡ some v
    → line_size (remove_line_optional l field) < line_size l
unfolding line_optional remove_line_optional
remove_line_optional-lt l LineOptionalField.note v h = omega (arith, ap text_size h)
remove_line_optional-lt l LineOptionalField.description v h = omega (arith, ap text_size h)
remove_line_optional-lt l _ v h = omega (arith, ap (option_size {0}) h)

pub replace_line_text-lt :
    (l : InvoiceLine) (field : LineTextField) (v w : Text)
    → line_text field l ≡ some w
    → length v < length w
    → line_size (replace_line_text l field v) < line_size l
unfolding line_text replace_line_text
replace_line_text-lt l LineTextField.identifier v w h k = omega (arith, ap text_size h)
replace_line_text-lt l _ v w h k = omega (arith, ap text_size h)

size_from-pos :
    (r : Result Decimal) (d : Decimal) → decimal_eq (whole 1) d ≡ false → 0 < size_from r d
size_from-pos (ok q) d h = ground arith
size_from-pos (err e) d h = omega arith

number_size-whole_one : number_size (whole 1) ≡ 0
unfolding number_size quantize decimal_eq cents
number_size-whole_one = refl

-- A number other than one gets smaller as one.
pub number_size-one :
    (d : Decimal) → decimal_eq (whole 1) d ≡ false → number_size (whole 1) < number_size d
number_size-one d h =
    rw number_size-whole_one (unfold number_size in size_from-pos (quantize half_even d) d h)

-- A number that is not in cents gets smaller as its cents.
pub number_size-cents :
    (d q : Decimal)
    → quantize half_even d ≡ ok q
    → decimal_eq q d ≡ false
    → number_size q < number_size d
unfolding number_size
number_size-cents d q h k =
    rw (h, quantize-quantize half_even half_even d q h)
      (ground (arith, quantize-eq_refl half_even d q h))

-- Both reductions of a number lower its size.
pub replace_line_number-lt :
    (l : InvoiceLine) (field : NumericField) (v : Decimal)
    → number_size v < number_size (line_number field l)
    → line_size (replace_line_number l field v) < line_size l
unfolding line_number replace_line_number
replace_line_number-lt l NumericField.quantity v h = omega arith
replace_line_number-lt l NumericField.price v h = omega arith
