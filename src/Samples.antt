-- ===== src/Samples.antt =====
-- An invoice of one line and a host, for the examples.
use rechnungsprobe.Prelude.{
  zero, suc, ◌-◌, ◌==◌, length, Bool, Option, some, if◌then◌else◌, ℕ, Text, take, drop, text_eq,
  ◌+◌, ◌*◌, ◌%◌, codes, true, false, none, [], ◌∷◌, ltb, ◌&&◌, ◌||◌,
}
use rechnungsprobe.Prelude.Int.{pos, negsuc}
use rechnungsprobe.Decimal.{Decimal, finite}
use rechnungsprobe.Shrink.Loop.{Checks}
use rechnungsprobe.Model.Invoice.{Date, Party, InvoiceLine, Invoice, Host, Reader}

-- A polynomial digest of a text.
abbrev pub digest : ℕ → Text → ℕ
digest n [] = n
digest n (c ∷ t) = digest ((n * 257 + c) % 1000000007) t

-- Letters of ASCII, and the digest.
instance abbrev pub plain_host : Host
plain_host = record {
  is_alpha = λ c. ltb 64 c && (ltb c 91 || (ltb 96 c && ltb c 123));
  sha256 = λ t. digest 7 t ∷ [];
}

abbrev pub sample_party : Party
sample_party = record {
  endpoint = codes "@";
  endpoint_scheme = codes "EM";
  registration_name = codes "R";
  street = codes "S";
  city = codes "C";
  postal_code = codes "1";
  country_code = codes "DE";
  trading_name = none;
  tax_identifier = none;
  legal_identifier = none;
  legal_form = none;
  party_identifier = none;
  contact_name = none;
  contact_phone = none;
  contact_email = none;
}

abbrev pub sample_line : InvoiceLine
sample_line = record {
  identifier = codes "1";
  quantity = finite false 1 (pos 0);
  unit_code = codes "XPP";
  price = finite false 1 (pos 0);
  name = codes "N";
  vat_category = codes "S";
  vat_rate = finite false 19 (pos 0);
  note = none;
  description = none;
  period_start = none;
  period_end = none;
  order_line_identifier = none;
  seller_item_identifier = none;
  classification_code = none;
  classification_list = none;
}

abbrev pub sample_invoice : Invoice
sample_invoice = record {
  customization_id = codes "c";
  profile_id = codes "p";
  identifier = codes "abcd";
  issue_date = record { year = 2026; month = 1; day = 31 };
  invoice_type_code = codes "380";
  currency = codes "EUR";
  buyer_reference = codes "b";
  seller = sample_party;
  buyer = sample_party;
  payment_means_code = codes "58";
  payee_account_identifier = codes "x";
  payment_terms = codes "t";
  lines = sample_line ∷ [];
  note = none;
  payment_due_date = none;
}

-- Everything is valid, and the finding shows where the invoice's identifier is "abcd", "ab" or "A".
abbrev identifier_after : Text → ℕ → Text
identifier_after document n = take n (drop 369 document)

abbrev pub sample_checks : Checks
sample_checks = record {
  is_valid = λ document. true;
  preserves_finding = λ document.
      text_eq (identifier_after document 5) (codes "abcd<")
      || (text_eq (identifier_after document 3) (codes "ab<")
          || text_eq (identifier_after document 2) (codes "A<"));
  validate_batch = none;
}

-- Decimal numbers of digits and at most one point, and dates of the form of `isoformat`.
abbrev read_decimal : ℕ → Bool → ℕ → Text → Option Decimal
read_decimal n point places [] =
    some (finite false n (elim places [ zero ↦ pos 0 | suc k ↦ negsuc k ]))
read_decimal n false places (c ∷ t) =
    let fraction = read_decimal n true places t in
    let more = read_decimal (n * 10 + (c - 48)) false places t in
    if c == b'.' then fraction else if ltb c 48 || ltb 57 c then none else more
read_decimal n true places (c ∷ t) =
    let more = read_decimal (n * 10 + (c - 48)) true (places + 1) t in
    if ltb c 48 || ltb 57 c then none else more

abbrev number_of : ℕ → Text → ℕ
number_of n [] = n
number_of n (c ∷ t) = number_of (n * 10 + (c - 48)) t

abbrev read_date : Text → Option Date
read_date text =
    if length text == 10
    then some (record {
      year = number_of 0 (take 4 text);
      month = number_of 0 (take 2 (drop 5 text));
      day = number_of 0 (drop 8 text);
    })
    else none

instance abbrev pub plain_reader : Reader
plain_reader = record {
  is_space = λ c. c == 32;
  decimal_from = λ text. read_decimal 0 false 0 text;
  date_from = read_date;
}
