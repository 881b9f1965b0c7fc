-- ===== src/Model/Invoice.antt =====
-- The dataclasses of src/rechnungsprobe/model.py. Dates are `datetime.date` values.
use rechnungsprobe.Prelude.{ℕ, Bool, ◌||◌, ◌&&◌, Option, List, Text, ltb, ◌==◌, pad, ◌++◌, ◌∷◌}
use rechnungsprobe.Decimal.{Decimal}

pub record Date : Type 0 where
  pub year : ℕ
  pub month : ℕ
  pub day : ℕ

-- `a < b` on dates
unfoldable pub is_before : Date → Date → Bool
is_before a b =
    ltb a.year b.year
    || (a.year == b.year && (ltb a.month b.month || (a.month == b.month && ltb a.day b.day)))

unfoldable pub isoformat : Date → Text
unfolding pad
isoformat d = pad 4 d.year ++ b'-' ∷ (pad 2 d.month ++ b'-' ∷ pad 2 d.day)

pub record Party : Type 0 where
  pub endpoint : Text
  pub endpoint_scheme : Text
  pub registration_name : Text
  pub street : Text
  pub city : Text
  pub postal_code : Text
  pub country_code : Text
  pub trading_name : Option Text
  pub tax_identifier : Option Text
  pub legal_identifier : Option Text
  pub legal_form : Option Text
  pub party_identifier : Option Text
  pub contact_name : Option Text
  pub contact_phone : Option Text
  pub contact_email : Option Text

pub record InvoiceLine : Type 0 where
  pub identifier : Text
  pub quantity : Decimal
  pub unit_code : Text
  pub price : Decimal
  pub name : Text
  pub vat_category : Text
  pub vat_rate : Decimal
  pub note : Option Text
  pub description : Option Text
  pub period_start : Option Date
  pub period_end : Option Date
  pub order_line_identifier : Option Text
  pub seller_item_identifier : Option Text
  pub classification_code : Option Text
  pub classification_list : Option Text

pub record Invoice : Type 0 where
  pub customization_id : Text
  pub profile_id : Text
  pub identifier : Text
  pub issue_date : Date
  pub invoice_type_code : Text
  pub currency : Text
  pub buyer_reference : Text
  pub seller : Party
  pub buyer : Party
  pub payment_means_code : Text
  pub payee_account_identifier : Text
  pub payment_terms : Text
  pub lines : List InvoiceLine
  pub note : Option Text
  pub payment_due_date : Option Date

-- What the program takes from Python's runtime and not from its own text: the Unicode class behind
-- `str.isalpha`, and the SHA-256 hex digest of a text's UTF-8 encoding.
pub record Host : Type 0 where
  pub is_alpha : ℕ → Bool
  pub sha256 : Text → Text

-- What Python makes of a text: whether `str.strip` takes a character away, `Decimal(text)` unless it
-- raises `InvalidOperation`, and `date.fromisoformat` unless it raises `ValueError`.
pub record Reader : Type 0 where
  pub is_space : ℕ → Bool
  pub decimal_from : Text → Option Decimal
  pub date_from : Text → Option Date
