-- ===== src/Shrink/Operations.antt =====
-- The operations of src/rechnungsprobe/shrink.py by name, and the reductions of one text.
use rechnungsprobe.Prelude.{
  ℕ, ◌+◌, ◌-◌, ◌/◌, Text, codes, Bool, not, ◌&&◌, List, [], ◌∷◌, length, take, drop, leb, text_eq,
  contains, if◌then◌else◌,
}
use rechnungsprobe.Decimal.{Decimal}
use rechnungsprobe.Model.Invoice.{Invoice}

pub data PartyName : Type 0 where
  seller buyer : PartyName

pub data PartyOptionalField : Type 0 where
  trading_name tax_identifier legal_identifier legal_form party_identifier : PartyOptionalField
  contact_name contact_phone contact_email : PartyOptionalField

pub data PartyTextField : Type 0 where
  endpoint registration_name street city postal_code : PartyTextField

pub data LineOptionalField : Type 0 where
  note description order_line_identifier seller_item_identifier : LineOptionalField

pub data LineTextField : Type 0 where
  identifier name note description : LineTextField

pub data NumericField : Type 0 where
  quantity price : NumericField

pub data InvoiceTextField : Type 0 where
  identifier buyer_reference payment_terms payee_account_identifier : InvoiceTextField

pub data TextOperation : Type 0 where
  keep_prefix_half keep_suffix_half drop_last_character drop_first_character : TextOperation
  replace_minimal : TextOperation

-- The operation's name in the source is built from these parts.
pub data Operation : Type 0 where
  remove_invoice_note remove_payment_due_date : Operation
  remove_line : ℕ → Operation
  remove_party_optional : PartyName → PartyOptionalField → Operation
  party_text : PartyName → PartyTextField → TextOperation → Operation
  invoice_text : InvoiceTextField → TextOperation → Operation
  remove_line_optional : ℕ → LineOptionalField → Operation
  remove_period remove_classification : ℕ → Operation
  line_text : ℕ → LineTextField → TextOperation → Operation
  line_number : ℕ → NumericField → Decimal → Operation

pub record Reduction : Type 0 where
  pub operation : Operation
  pub invoice : Invoice

-- `candidate and candidate != value and candidate not in seen`
abbrev pub is_new : Text → List Text → Text → Bool
is_new value seen candidate =
    not (leb (length candidate) 0)
    && (not (text_eq candidate value) && not (contains candidate seen))

-- The loop over the candidate texts: an empty, unchanged or repeated one is passed over.
unfoldable pub keep_new :
    Text → List Text → List (TextOperation × Text) → List (TextOperation × Text)
keep_new value seen [] = []
keep_new value seen ((operation, candidate) ∷ rest) =
    let kept = (operation, candidate) ∷ keep_new value (candidate ∷ seen) rest in
    let passed = keep_new value seen rest in if is_new value seen candidate then kept else passed

abbrev pub text_candidates : Text → List (TextOperation × Text)
text_candidates value =
    (keep_prefix_half, take ((length value + 1) / 2) value)
    ∷ (keep_suffix_half, drop (length value / 2) value)
    ∷ (drop_last_character, take (length value - 1) value)
    ∷ (drop_first_character, drop 1 value)
    ∷ (replace_minimal, codes "A")
    ∷ []

unfoldable pub text_reductions : Text → List (TextOperation × Text)
text_reductions value =
    if leb (length value) 1 then [] else keep_new value [] (text_candidates value)
