-- ===== src/Model/Fingerprint.antt =====
-- `_canonical_value` and `semantic_fingerprint` of src/rechnungsprobe/model.py, with `json.dumps`
-- for sorted keys, compact separators and no ASCII escaping.
use rechnungsprobe.Prelude.{
  ℕ, ◌/◌, ◌%◌, ◌+◌, String, Text, codes, Bool, true, false, Option, none, some, List, [], ◌∷◌, ◌++◌,
  ltb, ◌==◌, if◌then◌else◌,
}
use rechnungsprobe.Errors.{Result, ok, err, model_error, fingerprint_not_finite, ◌>>=◌, ◌>>◌}
use rechnungsprobe.Decimal.{Decimal, is_finite}
use rechnungsprobe.Model.Invoice.{Party, InvoiceLine, Invoice, Date, isoformat, Host}
use rechnungsprobe.Model.Validate.{validate}
use rechnungsprobe.Model.Totals.{decimal_text}

mutual
  pub data Json : Type 0 where
    null : Json
    text : Text → Json
    array : Items → Json
    object : Members → Json

  pub data Items : Type 0 where
    nil : Items
    cons : Json → Items → Items

  pub data Members : Type 0 where
    end : Members
    member : String → Json → Members → Members

abbrev pub members : List (String × Json) → Members
members [] = end
members ((name, value) ∷ rest) = member name value (members rest)

abbrev pub items : List Json → Items
items [] = nil
items (x ∷ xs) = cons x (items xs)

abbrev pub optional : Option Text → Json
optional none = null
optional (some t) = text t

abbrev pub optional_date : Option Date → Json
optional_date none = null
optional_date (some d) = text (isoformat d)

unfoldable pub canonical_decimal : Decimal → Result Json
canonical_decimal value =
    if is_finite value
    then ok (text (decimal_text value))
    else err (model_error fingerprint_not_finite)

unfoldable pub canonical_party : Party → Json
canonical_party p = object (
    members (
      ("endpoint", text p.endpoint)
      ∷ ("endpoint_scheme", text p.endpoint_scheme)
      ∷ ("registration_name", text p.registration_name)
      ∷ ("street", text p.street)
      ∷ ("city", text p.city)
      ∷ ("postal_code", text p.postal_code)
      ∷ ("country_code", text p.country_code)
      ∷ ("trading_name", optional p.trading_name)
      ∷ ("tax_identifier", optional p.tax_identifier)
      ∷ ("legal_identifier", optional p.legal_identifier)
      ∷ ("legal_form", optional p.legal_form)
      ∷ ("party_identifier", optional p.party_identifier)
      ∷ ("contact_name", optional p.contact_name)
      ∷ ("contact_phone", optional p.contact_phone)
      ∷ ("contact_email", optional p.contact_email)
      ∷ []))

unfoldable pub canonical_line : InvoiceLine → Result Json
canonical_line l = do
  quantity ← canonical_decimal l.quantity
  price ← canonical_decimal l.price
  rate ← canonical_decimal l.vat_rate
  ok (
      object (
        members (
          ("identifier", text l.identifier)
          ∷ ("quantity", quantity)
          ∷ ("unit_code", text l.unit_code)
          ∷ ("price", price)
          ∷ ("name", text l.name)
          ∷ ("vat_category", text l.vat_category)
          ∷ ("vat_rate", rate)
          ∷ ("note", optional l.note)
          ∷ ("description", optional l.description)
          ∷ ("period_start", optional_date l.period_start)
          ∷ ("period_end", optional_date l.period_end)
          ∷ ("order_line_identifier", optional l.order_line_identifier)
          ∷ ("seller_item_identifier", optional l.seller_item_identifier)
          ∷ ("classification_code", optional l.classification_code)
          ∷ ("classification_list", optional l.classification_list)
          ∷ [])))

unfoldable pub canonical_lines : List InvoiceLine → Result Items
canonical_lines [] = ok nil
canonical_lines (l ∷ rest) = do
  first ← canonical_line l
  others ← canonical_lines rest
  ok (cons first others)

unfoldable pub canonical_invoice : Invoice → Result Json
canonical_invoice i = do
  lines ← canonical_lines i.lines
  ok (
      object (
        members (
          ("customization_id", text i.customization_id)
          ∷ ("profile_id", text i.profile_id)
          ∷ ("identifier", text i.identifier)
          ∷ ("issue_date", text (isoformat i.issue_date))
          ∷ ("invoice_type_code", text i.invoice_type_code)
          ∷ ("currency", text i.currency)
          ∷ ("buyer_reference", text i.buyer_reference)
          ∷ ("seller", canonical_party i.seller)
          ∷ ("buyer", canonical_party i.buyer)
          ∷ ("payment_means_code", text i.payment_means_code)
          ∷ ("payee_account_identifier", text i.payee_account_identifier)
          ∷ ("payment_terms", text i.payment_terms)
          ∷ ("lines", array lines)
          ∷ ("note", optional i.note)
          ∷ ("payment_due_date", optional_date i.payment_due_date)
          ∷ [])))

-- `sort_keys=True`: one insertion sort of the members by name.
text_before : Text → Text → Bool
text_before [] [] = false
text_before [] (y ∷ ys) = true
text_before (x ∷ xs) [] = false
text_before (x ∷ xs) (y ∷ ys) = let rest = text_before xs ys in if x == y then rest else ltb x y

insert_member : String → Text → List (String × Text) → List (String × Text)
unfolding text_before
insert_member name value [] = (name, value) ∷ []
insert_member name value ((other, w) ∷ rest) =
    let later = (other, w) ∷ insert_member name value rest in
    if text_before (codes other) (codes name) then later else (name, value) ∷ (other, w) ∷ rest

hex_digit : ℕ → ℕ
hex_digit n = if ltb n 10 then 48 + n else 87 + n

escape_json : Text → Text
unfolding hex_digit
escape_json [] = []
escape_json (c ∷ rest) =
    let tail = escape_json rest in
    if c == 34
    then 92 ∷ 34 ∷ tail
    else if c == 92
    then 92 ∷ 92 ∷ tail
    else if c == 10
    then 92 ∷ b'n' ∷ tail
    else if c == 13
    then 92 ∷ b'r' ∷ tail
    else if c == 9
    then 92 ∷ b't' ∷ tail
    else if c == 12
    then 92 ∷ b'f' ∷ tail
    else if c == 8
    then 92 ∷ b'b' ∷ tail
    else if ltb c 32
    then 92 ∷ b'u' ∷ b'0' ∷ b'0' ∷ hex_digit (c / 16) ∷ hex_digit (c % 16) ∷ tail
    else c ∷ tail

quoted : Text → Text
unfolding escape_json
quoted t = 34 ∷ (escape_json t ++ (34 ∷ []))

join_commas : List Text → Text
join_commas [] = []
join_commas (x ∷ []) = x
join_commas (x ∷ y ∷ rest) = x ++ (b',' ∷ join_commas (y ∷ rest))

member_texts : List (String × Text) → List Text
unfolding quoted
member_texts [] = []
member_texts ((name, value) ∷ rest) = (quoted (codes name) ++ (b':' ∷ value)) ∷ member_texts rest

unfoldable mutual
  unfolding quoted insert_member join_commas member_texts

  pub dumps : Json → Text
  dumps null = codes "null"
  dumps (text t) = quoted t
  dumps (array xs) = b'[' ∷ (join_commas (dump_items xs) ++ (b']' ∷ []))
  dumps (object ms) = b'{' ∷ (join_commas (member_texts (dump_members ms)) ++ (b'}' ∷ []))

  pub dump_items : Items → List Text
  dump_items nil = []
  dump_items (cons x xs) = dumps x ∷ dump_items xs

  pub dump_members : Members → List (String × Text)
  dump_members end = []
  dump_members (member name value rest) = insert_member name (dumps value) (dump_members rest)

module _ ⦃host : Host⦄ where
  unfoldable pub semantic_fingerprint : Invoice → Result Text
  semantic_fingerprint i = do
    validate i
    canonical ← canonical_invoice i
    ok (
        host.sha256 (
          dumps (
            object (
              members
                (("model", text (codes "xrechnung-ubl-3.0.2-v1")) ∷ ("invoice", canonical) ∷ [])))))
