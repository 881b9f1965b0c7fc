-- ===== src/Comparison/Exact.antt =====
-- What `changed_fields` reports.
use rechnungsprobe.Prelude.{
  ℕ, ◌+◌, Text, codes, text_eq_iff, show_ℕ, true, Option, none, some, List, [], ◌∷◌, ◌++◌, All, ◌≡◌,
  ◌↔◌, inl, inr, refl, ap, arith, Bool-cases,
}
use rechnungsprobe.Decimal.Same.{IsSameNumber, decimal_eq_iff}
use rechnungsprobe.Model.Invoice.{Date, Party, InvoiceLine, Invoice}
use rechnungsprobe.Comparison.{
  Value, Fields, value_eq, text_option_eq, date_option_eq, party_fields, line_fields, first_fields,
  payment_fields, last_fields, changed_by, changed_lines, changed_fields,
}

-- Equal texts and dates, and decimals of one value
abbrev IsSameValue : Value → Value → Type 0
IsSameValue (Value.text a) (Value.text b) = a ≡ b
IsSameValue (Value.number a) (Value.number b) = IsSameNumber a b
IsSameValue (Value.date a) (Value.date b) = a ≡ b
IsSameValue a b = ⊥

abbrev AreSame : {A : Type 0} → Fields A → A → A → Type 0
AreSame fields a b = All (λ field. IsSameValue (field.1 a) (field.1 b)) fields

-- Two parties with every field the same
pub record IsSameParty (a b : Party) : Type 0 where
  pub endpoint : a.endpoint ≡ b.endpoint
  pub endpoint_scheme : a.endpoint_scheme ≡ b.endpoint_scheme
  pub registration_name : a.registration_name ≡ b.registration_name
  pub street : a.street ≡ b.street
  pub city : a.city ≡ b.city
  pub postal_code : a.postal_code ≡ b.postal_code
  pub country_code : a.country_code ≡ b.country_code
  pub trading_name : a.trading_name ≡ b.trading_name
  pub tax_identifier : a.tax_identifier ≡ b.tax_identifier
  pub legal_identifier : a.legal_identifier ≡ b.legal_identifier
  pub legal_form : a.legal_form ≡ b.legal_form
  pub party_identifier : a.party_identifier ≡ b.party_identifier
  pub contact_name : a.contact_name ≡ b.contact_name
  pub contact_phone : a.contact_phone ≡ b.contact_phone
  pub contact_email : a.contact_email ≡ b.contact_email

-- Two lines with every field the same, numbers by value
pub record IsSameLine (a b : InvoiceLine) : Type 0 where
  pub identifier : a.identifier ≡ b.identifier
  pub quantity : IsSameNumber a.quantity b.quantity
  pub unit_code : a.unit_code ≡ b.unit_code
  pub price : IsSameNumber a.price b.price
  pub name : a.name ≡ b.name
  pub vat_category : a.vat_category ≡ b.vat_category
  pub vat_rate : IsSameNumber a.vat_rate b.vat_rate
  pub note : a.note ≡ b.note
  pub description : a.description ≡ b.description
  pub period_start : a.period_start ≡ b.period_start
  pub period_end : a.period_end ≡ b.period_end
  pub order_line_identifier : a.order_line_identifier ≡ b.order_line_identifier
  pub seller_item_identifier : a.seller_item_identifier ≡ b.seller_item_identifier
  pub classification_code : a.classification_code ≡ b.classification_code
  pub classification_list : a.classification_list ≡ b.classification_list

-- As many lines, the same one by one
abbrev pub AreSameLines : List InvoiceLine → List InvoiceLine → Type 0
AreSameLines [] [] = Unit
AreSameLines [] (b ∷ ys) = ⊥
AreSameLines (a ∷ xs) [] = ⊥
AreSameLines (a ∷ xs) (b ∷ ys) = IsSameLine a b × AreSameLines xs ys

-- Two invoices with every field the same
pub record IsSame (a b : Invoice) : Type 0 where
  pub customization_id : a.customization_id ≡ b.customization_id
  pub profile_id : a.profile_id ≡ b.profile_id
  pub identifier : a.identifier ≡ b.identifier
  pub issue_date : a.issue_date ≡ b.issue_date
  pub invoice_type_code : a.invoice_type_code ≡ b.invoice_type_code
  pub currency : a.currency ≡ b.currency
  pub buyer_reference : a.buyer_reference ≡ b.buyer_reference
  pub seller : IsSameParty a.seller b.seller
  pub buyer : IsSameParty a.buyer b.buyer
  pub payment_means_code : a.payment_means_code ≡ b.payment_means_code
  pub payee_account_identifier : a.payee_account_identifier ≡ b.payee_account_identifier
  pub payment_terms : a.payment_terms ≡ b.payment_terms
  pub lines : AreSameLines a.lines b.lines
  pub note : a.note ≡ b.note
  pub payment_due_date : a.payment_due_date ≡ b.payment_due_date

unsome : {A : Type 0} {a b : A} → some a ≡ some b → a ≡ b
unsome h = cc h

IsSameParty-iff : (a b : Party) → AreSame party_fields a b ↔ IsSameParty a b
IsSameParty-iff a b = (
  λ h. record {
    endpoint = unsome h.0;
    endpoint_scheme = unsome h.1.0;
    registration_name = unsome h.1.1.0;
    street = unsome h.1.1.1.0;
    city = unsome h.1.1.1.1.0;
    postal_code = unsome h.1.1.1.1.1.0;
    country_code = unsome h.1.1.1.1.1.1.0;
    trading_name = h.1.1.1.1.1.1.1.0;
    tax_identifier = h.1.1.1.1.1.1.1.1.0;
    legal_identifier = h.1.1.1.1.1.1.1.1.1.0;
    legal_form = h.1.1.1.1.1.1.1.1.1.1.0;
    party_identifier = h.1.1.1.1.1.1.1.1.1.1.1.0;
    contact_name = h.1.1.1.1.1.1.1.1.1.1.1.1.0;
    contact_phone = h.1.1.1.1.1.1.1.1.1.1.1.1.1.0;
    contact_email = h.1.1.1.1.1.1.1.1.1.1.1.1.1.1.0;
  },
  λ s. (
    ap some s.endpoint,
    (
      ap some s.endpoint_scheme,
      (
        ap some s.registration_name,
        (
          ap some s.street,
          (
            ap some s.city,
            (
              ap some s.postal_code,
              (
                ap some s.country_code,
                (
                  s.trading_name,
                  (
                    s.tax_identifier,
                    (
                      s.legal_identifier,
                      (
                        s.legal_form,
                        (
                          s.party_identifier,
                          (s.contact_name, (s.contact_phone, (s.contact_email, tt))),
                        ),
                      ),
                    ),
                  ),
                ),
              ),
            ),
          ),
        ),
      ),
    ),
  ),
)

IsSameLine-iff : (a b : InvoiceLine) → AreSame line_fields a b ↔ IsSameLine a b
IsSameLine-iff a b = (
  λ h. record {
    identifier = unsome h.0;
    quantity = h.1.0;
    unit_code = unsome h.1.1.0;
    price = h.1.1.1.0;
    name = unsome h.1.1.1.1.0;
    vat_category = unsome h.1.1.1.1.1.0;
    vat_rate = h.1.1.1.1.1.1.0;
    note = h.1.1.1.1.1.1.1.0;
    description = h.1.1.1.1.1.1.1.1.0;
    period_start = h.1.1.1.1.1.1.1.1.1.0;
    period_end = h.1.1.1.1.1.1.1.1.1.1.0;
    order_line_identifier = h.1.1.1.1.1.1.1.1.1.1.1.0;
    seller_item_identifier = h.1.1.1.1.1.1.1.1.1.1.1.1.0;
    classification_code = h.1.1.1.1.1.1.1.1.1.1.1.1.1.0;
    classification_list = h.1.1.1.1.1.1.1.1.1.1.1.1.1.1.0;
  },
  λ s. (
    ap some s.identifier,
    (
      s.quantity,
      (
        ap some s.unit_code,
        (
          s.price,
          (
            ap some s.name,
            (
              ap some s.vat_category,
              (
                s.vat_rate,
                (
                  s.note,
                  (
                    s.description,
                    (
                      s.period_start,
                      (
                        s.period_end,
                        (
                          s.order_line_identifier,
                          (
                            s.seller_item_identifier,
                            (s.classification_code, (s.classification_list, tt)),
                          ),
                        ),
                      ),
                    ),
                  ),
                ),
              ),
            ),
          ),
        ),
      ),
    ),
  ),
)

text_option_iff : (a b : Option Text) → (text_option_eq a b ≡ true) ↔ (a ≡ b)
unfolding text_option_eq
text_option_iff none none = (λ h. refl, λ h. refl)
text_option_iff none (some b) = (cc, cc)
text_option_iff (some a) none = (cc, cc)
text_option_iff (some a) (some b) =
    (λ h. ap some ((text_eq_iff a b).0 h), λ h. (text_eq_iff a b).1 (cc h))

date_eq : (a b : Date) → a.year ≡ b.year → a.month ≡ b.month → a.day ≡ b.day → a ≡ b
date_eq a b y m d = cc (y, m, d)

date_option_iff : (a b : Option Date) → (date_option_eq a b ≡ true) ↔ (a ≡ b)
unfolding date_option_eq
date_option_iff none none = (λ h. refl, λ h. refl)
date_option_iff none (some b) = (cc, cc)
date_option_iff (some a) none = (cc, cc)
date_option_iff (some a) (some b) = (
  λ h. ap some (date_eq a b (ground arith) (ground arith) (ground arith)),
  λ h. let same : a ≡ b = cc h in rw same (ground arith),
)

value_iff : (a b : Value) → (value_eq a b ≡ true) ↔ IsSameValue a b
unfolding value_eq
value_iff (Value.text a) (Value.text b) = text_option_iff a b
value_iff (Value.number a) (Value.number b) = decimal_eq_iff a b
value_iff (Value.date a) (Value.date b) = date_option_iff a b
value_iff (Value.text a) (Value.number b) = (cc, absurd)
value_iff (Value.text a) (Value.date b) = (cc, absurd)
value_iff (Value.number a) (Value.text b) = (cc, absurd)
value_iff (Value.number a) (Value.date b) = (cc, absurd)
value_iff (Value.date a) (Value.text b) = (cc, absurd)
value_iff (Value.date a) (Value.number b) = (cc, absurd)

append_nil : (xs ys : List Text) → (xs ++ ys ≡ []) ↔ ((xs ≡ []) × (ys ≡ []))
append_nil [] ys = (λ h. (refl, h), λ h. h.1)
append_nil (x ∷ xs) ys = (cc, λ h. cc (h.0))

changed_by_iff :
    {A : Type 0} (prefix : Text) (fields : Fields A) (a b : A)
    → (changed_by prefix fields a b ≡ []) ↔ AreSame fields a b
unfolding changed_by
changed_by_iff prefix [] a b = (λ h. tt, λ h. refl)
changed_by_iff prefix ((name, get) ∷ rest) a b = elim (Bool-cases (value_eq (get a) (get b))) [
  | inl same ↦ (
    λ h. ((value_iff _ _).0 same, (changed_by_iff prefix rest a b).0 (rw same at h)),
    λ h. rw same ((changed_by_iff prefix rest a b).1 h.1),
  )
  | inr differ ↦ (λ h. cc (rw differ at h), λ h. cc (differ, (value_iff (get a) (get b)).1 h.0))
]

changed_lines_iff :
    (index : ℕ) (xs ys : List InvoiceLine) → (changed_lines index xs ys ≡ []) ↔ AreSameLines xs ys
unfolding changed_lines
changed_lines_iff index [] [] = (λ h. tt, λ h. refl)
changed_lines_iff index [] (b ∷ ys) = (cc, absurd)
changed_lines_iff index (a ∷ xs) [] = (cc, absurd)
changed_lines_iff index (a ∷ xs) (b ∷ ys) =
    let here = changed_by_iff (codes "lines[" ++ (show_ℕ index ++ codes "]")) line_fields a b in
    let later = changed_lines_iff (index + 1) xs ys in
    (
      λ h.
          let (one, more) = (append_nil _ _).0 h in
          ((IsSameLine-iff a b).0 (here.0 one), later.0 more),
      λ h. (append_nil _ _).1 (here.1 ((IsSameLine-iff a b).1 h.0), later.1 h.1),
    )

-- No field is reported as changed exactly if the two invoices agree in every field, their lines one
-- by one and in number.
pub changed_fields_iff : (a b : Invoice) → (changed_fields a b ≡ []) ↔ IsSame a b
unfolding changed_fields
changed_fields_iff a b = (
  λ h.
      let (h1, k1) = (append_nil _ _).0 h in
      let (h2, k2) = (append_nil _ _).0 k1 in
      let (h3, k3) = (append_nil _ _).0 k2 in
      let (h4, k4) = (append_nil _ _).0 k3 in
      let (h5, h6) = (append_nil _ _).0 k4 in
      let first = (changed_by_iff [] first_fields a b).0 h1 in
      let payment = (changed_by_iff [] payment_fields a b).0 h4 in
      let last = (changed_by_iff [] last_fields a b).0 h6 in
      record {
        customization_id = unsome first.0;
        profile_id = unsome first.1.0;
        identifier = unsome first.1.1.0;
        issue_date = unsome first.1.1.1.0;
        invoice_type_code = unsome first.1.1.1.1.0;
        currency = unsome first.1.1.1.1.1.0;
        buyer_reference = unsome first.1.1.1.1.1.1.0;
        seller =
            (IsSameParty-iff a.seller b.seller).0
              ((changed_by_iff (codes "seller") party_fields a.seller b.seller).0 h2);
        buyer =
            (IsSameParty-iff a.buyer b.buyer).0
              ((changed_by_iff (codes "buyer") party_fields a.buyer b.buyer).0 h3);
        payment_means_code = unsome payment.0;
        payee_account_identifier = unsome payment.1.0;
        payment_terms = unsome payment.1.1.0;
        lines = (changed_lines_iff 0 a.lines b.lines).0 h5;
        note = last.0;
        payment_due_date = last.1.0;
      },
  λ h.
      rw
        (
          (changed_by_iff [] first_fields a b).1 (
            ap some h.customization_id,
            (
              ap some h.profile_id,
              (
                ap some h.identifier,
                (
                  ap some h.issue_date,
                  (
                    ap some h.invoice_type_code,
                    (ap some h.currency, (ap some h.buyer_reference, tt)),
                  ),
                ),
              ),
            ),
          ),
          (changed_by_iff (codes "seller") party_fields a.seller b.seller).1
              ((IsSameParty-iff a.seller b.seller).1 h.seller),
          (changed_by_iff (codes "buyer") party_fields a.buyer b.buyer).1
              ((IsSameParty-iff a.buyer b.buyer).1 h.buyer),
          (changed_by_iff [] payment_fields a b).1 (
            ap some h.payment_means_code,
            (ap some h.payee_account_identifier, (ap some h.payment_terms, tt)),
          ),
          (changed_lines_iff 0 a.lines b.lines).1 h.lines,
          (changed_by_iff [] last_fields a b).1 (h.note, (h.payment_due_date, tt)),
        )
        refl,
)
