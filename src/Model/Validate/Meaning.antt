-- ===== src/Model/Validate/Meaning.antt =====
-- What a valid date, text, period and pair of codes is, field by field and without the checks.
use rechnungsprobe.Prelude.{
  ℕ, ◌≤◌, ◌<◌, String, true, false, Option, none, some, List, Text, ◌≡◌, ◌↔◌, ◌⊎◌, refl, arith, All,
}
use rechnungsprobe.Model.Invoice.{Party, InvoiceLine, Invoice, Date, is_before}
use rechnungsprobe.Model.Validate.{
  party_texts, line_texts, line_long_texts, invoice_texts, both_or_none, in_order,
}
use rechnungsprobe.Model.Validate.Values.{IsText, IsOptionalText, not-true_iff}

abbrev pub AreTexts : ℕ → List (String × Option Text) → Type 0
AreTexts limit fields = All (λ f. IsOptionalText limit f.1) fields

-- A party's texts, each where it is mandatory or given
pub record ArePartyTexts (p : Party) : Type 0 where
  pub endpoint : IsText 1000 p.endpoint
  pub endpoint_scheme : IsText 1000 p.endpoint_scheme
  pub registration_name : IsText 1000 p.registration_name
  pub street : IsText 1000 p.street
  pub city : IsText 1000 p.city
  pub postal_code : IsText 1000 p.postal_code
  pub country_code : IsText 1000 p.country_code
  pub trading_name : IsOptionalText 1000 p.trading_name
  pub tax_identifier : IsOptionalText 1000 p.tax_identifier
  pub legal_identifier : IsOptionalText 1000 p.legal_identifier
  pub legal_form : IsOptionalText 1000 p.legal_form
  pub party_identifier : IsOptionalText 1000 p.party_identifier
  pub contact_name : IsOptionalText 1000 p.contact_name
  pub contact_phone : IsOptionalText 1000 p.contact_phone
  pub contact_email : IsOptionalText 1000 p.contact_email

pub party_texts_iff : (p : Party) → AreTexts 1000 (party_texts p) ↔ ArePartyTexts p
party_texts_iff p = (
  λ h. record {
    endpoint = h.0;
    endpoint_scheme = h.1.0;
    registration_name = h.1.1.0;
    street = h.1.1.1.0;
    city = h.1.1.1.1.0;
    postal_code = h.1.1.1.1.1.0;
    country_code = h.1.1.1.1.1.1.0;
    trading_name = h.1.1.1.1.1.1.1.0;
    tax_identifier = h.1.1.1.1.1.1.1.1.0;
    legal_identifier = h.1.1.1.1.1.1.1.1.1.0;
    legal_form = h.1.1.1.1.1.1.1.1.1.1.0;
    party_identifier = h.1.1.1.1.1.1.1.1.1.1.1.0;
    contact_name = h.1.1.1.1.1.1.1.1.1.1.1.1.0;
    contact_phone = h.1.1.1.1.1.1.1.1.1.1.1.1.1.0;
    contact_email = h.1.1.1.1.1.1.1.1.1.1.1.1.1.1.0;
  },
  λ t. (
    t.endpoint,
    (
      t.endpoint_scheme,
      (
        t.registration_name,
        (
          t.street,
          (
            t.city,
            (
              t.postal_code,
              (
                t.country_code,
                (
                  t.trading_name,
                  (
                    t.tax_identifier,
                    (
                      t.legal_identifier,
                      (
                        t.legal_form,
                        (
                          t.party_identifier,
                          (t.contact_name, (t.contact_phone, (t.contact_email, tt))),
                        ),
                      ),
                    ),
                  ),
                ),
              ),
            ),
          ),
        ),
      ),
    ),
  ),
)

-- The mandatory texts of a line
pub record AreLineTexts (l : InvoiceLine) : Type 0 where
  pub identifier : IsText 1000 l.identifier
  pub unit_code : IsText 1000 l.unit_code
  pub name : IsText 1000 l.name
  pub vat_category : IsText 1000 l.vat_category

pub line_texts_iff : (l : InvoiceLine) → AreTexts 1000 (line_texts l) ↔ AreLineTexts l
line_texts_iff l = (
  λ h. record { identifier = h.0; unit_code = h.1.0; name = h.1.1.0; vat_category = h.1.1.1.0 },
  λ t. (t.identifier, (t.unit_code, (t.name, (t.vat_category, tt)))),
)

-- The optional texts of a line
pub record AreLongTexts (l : InvoiceLine) : Type 0 where
  pub note : IsOptionalText 5000 l.note
  pub description : IsOptionalText 5000 l.description
  pub order_line_identifier : IsOptionalText 5000 l.order_line_identifier
  pub seller_item_identifier : IsOptionalText 5000 l.seller_item_identifier
  pub classification_code : IsOptionalText 5000 l.classification_code
  pub classification_list : IsOptionalText 5000 l.classification_list

pub line_long_texts_iff : (l : InvoiceLine) → AreTexts 5000 (line_long_texts l) ↔ AreLongTexts l
line_long_texts_iff l = (
  λ h. record {
    note = h.0;
    description = h.1.0;
    order_line_identifier = h.1.1.0;
    seller_item_identifier = h.1.1.1.0;
    classification_code = h.1.1.1.1.0;
    classification_list = h.1.1.1.1.1.0;
  },
  λ t. (
    t.note,
    (
      t.description,
      (
        t.order_line_identifier,
        (t.seller_item_identifier, (t.classification_code, (t.classification_list, tt))),
      ),
    ),
  ),
)

-- The texts of an invoice itself
pub record AreInvoiceTexts (i : Invoice) : Type 0 where
  pub customization_id : IsText 5000 i.customization_id
  pub profile_id : IsText 5000 i.profile_id
  pub identifier : IsText 5000 i.identifier
  pub invoice_type_code : IsText 5000 i.invoice_type_code
  pub currency : IsText 5000 i.currency
  pub buyer_reference : IsText 5000 i.buyer_reference
  pub payment_means_code : IsText 5000 i.payment_means_code
  pub payee_account_identifier : IsText 5000 i.payee_account_identifier
  pub payment_terms : IsText 5000 i.payment_terms
  pub note : IsOptionalText 5000 i.note

pub invoice_texts_iff : (i : Invoice) → AreTexts 5000 (invoice_texts i) ↔ AreInvoiceTexts i
invoice_texts_iff i = (
  λ h. record {
    customization_id = h.0;
    profile_id = h.1.0;
    identifier = h.1.1.0;
    invoice_type_code = h.1.1.1.0;
    currency = h.1.1.1.1.0;
    buyer_reference = h.1.1.1.1.1.0;
    payment_means_code = h.1.1.1.1.1.1.0;
    payee_account_identifier = h.1.1.1.1.1.1.1.0;
    payment_terms = h.1.1.1.1.1.1.1.1.0;
    note = h.1.1.1.1.1.1.1.1.1.0;
  },
  λ t. (
    t.customization_id,
    (
      t.profile_id,
      (
        t.identifier,
        (
          t.invoice_type_code,
          (
            t.currency,
            (
              t.buyer_reference,
              (t.payment_means_code, (t.payee_account_identifier, (t.payment_terms, (t.note, tt)))),
            ),
          ),
        ),
      ),
    ),
  ),
)

-- A date that is the same or a later one
abbrev pub IsNotBefore : Date → Date → Type 0
IsNotBefore a b =
    (b.year < a.year)
    ⊎ ((b.year ≡ a.year) × ((b.month < a.month) ⊎ ((b.month ≡ a.month) × (b.day ≤ a.day))))

pub is_before_iff : (a b : Date) → (is_before a b ≡ false) ↔ IsNotBefore a b
unfolding is_before
is_before_iff a b = (λ h. ground arith, λ h. ground arith)

-- Both dates, the end not before the start, or neither.
abbrev pub IsPeriod : Option Date → Option Date → Type 0
IsPeriod none none = Unit
IsPeriod none (some end) = ⊥
IsPeriod (some start) none = ⊥
IsPeriod (some start) (some end) = IsNotBefore end start

pub IsPeriod-iff :
    (start end : Option Date)
    → ((both_or_none start end ≡ true) × (in_order start end ≡ true)) ↔ IsPeriod start end
unfolding both_or_none in_order
IsPeriod-iff none none = (λ h. tt, λ h. (refl, refl))
IsPeriod-iff none (some end) = (λ h. cc, λ h. absurd h)
IsPeriod-iff (some start) none = (λ h. cc, λ h. absurd h)
IsPeriod-iff (some start) (some end) = (
  λ h. (is_before_iff end start).0 ((not-true_iff _).0 h.1),
  λ h. (refl, (not-true_iff _).1 ((is_before_iff end start).1 h)),
)

-- Both or neither
abbrev pub IsPair : Option Text → Option Text → Type 0
IsPair none none = Unit
IsPair none (some b) = ⊥
IsPair (some a) none = ⊥
IsPair (some a) (some b) = Unit

pub IsPair-iff : (a b : Option Text) → (both_or_none a b ≡ true) ↔ IsPair a b
unfolding both_or_none
IsPair-iff none none = (λ h. tt, λ h. refl)
IsPair-iff none (some b) = (λ h. cc, λ h. absurd h)
IsPair-iff (some a) none = (λ h. cc, λ h. absurd h)
IsPair-iff (some a) (some b) = (λ h. tt, λ h. refl)
