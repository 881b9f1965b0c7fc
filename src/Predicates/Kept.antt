-- ===== src/Predicates/Kept.antt =====
-- What `DeclaredFieldLossPredicate` of src/rechnungsprobe/predicates.py promises of every selector,
-- written out for each by name.
use rechnungsprobe.Prelude.{
  Text, codes, text_eq, text_eq_iff, Bool, true, false, ◌&&◌, Option, none, some, List, [], ◌∷◌,
  map, All, ◌≡◌, ◌∙◌, ◌⊎◌, refl, sym, ap, Bool-cases, inl, inr,
}
use rechnungsprobe.Errors.{ok, ok-injective, >>=-eq-ok}
use rechnungsprobe.Decimal.{Decimal, normalize, format_plain}
use rechnungsprobe.Model.Invoice.{Date, InvoiceLine, Invoice, isoformat}
use rechnungsprobe.Predicates.Loss.{
  Selected, scalar_date, field_selectors, scalar_decimal, selected_by, field_value, option_eq,
  options_eq, selected_eq, lost_fields,
}

-- A number without trailing zeros and without an exponent
abbrev pub plain_text : Decimal → Option Text
plain_text value = some (format_plain (normalize value))

abbrev pub date_text : Option Date → Option Text
date_text none = none
date_text (some d) = some (isoformat d)

-- As many lines, each with the same value as its counterpart
abbrev pub AreAlike : (InvoiceLine → Option Text) → List InvoiceLine → List InvoiceLine → Type 0
AreAlike get [] [] = Unit
AreAlike get [] (m ∷ ms) = ⊥
AreAlike get (l ∷ ls) [] = ⊥
AreAlike get (l ∷ ls) (m ∷ ms) = (get l ≡ get m) × AreAlike get ls ms

abbrev pub Meaning : Type 1
Meaning = Text × (Invoice → Invoice → Type 0)

-- What it means for each field that two invoices agree in it
abbrev pub field_meanings : List Meaning
field_meanings =
    (codes "identifier", λ a b. a.identifier ≡ b.identifier)
    ∷ (codes "buyer_reference", λ a b. a.buyer_reference ≡ b.buyer_reference)
    ∷ (codes "issue_date", λ a b. isoformat a.issue_date ≡ isoformat b.issue_date)
    ∷ (codes "payment_terms", λ a b. a.payment_terms ≡ b.payment_terms)
    ∷ (codes "payment_due_date", λ a b. date_text a.payment_due_date ≡ date_text b.payment_due_date)
    ∷ (codes "seller.endpoint", λ a b. a.seller.endpoint ≡ b.seller.endpoint)
    ∷ (
      codes "seller.registration_name",
      λ a b. a.seller.registration_name ≡ b.seller.registration_name,
    )
    ∷ (
      codes "seller.party_identifier",
      λ a b. a.seller.party_identifier ≡ b.seller.party_identifier,
    )
    ∷ (codes "buyer.endpoint", λ a b. a.buyer.endpoint ≡ b.buyer.endpoint)
    ∷ (
      codes "buyer.registration_name",
      λ a b. a.buyer.registration_name ≡ b.buyer.registration_name,
    )
    ∷ (codes "lines.identifier", λ a b. AreAlike (λ l. some l.identifier) a.lines b.lines)
    ∷ (codes "lines.name", λ a b. AreAlike (λ l. some l.name) a.lines b.lines)
    ∷ (codes "lines.description", λ a b. AreAlike (λ l. l.description) a.lines b.lines)
    ∷ (codes "lines.note", λ a b. AreAlike (λ l. l.note) a.lines b.lines)
    ∷ (codes "lines.quantity", λ a b. AreAlike (λ l. plain_text l.quantity) a.lines b.lines)
    ∷ (codes "lines.price", λ a b. AreAlike (λ l. plain_text l.price) a.lines b.lines)
    ∷ (codes "lines.vat_rate", λ a b. AreAlike (λ l. plain_text l.vat_rate) a.lines b.lines)
    ∷ []

-- The field is one of those in the table, and the invoices agree in it.
abbrev pub HasMeaning : List Meaning → Invoice → Invoice → Text → Type 0
HasMeaning [] a b field = ⊥
HasMeaning ((key, agree) ∷ rest) a b field = ((field ≡ key) × agree a b) ⊎ HasMeaning rest a b field

abbrev pub IsKept : Invoice → Invoice → Text → Type 0
IsKept = HasMeaning field_meanings

same_option : (a b : Option Text) → option_eq a b ≡ true → a ≡ b
same_option none none h = refl
same_option none (some b) h = cc h
same_option (some a) none h = cc h
same_option (some a) (some b) h = ap some ((text_eq_iff a b).0 h)

same_dates :
    (a b : Option Date)
    → option_eq (scalar_date a) (scalar_date b) ≡ true
    → date_text a ≡ date_text b
same_dates none none h = refl
same_dates none (some b) h = cc h
same_dates (some a) none h = cc h
same_dates (some a) (some b) h = ap some ((text_eq_iff (isoformat a) (isoformat b)).0 h)

both : (a b : Bool) → (a && b) ≡ true → (a ≡ true) × (b ≡ true)
both true b h = (refl, h)
both false b h = cc h

alike :
    (get : InvoiceLine → Option Text) (ls ms : List InvoiceLine)
    → options_eq (map get ls) (map get ms) ≡ true
    → AreAlike get ls ms
alike get [] [] h = tt
alike get [] (m ∷ ms) h = cc h
alike get (l ∷ ls) [] h = cc h
alike get (l ∷ ls) (m ∷ ms) h =
    let (first, rest) = both (option_eq (get l) (get m)) _ h in
    (same_option (get l) (get m) first, alike get ls ms rest)

-- The selectors of the program, row by row, select values that are equal only where these meanings hold.
abbrev Match : List (Text × (Invoice → Selected)) → List Meaning → Type 0
Match [] [] = Unit
Match [] (m ∷ ms) = ⊥
Match (s ∷ ss) [] = ⊥
Match ((key, get) ∷ ss) ((key', agree) ∷ ms) =
    (key ≡ key') × ((a b : Invoice) → selected_eq (get a) (get b) ≡ true → agree a b) × Match ss ms

selectors-Match : Match field_selectors field_meanings
unfolding field_selectors scalar_decimal
selectors-Match = (
  refl,
  λ a b h. (text_eq_iff a.identifier b.identifier).0 h,
  (
    refl,
    λ a b h. (text_eq_iff a.buyer_reference b.buyer_reference).0 h,
    (
      refl,
      λ a b h. (text_eq_iff (isoformat a.issue_date) (isoformat b.issue_date)).0 h,
      (
        refl,
        λ a b h. (text_eq_iff a.payment_terms b.payment_terms).0 h,
        (
          refl,
          λ a b h. same_dates a.payment_due_date b.payment_due_date h,
          (
            refl,
            λ a b h. (text_eq_iff a.seller.endpoint b.seller.endpoint).0 h,
            (
              refl,
              λ a b h. (text_eq_iff a.seller.registration_name b.seller.registration_name).0 h,
              (
                refl,
                λ a b h. same_option a.seller.party_identifier b.seller.party_identifier h,
                (
                  refl,
                  λ a b h. (text_eq_iff a.buyer.endpoint b.buyer.endpoint).0 h,
                  (
                    refl,
                    λ a b h. (text_eq_iff a.buyer.registration_name b.buyer.registration_name).0 h,
                    (
                      refl,
                      λ a b h. alike (λ l. some l.identifier) a.lines b.lines h,
                      (
                        refl,
                        λ a b h. alike (λ l. some l.name) a.lines b.lines h,
                        (
                          refl,
                          λ a b h. alike (λ l. l.description) a.lines b.lines h,
                          (
                            refl,
                            λ a b h. alike (λ l. l.note) a.lines b.lines h,
                            (
                              refl,
                              λ a b h. alike (λ l. plain_text l.quantity) a.lines b.lines h,
                              (
                                refl,
                                λ a b h. alike (λ l. plain_text l.price) a.lines b.lines h,
                                (
                                  refl,
                                  λ a b h. alike (λ l. plain_text l.vat_rate) a.lines b.lines h,
                                  tt,
                                ),
                              ),
                            ),
                          ),
                        ),
                      ),
                    ),
                  ),
                ),
              ),
            ),
          ),
        ),
      ),
    ),
  ),
)

selected-HasMeaning :
    (selectors : List (Text × (Invoice → Selected))) (meanings : List Meaning) (field : Text)
    (a b : Invoice) (before after : Selected)
    → Match selectors meanings
    → selected_by field selectors a ≡ ok before
    → selected_by field selectors b ≡ ok after
    → selected_eq before after ≡ true
    → HasMeaning meanings a b field
unfolding selected_by
selected-HasMeaning [] meanings field a b before after m h k same = cc h
selected-HasMeaning (s ∷ ss) [] field a b before after m h k same = absurd m
selected-HasMeaning ((key, get) ∷ ss) ((key', agree) ∷ ms) field a b before after (e, agrees, m) h k
      same =
    elim (Bool-cases (text_eq key field)) [
      | inl this ↦
          let first : get a ≡ before = ok-injective (rw this at h) in
          let second : get b ≡ after = ok-injective (rw this at k) in
          inl (sym ((text_eq_iff key field).0 this) ∙ e, agrees a b (cc (first, second, same)))
      | inr other ↦
          inr (
            selected-HasMeaning ss ms field a b before after m (rw other at h) (rw other at k) same)
    ]

-- When no declared field is lost, each of them is one of the seventeen selectors, and the two invoices
-- agree in it: in the text of the field, in the date, or, for a selector of lines, in their number and
-- in the text or the plain decimal of each line.
pub lost_fields-AreKept :
    (fields : List Text) (source output : Invoice)
    → lost_fields fields source output ≡ ok []
    → All (IsKept source output) fields
unfolding lost_fields field_value
lost_fields-AreKept [] source output h = tt
lost_fields-AreKept (field ∷ rest) source output h =
    let (before, read_before, h1) = >>=-eq-ok (field_value source field) _ h in
    let (after, read_after, h2) = >>=-eq-ok (field_value output field) _ h1 in
    let (lost, later, h3) = >>=-eq-ok (lost_fields rest source output) _ h2 in
    elim (Bool-cases (selected_eq before after)) [
      | inl equal ↦
          let none_lost : lost ≡ [] = cc (rw equal at h3) in
          (
            selected-HasMeaning field_selectors field_meanings field source output before after
                selectors-Match read_before read_after equal,
            lost_fields-AreKept rest source output (cc (later, none_lost)),
          )
      | inr differ ↦ cc (rw differ at h3)
    ]
