-- ===== src/Model/Validate/Parts.antt =====
-- What a validated party and a validated line satisfy, and that the checks accept exactly those.
use rechnungsprobe.Prelude.{
  ℕ, String, Bool, true, false, not, ◌||◌, ◌&&◌, Option, none, some, List, [], ◌∷◌, Text, codes,
  text_eq, text_eq_iff, ◌==◌, ◌≡◌, ◌↔◌, refl, arith, length, any, all,
}
use rechnungsprobe.Errors.{Place, line_at, ModelError, ok, model_error}
use rechnungsprobe.Model.Invoice.{Party, InvoiceLine, Host}
use rechnungsprobe.Model.Validate.{
  require, validate_text, validate_decimal, validate_texts, validate_party, validate_line,
  party_texts, line_texts, line_long_texts,
}
use rechnungsprobe.Model.Validate.Meaning.{
  AreTexts, ArePartyTexts, AreLineTexts, AreLongTexts, party_texts_iff, line_texts_iff,
  line_long_texts_iff, IsPeriod, IsPeriod-iff, IsPair, IsPair-iff,
}
use rechnungsprobe.Model.Validate.Values.{
  IsOptionalText, IsNumber, >>_iff, validate_present_iff, validate_decimal_iff, guard_iff,
}

validate_text_iff :
    (t : Option Text) (place : Place) (field : String) (limit : ℕ)
    → (validate_text t place field limit ≡ ok tt) ↔ IsOptionalText limit t
unfolding validate_text
validate_text_iff none place field limit = (λ h. tt, λ h. refl)
validate_text_iff (some t) place field limit = validate_present_iff t place field limit

pub validate_texts_iff :
    (place : Place) (limit : ℕ) (fields : List (String × Option Text))
    → (validate_texts place limit fields ≡ ok tt) ↔ AreTexts limit fields
unfolding validate_texts
validate_texts_iff place limit [] = (λ h. tt, λ h. refl)
validate_texts_iff place limit ((f, t) ∷ fields) = (
  λ h.
      let (first, rest) = (>>_iff (validate_text t place f limit) _).0 h in
      ((validate_text_iff t place f limit).0 first, (validate_texts_iff place limit fields).0 rest),
  λ h.
      (>>_iff (validate_text t place f limit) _).1
        ((validate_text_iff t place f limit).1 h.0, (validate_texts_iff place limit fields).1 h.1),
)

-- The parts of a chain of two, three or more checks.
pub require_iff : (b : Bool) (e : ModelError) → (require b e ≡ ok tt) ↔ (b ≡ true)
require_iff b e = guard_iff b (model_error e)

two_letters_iff : (n : ℕ) (b : Bool) → ((n == 2 && b) ≡ true) ↔ ((n ≡ 2) × (b ≡ true))
two_letters_iff n b = (λ h. ground arith, λ h. ground arith)

not-or_iff : (t b : Bool) → ((not t || b) ≡ true) ↔ (t ≡ true → b ≡ true)
not-or_iff true b = (λ h e. h, λ h. h refl)
not-or_iff false b = (λ h e. cc, λ h. refl)

email_iff :
    (scheme : Text) (b : Bool)
    → ((not (text_eq scheme (codes "EM")) || b) ≡ true) ↔ (scheme ≡ codes "EM" → b ≡ true)
email_iff scheme b = (
  λ h e. (not-or_iff _ b).0 h ((text_eq_iff scheme (codes "EM")).1 e),
  λ h. (not-or_iff _ b).1 (λ e. h ((text_eq_iff scheme (codes "EM")).0 e)),
)

module _ ⦃host : Host⦄ where
  pub record IsParty (p : Party) : Type 0 where
    pub texts : ArePartyTexts p
    pub two_letters : length p.country_code ≡ 2
    pub letters : all host.is_alpha p.country_code ≡ true
    pub email : p.endpoint_scheme ≡ codes "EM" → any (λ c. c == b'@') p.endpoint ≡ true

  pub validate_party_iff :
      (place : Place) (p : Party) → (validate_party place p ≡ ok tt) ↔ IsParty p
  unfolding validate_party
  validate_party_iff place p = (
    λ h.
        let (texts, rest) = (>>_iff (validate_texts place 1000 (party_texts p)) _).0 h in
        let (country, email) = (>>_iff (require _ _) _).0 rest in
        let (two, letters) =
          (two_letters_iff (length p.country_code) (all host.is_alpha p.country_code)).0
            ((require_iff _ _).0 country) in
        record {
          texts = (party_texts_iff p).0 ((validate_texts_iff place 1000 (party_texts p)).0 texts);
          two_letters = two;
          letters = letters;
          email = (email_iff p.endpoint_scheme _).0 ((require_iff _ _).0 email);
        },
    λ h. (>>_iff (validate_texts place 1000 (party_texts p)) _).1 (
      (validate_texts_iff place 1000 (party_texts p)).1 ((party_texts_iff p).1 h.texts),
      (>>_iff (require _ _) _).1 (
        (require_iff _ _).1 ((two_letters_iff _ _).1 (h.two_letters, h.letters)),
        (require_iff _ _).1 ((email_iff p.endpoint_scheme _).1 h.email),
      ),
    ),
  )

pub record IsLine (l : InvoiceLine) : Type 0 where
  pub texts : AreLineTexts l
  pub long_texts : AreLongTexts l
  pub quantity : IsNumber true l.quantity
  pub price : IsNumber false l.price
  pub vat_rate : IsNumber true l.vat_rate
  pub category : l.vat_category ≡ codes "S"
  pub period : IsPeriod l.period_start l.period_end
  pub classification : IsPair l.classification_code l.classification_list

pub validate_line-IsLine : (index : ℕ) (l : InvoiceLine) → validate_line index l ≡ ok tt → IsLine l
unfolding validate_line
validate_line-IsLine index l h =
    let place = line_at index in
    let (texts, h1) = (>>_iff (validate_texts place 1000 (line_texts l)) _).0 h in
    let (long, h2) = (>>_iff (validate_texts place 5000 (line_long_texts l)) _).0 h1 in
    let (quantity, h3) = (>>_iff (validate_decimal l.quantity place "quantity" true) _).0 h2 in
    let (price, h4) = (>>_iff (validate_decimal l.price place "price" false) _).0 h3 in
    let (rate, h5) = (>>_iff (validate_decimal l.vat_rate place "vat_rate" true) _).0 h4 in
    let (category, h6) = (>>_iff (require _ _) _).0 h5 in
    let (both, h7) = (>>_iff (require _ _) _).0 h6 in
    let (order, classified) = (>>_iff (require _ _) _).0 h7 in
    record {
      texts = (line_texts_iff l).0 ((validate_texts_iff place 1000 (line_texts l)).0 texts);
      long_texts =
          (line_long_texts_iff l).0 ((validate_texts_iff place 5000 (line_long_texts l)).0 long);
      quantity = (validate_decimal_iff l.quantity place "quantity" true).0 quantity;
      price = (validate_decimal_iff l.price place "price" false).0 price;
      vat_rate = (validate_decimal_iff l.vat_rate place "vat_rate" true).0 rate;
      category = (text_eq_iff l.vat_category (codes "S")).0 ((require_iff _ _).0 category);
      period =
          (IsPeriod-iff l.period_start l.period_end).0
            ((require_iff _ _).0 both, (require_iff _ _).0 order);
      classification =
          (IsPair-iff l.classification_code l.classification_list).0
            ((require_iff _ _).0 classified);
    }

pub IsLine-validate_line : (index : ℕ) (l : InvoiceLine) → IsLine l → validate_line index l ≡ ok tt
unfolding validate_line
IsLine-validate_line index l v =
    let place = line_at index in
    let (both, order) = (IsPeriod-iff l.period_start l.period_end).1 v.period in
    rw (
      (validate_texts_iff place 1000 (line_texts l)).1 ((line_texts_iff l).1 v.texts),
      (validate_texts_iff place 5000 (line_long_texts l)).1
          ((line_long_texts_iff l).1 v.long_texts),
      (validate_decimal_iff l.quantity place "quantity" true).1 v.quantity,
      (validate_decimal_iff l.price place "price" false).1 v.price,
      (validate_decimal_iff l.vat_rate place "vat_rate" true).1 v.vat_rate,
      (text_eq_iff l.vat_category (codes "S")).1 v.category,
      both,
      order,
      (IsPair-iff l.classification_code l.classification_list).1 v.classification,
    )
