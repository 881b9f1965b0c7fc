-- ===== src/Model/Validate/Values.antt =====
-- What a validated text and a validated decimal satisfy, stated without the checks.
use rechnungsprobe.Prelude.{
  ℕ, ◌*◌, ◌^◌, ◌≤◌, ◌<◌, String, Bool, true, false, not, ◌||◌, ◌&&◌, Option, none, some, [], ◌∷◌,
  Text, leb, ◌==◌, ◌≡◌, ◌↔◌, ◌⊎◌, refl, arith, length, any, All,
}
use rechnungsprobe.Prelude.Int.{ℤ, pos, negsuc, gap, neg_part}
use rechnungsprobe.Errors.{Place, Error, Result, ok, err, ◌>>◌, guard}
use rechnungsprobe.Decimal.{
  Decimal, finite, special, is_finite, is_at_most_zero, is_negative, exceeds,
  has_more_than_six_places,
}
use rechnungsprobe.Model.Validate.{is_control, validate_present, validate_decimal}

abbrev pub IsXmlCharacter : ℕ → Type 0
IsXmlCharacter c = (32 ≤ c) ⊎ (c ≡ 9) ⊎ (c ≡ 10) ⊎ (c ≡ 13)

-- A text of 1 to `limit` characters that XML can hold.
pub record IsText (limit : ℕ) (t : Text) : Type 0 where
  pub nonempty : 1 ≤ length t
  pub short : length t ≤ limit
  pub characters : All IsXmlCharacter t

abbrev pub IsOptionalText : ℕ → Option Text → Type 0
IsOptionalText limit none = Unit
IsOptionalText limit (some t) = IsText limit t

-- A decimal of at most six places and at most a thousand million, above zero or not below it.
abbrev pub IsNumber : Bool → Decimal → Type 0
IsNumber true (finite s c e) =
    (s ≡ false)
    × (0 < c)
    × (c * 10 ^ gap e (pos 0) ≤ 1000000000 * 10 ^ gap (pos 0) e)
    × (neg_part e ≤ 6)
IsNumber false (finite s c e) =
    ((s ≡ false) ⊎ (c ≡ 0))
    × (c * 10 ^ gap e (pos 0) ≤ 1000000000 * 10 ^ gap (pos 0) e)
    × (neg_part e ≤ 6)
IsNumber positive special = ⊥

pub guard_iff : (b : Bool) (e : Error) → (guard b e ≡ ok tt) ↔ (b ≡ true)
guard_iff true e = (λ h. refl, λ h. refl)
guard_iff false e = (λ h. cc, λ h. cc)

pub >>_iff : (m k : Result (Unit {0})) → ((m >> k) ≡ ok tt) ↔ ((m ≡ ok tt) × (k ≡ ok tt))
>>_iff (ok tt) k = (λ h. (refl, h), λ h. h.1)
>>_iff (err e) k = (λ h. cc, λ h. cc)

control→character : (c : ℕ) → is_control c ≡ false → IsXmlCharacter c
unfolding is_control
control→character c h = grind arith

character→control : (c : ℕ) → IsXmlCharacter c → is_control c ≡ false
unfolding is_control
character→control c h = grind arith

any_control→characters : (t : Text) → any is_control t ≡ false → All IsXmlCharacter t
any_control→characters [] h = tt
any_control→characters (c ∷ t) h =
    (control→character c (ground arith), any_control→characters t (ground arith))

characters→any_control : (t : Text) → All IsXmlCharacter t → any is_control t ≡ false
characters→any_control [] h = refl
characters→any_control (c ∷ t) h =
    ground (arith, character→control c h.0, characters→any_control t h.1)

two_guards_iff :
    (b b' : Bool) (e e' : Error) → ((guard b e >> guard b' e') ≡ ok tt) ↔ ((b ≡ true) × (b' ≡ true))
two_guards_iff true true e e' = (λ h. (refl, refl), λ h. refl)
two_guards_iff true false e e' = (λ h. cc, λ h. cc)
two_guards_iff false b' e e' = (λ h. cc, λ h. cc)

length_test_iff : (n limit : ℕ) → ((not (n == 0) && leb n limit) ≡ true) ↔ ((1 ≤ n) × (n ≤ limit))
length_test_iff n limit = (λ h. ground arith, λ h. ground arith)

pub not-true_iff : (b : Bool) → (not b ≡ true) ↔ (b ≡ false)
not-true_iff true = (λ h. cc, λ h. cc)
not-true_iff false = (λ h. refl, λ h. refl)

pub validate_present_iff :
    (t : Text) (place : Place) (field : String) (limit : ℕ)
    → (validate_present t place field limit ≡ ok tt) ↔ IsText limit t
unfolding validate_present
validate_present_iff t place field limit = (
  λ h.
      let (sized, clean) = (two_guards_iff _ _ _ _).0 h in
      let (low, high) = (length_test_iff (length t) limit).0 sized in
      record {
        nonempty = low;
        short = high;
        characters = any_control→characters t ((not-true_iff (any is_control t)).0 clean);
      },
  λ h. (two_guards_iff _ _ _ _).1 (
    (length_test_iff (length t) limit).1 (h.nonempty, h.short),
    (not-true_iff (any is_control t)).1 (characters→any_control t h.characters),
  ),
)

in_bounds_iff :
    (c : ℕ) (e : ℤ)
    → (not (exceeds 1000000000 (finite false c e) || has_more_than_six_places (finite false c e))
        ≡ true)
      ↔ ((c * 10 ^ gap e (pos 0) ≤ 1000000000 * 10 ^ gap (pos 0) e) × (neg_part e ≤ 6))
unfolding exceeds has_more_than_six_places
in_bounds_iff c (pos n) = (λ h. ground arith, λ h. ground arith)
in_bounds_iff c (negsuc n) = (λ h. ground arith, λ h. ground arith)

positive_iff :
    (s : Bool) (c : ℕ) (e : ℤ)
    → (not (is_at_most_zero (finite s c e)) ≡ true) ↔ ((s ≡ false) × (0 < c))
unfolding is_at_most_zero
positive_iff s c e = (λ h. ground arith, λ h. ground arith)

not_negative_iff :
    (s : Bool) (c : ℕ) (e : ℤ) → (not (is_negative (finite s c e)) ≡ true) ↔ ((s ≡ false) ⊎ (c ≡ 0))
unfolding is_negative
not_negative_iff s c e = (λ h. grind arith, λ h. grind arith)

pub validate_decimal_iff :
    (d : Decimal) (place : Place) (field : String) (positive : Bool)
    → (validate_decimal d place field positive ≡ ok tt) ↔ IsNumber positive d
unfolding validate_decimal is_finite exceeds has_more_than_six_places
validate_decimal_iff (finite s c e) place field true = (
  λ h.
      let (sign, size) = (two_guards_iff _ _ _ _).0 h in
      let (plus, more) = (positive_iff s c e).0 sign in
      let (low, places) = (in_bounds_iff c e).0 size in (plus, more, low, places),
  λ h.
      (two_guards_iff _ _ _ _).1
        ((positive_iff s c e).1 (h.0, h.1), (in_bounds_iff c e).1 (h.2, h.3)),
)
validate_decimal_iff (finite s c e) place field false = (
  λ h.
      let (sign, size) = (two_guards_iff _ _ _ _).0 h in
      let (low, places) = (in_bounds_iff c e).0 size in
      ((not_negative_iff s c e).0 sign, low, places),
  λ h.
      (two_guards_iff _ _ _ _).1 ((not_negative_iff s c e).1 h.0, (in_bounds_iff c e).1 (h.1, h.2)),
)
validate_decimal_iff special place field true = (λ h. cc, λ h. absurd h)
validate_decimal_iff special place field false = (λ h. cc, λ h. absurd h)
