-- ===== src/Decimal/Same.antt =====
-- When two decimals of Python are equal: `decimal_eq` without its tests.
use rechnungsprobe.Prelude.{◌*◌, ◌^◌, Bool, true, false, not, ◌≡◌, ◌↔◌, ◌⊎◌, refl, arith}
use rechnungsprobe.Prelude.Int.{gap}
use rechnungsprobe.Decimal.{Decimal, finite, special, differ, decimal_eq}

-- Two zeros, or numbers of one sign whose coefficients are equal at the smaller of the exponents
abbrev pub IsSameNumber : Decimal → Decimal → Type 0
IsSameNumber (finite s c e) (finite s' c' e') =
    ((c ≡ 0) × (c' ≡ 0)) ⊎ ((s ≡ s') × (c * 10 ^ gap e e' ≡ c' * 10 ^ gap e' e))
IsSameNumber (finite s c e) special = ⊥
IsSameNumber special d = ⊥

same_sign : (s s' : Bool) → (not (differ s s') ≡ true) ↔ (s ≡ s')
same_sign true true = (λ h. refl, λ h. refl)
same_sign true false = (cc, cc)
same_sign false true = (cc, cc)
same_sign false false = (λ h. refl, λ h. refl)

pub decimal_eq_iff : (a b : Decimal) → (decimal_eq a b ≡ true) ↔ IsSameNumber a b
unfolding decimal_eq
decimal_eq_iff (finite s c e) (finite s' c' e') =
    (λ h. ground (arith, same_sign s s'), λ h. ground (arith, same_sign s s'))
decimal_eq_iff (finite s c e) special = (cc, absurd)
decimal_eq_iff special d = (cc, absurd)
