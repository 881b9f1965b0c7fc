-- ===== src/Decimal/Cents.antt =====
-- Rounding to cents: how far it moves a number, and that it happens once. Equality of decimals.
use mathlib.Core.Path.{subst}
use native.Mathlib.Nat.{div-add-mod', mod-lt}
use rechnungsprobe.Prelude.{
  ℕ, ◌+◌, ◌*◌, ◌^◌, ◌≤◌, ◌<◌, ◌%◌, Bool, true, false, ◌≡◌, arith, ltb, leb, Bool-cases, leb→le,
  refl, inl, inr,
}
use rechnungsprobe.Prelude.Int.{ℤ, negsuc}
use rechnungsprobe.Errors.{ok}
use rechnungsprobe.Decimal.{
  Decimal, finite, special, decimal_eq, Rounding, half_up, round_quotient, cents, quantize,
  precision,
}

leb-false : (a b : ℕ) → leb a b ≡ false → b < a
leb-false a b h = ground arith

-- Half-up: twice the error is at most the divisor, and a tie goes up.
pub round_half_up_bounds :
    (c d : ℕ)
    → 0 < d
    → (2 * (round_quotient half_up c d * d) ≤ 2 * c + d)
      × (2 * c < 2 * (round_quotient half_up c d * d) + d)
unfolding round_quotient
round_half_up_bounds c d h = elim (Bool-cases (leb d (2 * (c % d)))) [
  | inl up ↦ rw up (omega (arith, leb→le d (2 * (c % d)) up, div-add-mod' c d, mod-lt c h))
  | inr down ↦ rw down (omega (arith, leb-false d (2 * (c % d)) down, div-add-mod' c d))
]

pub decimal_eq_refl : (s : Bool) (c : ℕ) (e : ℤ) → decimal_eq (finite s c e) (finite s c e) ≡ true
unfolding decimal_eq
decimal_eq_refl true c e = ground arith
decimal_eq_refl false c e = ground arith

pub decimal_eq_comm : (a b : Decimal) → decimal_eq a b ≡ decimal_eq b a
unfolding decimal_eq
decimal_eq_comm (finite true c e) (finite true c' e') = ground arith
decimal_eq_comm (finite true c e) (finite false c' e') = ground arith
decimal_eq_comm (finite false c e) (finite true c' e') = ground arith
decimal_eq_comm (finite false c e) (finite false c' e') = ground arith
decimal_eq_comm (finite s c e) special = refl
decimal_eq_comm special (finite s c e) = refl
decimal_eq_comm special special = refl

cents_at_cents : (r : Rounding) (c : ℕ) → cents r c (negsuc 1) ≡ c
unfolding cents
cents_at_cents r c = ground arith

fits→quantize :
    (r : Rounding) (s : Bool) (q : ℕ)
    → ltb q (10 ^ precision) ≡ true
    → quantize r (finite s q (negsuc 1)) ≡ ok (finite s q (negsuc 1))
unfolding quantize
fits→quantize r s q h = rw (cents_at_cents r q, h)

-- A number that was rounded to cents is left alone by any later rounding to cents.
pub quantize-quantize :
    (r r' : Rounding) (d q : Decimal) → quantize r d ≡ ok q → quantize r' q ≡ ok q
unfolding quantize
quantize-quantize r r' (finite s c e) q h = elim (Bool-cases (ltb (cents r c e) (10 ^ precision))) [
  | inl fits ↦
      let same : finite s (cents r c e) (negsuc 1) ≡ q = cc (rw fits at h) in
      subst (λ x. quantize r' x ≡ ok x) same (fits→quantize r' s (cents r c e) fits)
  | inr over ↦ cc (rw over at h)
]
quantize-quantize r r' special q h = cc

-- A rounded number has the value of itself; `special` has not.
pub quantize-eq_refl : (r : Rounding) (d q : Decimal) → quantize r d ≡ ok q → decimal_eq q q ≡ true
unfolding quantize
quantize-eq_refl r (finite s c e) q h = elim (Bool-cases (ltb (cents r c e) (10 ^ precision))) [
  | inl fits ↦
      let same : finite s (cents r c e) (negsuc 1) ≡ q = cc (rw fits at h) in
      subst (λ x. decimal_eq x x ≡ true) same (decimal_eq_refl s (cents r c e) (negsuc 1))
  | inr over ↦ cc (rw over at h)
]
quantize-eq_refl r special q h = cc
