-- ===== src/Decimal.antt =====
-- The decimal numbers of Python's `decimal` module in its default context (28 digits, half-even),
-- as far as src/rechnungsprobe/model.py and shrink.py use them. A finite number is a sign, a
-- coefficient and an exponent; NaN and the infinities, which the program only ever refuses, are
-- `special`. The context's exponent limits lie far outside the numbers that validation admits.
pub mod Cents
pub mod Same
use rechnungsprobe.Prelude.{
  ℕ, zero, suc, ◌+◌, ◌-◌, ◌*◌, ◌/◌, ◌%◌, ◌^◌, Bool, true, false, not, ◌&&◌, ◌||◌, Text, codes, [],
  ◌∷◌, ◌++◌, ltb, leb, ◌==◌, if◌then◌else◌, show_ℕ, replicate, length, take, drop,
}
use rechnungsprobe.Prelude.Int.{ℤ, pos, negsuc, ◌+ℤ◌, gap, pos_part, neg_part, ltb_ℤ}
use rechnungsprobe.Errors.{Result, ok, err, invalid_operation}

pub data Decimal : Type 0 where
  finite : Bool → ℕ → ℤ → Decimal
  special : Decimal

abbrev pub whole : ℕ → Decimal
whole n = finite false n (pos 0)

unfoldable pub is_finite : Decimal → Bool
is_finite (finite s c e) = true
is_finite special = false

-- The smaller of two exponents.
abbrev pub min_ℤ : ℤ → ℤ → ℤ
min_ℤ a b = if ltb_ℤ a b then a else b

-- Whether two signs differ.
abbrev pub differ : Bool → Bool → Bool
differ true true = false
differ true false = true
differ false true = true
differ false false = false

-- Two finite numbers are brought to the smaller exponent and compared there.
unfoldable pub decimal_eq : Decimal → Decimal → Bool
decimal_eq (finite s c e) (finite s' c' e') =
    (c == 0 && c' == 0) || (not (differ s s') && c * 10 ^ gap e e' == c' * 10 ^ gap e' e)
decimal_eq (finite s c e) special = false
decimal_eq special d = false

-- `value <= 0`
unfoldable pub is_at_most_zero : Decimal → Bool
is_at_most_zero (finite s c e) = s || c == 0
is_at_most_zero special = false

-- `value < 0`
unfoldable pub is_negative : Decimal → Bool
is_negative (finite s c e) = s && not (c == 0)
is_negative special = false

-- `abs(value) > Decimal(bound)`
unfoldable pub exceeds : ℕ → Decimal → Bool
exceeds bound (finite s c e) = ltb (bound * 10 ^ gap (pos 0) e) (c * 10 ^ gap e (pos 0))
exceeds bound special = false

-- `value.as_tuple().exponent < -6`
unfoldable pub has_more_than_six_places : Decimal → Bool
has_more_than_six_places (finite s c e) = ltb_ℤ e (negsuc 5)
has_more_than_six_places special = false

pub data Rounding : Type 0 where
  half_even half_up : Rounding

-- The quotient c / d, rounded to a whole number.
unfoldable pub round_quotient : Rounding → ℕ → ℕ → ℕ
round_quotient half_up c d = if leb d (2 * (c % d)) then c / d + 1 else c / d
round_quotient half_even c d =
    if ltb (2 * (c % d)) d
    then c / d
    else if ltb d (2 * (c % d))
    then c / d + 1
    else c / d + c / d % 2

abbrev pub precision : ℕ
precision = 28

-- The digits of `c` beyond the precision; a number has at most as many digits as its own size.
excess : ℕ → ℕ → ℕ
excess zero c = 0
excess (suc fuel) c =
    let more = suc (excess fuel (c / 10)) in if ltb c (10 ^ precision) then 0 else more

-- The context's rounding of an exact result; a carry to 29 digits drops the last zero.
unfoldable pub fix : Bool → ℕ → ℤ → Decimal
unfolding excess round_quotient
fix s c e =
    if ltb c (10 ^ precision)
    then finite s c e
    else let k = excess c c in
      let q = round_quotient half_even c (10 ^ k) in
      if q == 10 ^ precision then finite s (10 ^ 27) (e +ℤ pos (k + 1)) else finite s q (e +ℤ pos k)

unfoldable pub mul : Decimal → Decimal → Decimal
unfolding fix ◌+ℤ◌
mul (finite s c e) (finite s' c' e') = fix (differ s s') (c * c') (e +ℤ e')
mul (finite s c e) special = special
mul special d = special

add_signed : Bool → ℕ → Bool → ℕ → ℤ → Decimal
unfolding fix
add_signed s c s' c' e =
    if not (differ s s')
    then fix s (c + c') e
    else if c == c'
    then finite false 0 e
    else if ltb c c'
    then fix s' (c' - c) e
    else fix s (c - c') e

unfoldable pub add : Decimal → Decimal → Decimal
unfolding add_signed
add (finite s c e) (finite s' c' e') =
    add_signed s (c * 10 ^ gap e e') s' (c' * 10 ^ gap e' e) (min_ℤ e e')
add (finite s c e) special = special
add special d = special

-- `value / Decimal(100)`: exact, with the zeros above the ideal exponent dropped.
unfoldable pub hundredth : Decimal → Decimal
unfolding fix ◌+ℤ◌
hundredth (finite s c e) =
    if c % 100 == 0
    then fix s (c / 100) e
    else if c % 10 == 0
    then fix s (c / 10) (e +ℤ negsuc 0)
    else fix s c (e +ℤ negsuc 1)
hundredth special = special

-- The coefficient at two decimal places.
unfoldable pub cents : Rounding → ℕ → ℤ → ℕ
unfolding round_quotient
cents r c e =
    if ltb_ℤ e (negsuc 1)
    then round_quotient r c (10 ^ gap (negsuc 1) e)
    else c * 10 ^ gap e (negsuc 1)

-- `value.quantize(Decimal("0.01"), rounding=r)`
unfoldable pub quantize : Rounding → Decimal → Result Decimal
quantize r (finite s c e) =
    let q = cents r c e in
    if ltb q (10 ^ precision) then ok (finite s q (negsuc 1)) else err invalid_operation
quantize r special = err invalid_operation

-- `normalize` without its sign and its zero: the trailing zeros go to the exponent.
strip : ℕ → Bool → ℕ → ℤ → Decimal
unfolding ◌+ℤ◌
strip zero s c e = finite s c e
strip (suc fuel) s c e =
    let more = strip fuel s (c / 10) (e +ℤ pos 1) in if c % 10 == 0 then more else finite s c e

strip_zeros : Decimal → Decimal
unfolding strip
strip_zeros (finite s c e) = if c == 0 then finite s 0 (pos 0) else strip c s c e
strip_zeros special = special

unfoldable pub normalize : Decimal → Decimal
unfolding strip_zeros fix
normalize (finite s c e) = strip_zeros (fix s c e)
normalize special = special

-- `format(value, "f")`: the point stands `places` digits from the right.
place_point : Text → ℕ → Text
place_point ds zero = ds
place_point ds (suc places) =
    let padded = replicate (places + 2 - length ds) 48 ++ ds in
    take (length padded - (places + 1)) padded ++ b'.' ∷ drop (length padded - (places + 1)) padded

plain_magnitude : ℕ → ℤ → Text
unfolding place_point show_ℕ replicate
plain_magnitude c (pos n) = show_ℕ (if c == 0 then 0 else c * 10 ^ n)
plain_magnitude c (negsuc n) = place_point (show_ℕ c) (suc n)

unfoldable pub format_plain : Decimal → Text
unfolding plain_magnitude
format_plain (finite s c e) = (if s then b'-' ∷ [] else []) ++ plain_magnitude c e
format_plain special = codes "NaN"
