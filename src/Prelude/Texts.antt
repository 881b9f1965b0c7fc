-- ===== src/Prelude/Texts.antt =====
-- A text is the list of its code points, as a Python `str` is. Equality, order and decimal printing.
use Prim.Native.Nat.{ℕ, zero, suc, ◌+◌, ◌-◌, ◌/◌, ◌%◌}
use Prim.Native.Char.{code}
use Prim.Native.String.{String}
use mathlib.Core.Path.{◌≡◌, refl}
use mathlib.Core.Logic.{◌≢◌, ◌↔◌}
use mathlib.Core.Bool.{Bool, true, false}
use mathlib.Core.List.{List, [], ◌∷◌, ◌++◌}
use native.Mathlib.Omega.{arith}
use rechnungsprobe.Prelude.Tests.{◌==◌, ltb, if◌then◌else◌}
use rechnungsprobe.Prelude.Lists.{length, All}

abbrev pub Text : Type 0
Text = List ℕ

-- The code points of a literal.
abbrev pub codes : String → Text
codes String.[] = []
codes (String.◌∷◌ c s) = code c ∷ codes s

unfoldable pub text_eq : Text → Text → Bool
text_eq [] [] = true
text_eq [] (y ∷ ys) = false
text_eq (x ∷ xs) [] = false
text_eq (x ∷ xs) (y ∷ ys) = elim (x == y) [ true ↦ text_eq xs ys | false ↦ false ]

text_eq→eq : (a b : Text) → text_eq a b ≡ true → a ≡ b
unfolding text_eq
text_eq→eq [] [] h = refl
text_eq→eq [] (y ∷ ys) h = ground arith
text_eq→eq (x ∷ xs) [] h = ground arith
text_eq→eq (x ∷ xs) (y ∷ ys) h = ground (arith, text_eq→eq xs ys)

pub text_eq_refl : (a : Text) → text_eq a a ≡ true
unfolding text_eq
text_eq_refl [] = refl
text_eq_refl (x ∷ xs) = ground (arith, text_eq_refl xs)

eq→text_eq : (a b : Text) → a ≡ b → text_eq a b ≡ true
eq→text_eq a b h = rw h (text_eq_refl b)

pub text_eq_iff : (a b : Text) → (text_eq a b ≡ true) ↔ (a ≡ b)
text_eq_iff a b = (text_eq→eq a b, eq→text_eq a b)

-- `x in xs` on texts.
unfoldable pub contains : Text → List Text → Bool
contains x [] = false
contains x (y ∷ ys) = if text_eq y x then true else contains x ys

-- No text of the list is this one.
pub contains-false_iff :
    (x : Text) (seen : List Text) → (contains x seen ≡ false) ↔ All (λ y. x ≢ y) seen
unfolding contains
contains-false_iff x [] = (λ h. tt, λ h. refl)
contains-false_iff x (y ∷ seen) = (
  λ h. (λ e. ground (arith, text_eq_iff y x), (contains-false_iff x seen).0 (ground arith)),
  λ h. ground (arith, text_eq_iff y x, (contains-false_iff x seen).1 h.1),
)

-- `str` of a number: `digits` has the fuel that a number's own size always pays for.
unfoldable pub digits : ℕ → ℕ → Text → Text
digits zero n acc = acc
digits (suc fuel) n acc =
    let more = digits fuel (n / 10) ((48 + n % 10) ∷ acc) in
    if ltb n 10 then (48 + n) ∷ acc else more

unfoldable pub show_ℕ : ℕ → Text
unfolding digits
show_ℕ n = digits (suc n) n []

unfoldable pub replicate : ℕ → ℕ → Text
replicate zero c = []
replicate (suc n) c = c ∷ replicate n c

-- The format `{n:0wd}`.
unfoldable pub pad : ℕ → ℕ → Text
unfolding show_ℕ replicate
pad w n = replicate (w - length (show_ℕ n)) 48 ++ show_ℕ n
