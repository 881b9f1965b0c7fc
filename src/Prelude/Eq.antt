-- ===== src/Prelude/Eq.antt =====
-- A test of equality that decides it, for the types whose values the program compares.
use mathlib.Core.Path.{◌≡◌, refl, ap}
use mathlib.Core.Logic.{◌↔◌}
use mathlib.Core.Bool.{Bool, true, false, ◌&&◌}
use mathlib.Core.Option.{Option, none, some}
use mathlib.Core.List.{List, [], ◌∷◌}
use rechnungsprobe.Prelude.Tests.{◌==◌, ==_iff}
use rechnungsprobe.Prelude.Texts.{Text, text_eq, text_eq_iff}
use rechnungsprobe.Prelude.Int.{ℤ, pos, negsuc}

pub record Eq (A : Type 0) : Type 0 where
  pub eq : A → A → Bool
  pub eq_iff : (a b : A) → (eq a b ≡ true) ↔ (a ≡ b)

abbrev pub is_equal : {A : Type 0} ⦃e : Eq A⦄ → A → A → Bool
is_equal ⦃e⦄ a b = e.eq a b

pub is_equal_iff : {A : Type 0} ⦃e : Eq A⦄ (a b : A) → (is_equal a b ≡ true) ↔ (a ≡ b)
is_equal_iff ⦃e⦄ a b = e.eq_iff a b

pub both_iff : (a b : Bool) → ((a && b) ≡ true) ↔ ((a ≡ true) × (b ≡ true))
both_iff true b = (λ h. (refl, h), λ h. h.1)
both_iff false b = (λ h. cc h, λ h. cc h.0)

abbrev bool_eq : Bool → Bool → Bool
bool_eq true b = b
bool_eq false true = false
bool_eq false false = true

pub bool_eq_iff : (a b : Bool) → (bool_eq a b ≡ true) ↔ (a ≡ b)
bool_eq_iff true true = (λ h. refl, λ h. refl)
bool_eq_iff true false = (λ h. cc h, λ h. cc h)
bool_eq_iff false true = (λ h. cc h, λ h. cc h)
bool_eq_iff false false = (λ h. refl, λ h. refl)

abbrev int_eq : ℤ → ℤ → Bool
int_eq (pos m) (pos n) = m == n
int_eq (negsuc m) (negsuc n) = m == n
int_eq m n = false

pub int_eq_iff : (a b : ℤ) → (int_eq a b ≡ true) ↔ (a ≡ b)
int_eq_iff (pos m) (pos n) = (λ h. ap pos ((==_iff m n).0 h), λ h. (==_iff m n).1 (cc h))
int_eq_iff (negsuc m) (negsuc n) = (λ h. ap negsuc ((==_iff m n).0 h), λ h. (==_iff m n).1 (cc h))
int_eq_iff (pos m) (negsuc n) = (λ h. cc h, λ h. cc h)
int_eq_iff (negsuc m) (pos n) = (λ h. cc h, λ h. cc h)

module _ {A : Type 0} ⦃e : Eq A⦄ where
  abbrev option_eq : Option A → Option A → Bool
  option_eq none none = true
  option_eq (some a) (some b) = e.eq a b
  option_eq a b = false

  pub option_eq_iff : (a b : Option A) → (option_eq a b ≡ true) ↔ (a ≡ b)
  option_eq_iff none none = (λ h. refl, λ h. refl)
  option_eq_iff (some a) (some b) =
      (λ h. ap some ((e.eq_iff a b).0 h), λ h. (e.eq_iff a b).1 (cc h))
  option_eq_iff none (some b) = (λ h. cc h, λ h. cc h)
  option_eq_iff (some a) none = (λ h. cc h, λ h. cc h)

  abbrev list_eq : List A → List A → Bool
  list_eq [] [] = true
  list_eq (a ∷ xs) (b ∷ ys) = e.eq a b && list_eq xs ys
  list_eq xs ys = false

  pub list_eq_iff : (a b : List A) → (list_eq a b ≡ true) ↔ (a ≡ b)
  list_eq_iff [] [] = (λ h. refl, λ h. refl)
  list_eq_iff (a ∷ xs) (b ∷ ys) = (
    λ h.
        let both = (both_iff _ _).0 h in
        let head = (e.eq_iff a b).0 both.0 in
        let tail = (list_eq_iff xs ys).0 both.1 in cc (head, tail),
    λ h. (both_iff _ _).1 ((e.eq_iff a b).1 (cc h), (list_eq_iff xs ys).1 (cc h)),
  )
  list_eq_iff [] (b ∷ ys) = (λ h. cc h, λ h. cc h)
  list_eq_iff (a ∷ xs) [] = (λ h. cc h, λ h. cc h)

instance abbrev pub text_Eq : Eq Text
text_Eq = record { eq = text_eq; eq_iff = text_eq_iff }

instance abbrev pub bool_Eq : Eq Bool
bool_Eq = record { eq = bool_eq; eq_iff = bool_eq_iff }

instance abbrev pub int_Eq : Eq ℤ
int_Eq = record { eq = int_eq; eq_iff = int_eq_iff }

instance abbrev pub option_Eq : {A : Type 0} ⦃e : Eq A⦄ → Eq (Option A)
option_Eq = record { eq = option_eq; eq_iff = option_eq_iff }

instance abbrev pub texts_Eq : Eq (List Text)
texts_Eq = record { eq = list_eq; eq_iff = list_eq_iff }
