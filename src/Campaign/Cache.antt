-- ===== src/Campaign/Cache.antt =====
-- Dictionaries and the names of the cases in the batches of src/rechnungsprobe/campaign.py.
pub mod Cases
pub mod Batches
use mathlib.Core.Path.{subst}
use rechnungsprobe.Prelude.{
  ℕ, zero, suc, ◌+◌, ◌≤◌, ◌<◌, Text, text_eq, text_eq_refl, text_eq_iff, contains, Bool, true,
  false, not, ◌&&◌, ◌||◌, ◌==◌, ==_iff, Bool-cases, Option, none, some, List, [], ◌∷◌, map, all,
  length, ◌≡◌, ◌∙◌, inl, inr, refl, sym, ap, arith, replicate, pad, show_ℕ, digits, if◌then◌else◌,
}
use rechnungsprobe.Prelude.Eq.{both_iff}
use rechnungsprobe.Predicates.{ValidationResult}
use rechnungsprobe.Campaign.Calls.{lookup, put, same_keys, case_name, numbered}

swap :
    {A : Type 0} (a b : Bool) (x y z : A)
    → (a ≡ true → b ≡ true → x ≡ y)
    → (if a then x else if b then y else z) ≡ (if b then y else if a then x else z)
swap true true x y z both = both refl refl
swap true false x y z both = refl
swap false true x y z both = refl
swap false false x y z both = refl

twice :
    {A : Type 0} (c : Bool) (x y z : A)
    → (if c then x else z) ≡ (if c then x else if c then y else z)
twice true x y z = refl
twice false x y z = refl

either : (b c : Bool) → c ≡ true → (if b then true else c) ≡ true
either true c h = refl
either false c h = h

second : (a b : Bool) → a ≡ false → (a || not b) ≡ true → b ≡ false
second true b h k = cc h
second false true h k = cc k
second false false h k = refl

-- What is found after `d[key] = v`
pub put-lookup :
    {V : Type 0} (key : Text) (v : V) (other : Text) (entries : List (Text × V))
    → lookup other (put key v entries)
      ≡ (if text_eq key other then some v else lookup other entries)
unfolding lookup put
put-lookup key v other [] = refl
put-lookup key v other ((name, old) ∷ rest) = elim (Bool-cases (text_eq name key)) [
  | inl same ↦
      let equal : name ≡ key = (text_eq_iff name key).0 same in
      rw equal
        (rw (text_eq_refl key) (twice (text_eq key other) (some v) (some old) (lookup other rest)))
  | inr differ ↦ rw differ (
      rw (put-lookup key v other rest) (
        swap (text_eq name other) (text_eq key other) (some old) (some v) (lookup other rest)
          (λ a b. cc (
            (text_eq_iff name key).1
                ((text_eq_iff name other).0 a ∙ sym ((text_eq_iff key other).0 b)),
            differ,
          ))))
]

-- The same keys twice
known_after_more :
    (keys known : List Text)
    → all (λ key. contains key known) keys ≡ true
    → (x : Text) → all (λ key. contains key (x ∷ known)) keys ≡ true
unfolding contains
known_after_more [] known h x = refl
known_after_more (k ∷ keys) known h x =
    let both = (both_iff _ _).0 h in
    (both_iff _ _).1 (either (text_eq x k) _ both.0, known_after_more keys known both.1 x)

pub same_keys_refl : (keys : List Text) → same_keys keys keys ≡ true
unfolding same_keys contains
same_keys_refl keys = rw (go keys) refl
  where
    go : (keys : List Text) → all (λ key. contains key keys) keys ≡ true
    go [] = refl
    go (k ∷ keys) = rw (text_eq_refl k) (known_after_more keys keys (go keys) k)

abbrev below : ℕ → List ℕ
below zero = []
below (suc n) = n ∷ below n

all-below : (p : ℕ → Bool) (n i : ℕ) → all p (below n) ≡ true → i < n → p i ≡ true
all-below p zero i h small = absurd (omega (arith, small))
all-below p (suc n) i h small = elim (Bool-cases (i == n)) [
  | inl same ↦ subst (λ k. p k ≡ true) (sym ((==_iff i n).0 same)) ((both_iff _ _).0 h).0
  | inr differ ↦ all-below p n i ((both_iff _ _).0 h).1 (ground (arith, small, differ))
]

abbrev differ : ℕ → ℕ → Bool
differ i j = i == j || not (text_eq (case_name i) (case_name j))

names_check : all (λ i. all (differ i) (below 64)) (below 64) ≡ true
unfolding text_eq pad show_ℕ digits replicate
names_check = refl

names-differ : (i j : ℕ) → i < 64 → j < 64 → i < j → text_eq (case_name i) (case_name j) ≡ false
names-differ i j small_i small_j less =
    let rows = all-below (λ k. all (differ k) (below 64)) 64 i names_check small_i in
    let one = all-below (differ i) 64 j rows small_j in second (i == j) _ (ground (arith, less)) one

-- The result of every case of a batch is found by its name.
abbrev pub Serves :
    (Text → ValidationResult) → List (Text × ValidationResult) → ℕ → List (Text × Text) → Type 0
Serves verdict results index [] = Unit
Serves verdict results index ((digest, document) ∷ rest) =
    (lookup (case_name index) results ≡ some (verdict document))
    × Serves verdict results (index + 1) rest
