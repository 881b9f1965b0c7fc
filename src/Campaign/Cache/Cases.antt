-- ===== src/Campaign/Cache/Cases.antt =====
-- What a batch of cases of src/rechnungsprobe/campaign.py gives, where the validator judges each
-- document by itself and in the same way at every call.
use mathlib.Core.Path.{subst}
use rechnungsprobe.Prelude.{
  ℕ, ◌+◌, ◌≤◌, ◌<◌, Text, text_eq, text_eq_refl, text_eq_iff, Bool-cases, some, List, [], ◌∷◌, map,
  length, All, ◌≡◌, ◌∙◌, inl, inr, refl, ap, arith,
}
use rechnungsprobe.Errors.{ok}
use rechnungsprobe.Predicates.{ValidationResult}
use rechnungsprobe.Campaign.{Settings}
use rechnungsprobe.Campaign.Calls.{dict_keys, lookup, item_of, put, validated, case_name, numbered}
use rechnungsprobe.Campaign.Cache.{put-lookup, same_keys_refl, names-differ, Serves}

-- Some value is kept under the key.
abbrev pub Has : {V : Type 0} → Text → List (Text × V) → Type 0
Has {V = V} key entries = (v : V) × (lookup key entries ≡ some v)

module _ {V : Type 0} (key : Text) (v : V) (entries : List (Text × V)) where
  pub put-Has : Has key (put key v entries)
  put-Has = (v, put-lookup key v key entries ∙ rw (text_eq_refl key) refl)

  pub put-Has_other : (other : Text) → Has other entries → Has other (put key v entries)
  put-Has_other other (u, h) = elim (Bool-cases (text_eq key other)) [
    | inl same ↦ (v, put-lookup key v other entries ∙ rw same refl)
    | inr differ ↦ (u, put-lookup key v other entries ∙ rw differ h)
  ]

pub found-All :
    {V : Type 0} (P : Text → Type 0) (key : Text) (entries : List (Text × V))
    → Has key entries
    → All (λ row. P row.0) entries
    → P key
unfolding lookup
found-All P key [] (v, h) all = cc h
found-All P key ((name, u) ∷ rest) (v, h) all = elim (Bool-cases (text_eq name key)) [
  | inl same ↦ subst P ((text_eq_iff name key).0 same) all.0
  | inr differ ↦ found-All P key rest (v, rw differ at h) all.1
]

module _ (verdict : Text → ValidationResult) where
  abbrev pub judge : Text × Text → Text × ValidationResult
  judge row = (row.0, verdict row.1)

  Serves-cons :
      (k : ℕ) (v : ValidationResult) (results : List (Text × ValidationResult)) (j : ℕ)
      (batch : List (Text × Text))
      → k < j
      → j + length batch ≤ 64
      → Serves verdict results j batch
      → Serves verdict ((case_name k, v) ∷ results) j batch
  unfolding lookup
  Serves-cons k v results j [] less small h = tt
  Serves-cons k v results j ((digest, document) ∷ rest) less small h = (
    rw (names-differ k j (omega (arith, less, small)) (omega (arith, small)) less) h.0,
    Serves-cons k v results (j + 1) rest (omega (arith, less)) (omega (arith, small)) h.1,
  )

  pub Serves-numbered :
      (k : ℕ) (batch : List (Text × Text))
      → k + length batch ≤ 64
      → Serves verdict (map judge (numbered k batch)) k batch
  unfolding lookup numbered
  Serves-numbered k [] small = tt
  Serves-numbered k ((digest, document) ∷ rest) small = (
    rw (text_eq_refl (case_name k)) refl,
    Serves-cons k (verdict document) (map judge (numbered (k + 1) rest)) (k + 1) rest (omega arith)
        (omega (arith, small)) (Serves-numbered (k + 1) rest (omega (arith, small))),
  )

  pub judge-keys : (cases : List (Text × Text)) → dict_keys (map judge cases) ≡ dict_keys cases
  judge-keys [] = refl
  judge-keys (c ∷ cases) = ap (λ l. c.0 ∷ l) (judge-keys cases)

  -- The validator judges each document by itself, and in the same way at every call.
  abbrev pub IsJudge : Settings → Type 0
  IsJudge s =
      (cases : List (Text × Text)) (path : Text) → s.validator cases path ≡ ok (map judge cases)

  pub validated-judge :
      (s : Settings) (cases : List (Text × Text)) (path : Text)
      → IsJudge s
      → validated s cases path ≡ ok (map judge cases)
  unfolding validated
  validated-judge s cases path is_judge =
      rw (is_judge cases path) (rw (judge-keys cases) (rw (same_keys_refl (dict_keys cases)) refl))

pub item_of-found :
    {V : Type 0} (key : Text) (entries : List (Text × V)) (v : V)
    → lookup key entries ≡ some v
    → item_of key entries ≡ ok v
unfolding item_of
item_of-found key entries v h = rw (h, item_of) refl
