-- ===== src/Campaign/Cache/Batches.antt =====
-- The validity cache of src/rechnungsprobe/campaign.py, where the validator judges each document by
-- itself and in the same way at every call: both callbacks answer as that judgement does.
use mathlib.Core.Path.{subst}
use rechnungsprobe.Prelude.{
  ℕ, zero, suc, ◌+◌, ◌≤◌, Text, codes, text_eq, text_eq_refl, text_eq_iff, Bool, Bool-cases, Option,
  none, some, List, [], ◌∷◌, map, take, drop, length, All, All-append, All-imp, ◌≡◌, ◌∙◌, ◌⊎◌, inl,
  inr, refl, sym, ap, arith, length-take, length-drop, take-append-drop,
}
use rechnungsprobe.Errors.{Result, ok, ◌>>=◌}
use rechnungsprobe.Model.Invoice.{Host}
use rechnungsprobe.Predicates.{ValidationResult}
use rechnungsprobe.Campaign.{Settings, World, next_validation}
use rechnungsprobe.Campaign.Calls.{
  lookup, put, valid_once, is_valid, unless_known, missing_of, case_name, numbered, record_results,
  run_batches, all_known, validate_batch,
}
use rechnungsprobe.Campaign.Cache.{put-lookup, Serves}
use rechnungsprobe.Campaign.Cache.Cases.{
  Has, put-Has, put-Has_other, found-All, judge, Serves-numbered, IsJudge, validated-judge,
  item_of-found,
}

module _ ⦃host : Host⦄ (verdict : Text → ValidationResult) where
  abbrev pub valid_of : Text → Bool
  valid_of document = (verdict document).valid

  -- What the cache keeps of a document is the judgement.
  abbrev pub IsGood : List (Text × Bool) → Type 0
  IsGood cache = (d : Text) (v : Bool) → lookup (host.sha256 d) cache ≡ some v → v ≡ valid_of d

  -- Documents with the same digest are judged the same.
  abbrev pub AgreesOnDigests : Type 0
  AgreesOnDigests = (d e : Text) → host.sha256 d ≡ host.sha256 e → valid_of d ≡ valid_of e

  abbrev AreDigests : List (Text × Text) → Type 0
  AreDigests = All (λ row. row.0 ≡ host.sha256 row.1)

  pub put-IsGood :
      (e : Text) (cache : List (Text × Bool))
      → AgreesOnDigests
      → IsGood cache
      → IsGood (put (host.sha256 e) (valid_of e) cache)
  put-IsGood e cache agree good d v h =
      let seen = sym (put-lookup (host.sha256 e) (valid_of e) (host.sha256 d) cache) ∙ h in
      elim (Bool-cases (text_eq (host.sha256 e) (host.sha256 d))) [
        | inl same ↦
            let kept : valid_of e ≡ v = cc (rw same at seen) in
            sym kept ∙ agree e d ((text_eq_iff _ _).0 same)
        | inr differ ↦ good d v (rw differ at seen)
      ]

  -- The cache after it has been told more: nothing is lost, and it is right.
  record IsGrown (before after : List (Text × Bool)) : Type 0 where
    keeps : (key : Text) → Has key before → Has key after
    good : IsGood after

  record_results-IsGrown :
      (index : ℕ) (batch : List (Text × Text)) (results : List (Text × ValidationResult))
      (cache : List (Text × Bool))
      → AgreesOnDigests
      → AreDigests batch
      → Serves verdict results index batch
      → IsGood cache
      → (after : List (Text × Bool)) × (record_results index batch results cache ≡ ok after)
        × IsGrown cache after
        × All (λ row. Has row.0 after) batch
  unfolding record_results
  record_results-IsGrown index [] results cache agree digests serves good =
      (cache, refl, record { keeps = λ key h. h; good = good }, tt)
  record_results-IsGrown index ((digest, d) ∷ rest) results cache agree digests serves good =
      let told = put digest (valid_of d) cache in
      let (after, returned, grown, all) =
        record_results-IsGrown (index + 1) rest results told agree digests.1 serves.1 (
          subst (λ g. IsGood (put g (valid_of d) cache)) (sym digests.0)
            (put-IsGood d cache agree good)) in
      (
        after,
        rw (item_of-found (case_name index) results (verdict d) serves.0) returned,
        record {
          keeps = λ key h. grown.keeps key (put-Has_other digest (valid_of d) cache key h);
          good = grown.good;
        },
        (grown.keeps digest (put-Has digest (valid_of d) cache), all),
      )

  AreDigests-split :
      (n : ℕ) (rows : List (Text × Text))
      → AreDigests rows
      → AreDigests (take n rows) × AreDigests (drop n rows)
  AreDigests-split zero rows h = (tt, h)
  AreDigests-split (suc n) [] h = (tt, tt)
  AreDigests-split (suc n) (r ∷ rows) h =
      let both = AreDigests-split n rows h.1 in ((h.0, both.0), both.1)

  run_batches-IsGrown :
      (s : Settings) (fuel : ℕ) (missing : List (Text × Text)) (w : World)
      → IsJudge verdict s
      → AgreesOnDigests
      → length missing ≤ fuel
      → AreDigests missing
      → IsGood w.validity_cache
      → (after : World) × (run_batches s fuel missing w ≡ ok after)
        × IsGrown w.validity_cache after.validity_cache
        × All (λ row. Has row.0 after.validity_cache) missing
  unfolding run_batches next_validation
  run_batches-IsGrown s zero [] w is_judge agree enough digests good =
      (w, refl, record { keeps = λ key h. h; good = good }, tt)
  run_batches-IsGrown s zero (m ∷ missing) w is_judge agree enough digests good =
      absurd (omega (arith, enough))
  run_batches-IsGrown s (suc fuel) [] w is_judge agree enough digests good =
      (w, refl, record { keeps = λ key h. h; good = good }, tt)
  run_batches-IsGrown s (suc fuel) (m ∷ missing) w is_judge agree enough digests good =
      let batch = take 64 (m ∷ missing) in
      let others = drop 64 (m ∷ missing) in
      let (batch_digests, other_digests) = AreDigests-split 64 (m ∷ missing) digests in
      let (told, recorded, grown, known) =
        record_results-IsGrown 0 batch (map (judge verdict) (numbered 0 batch)) w.validity_cache
          agree batch_digests
          (Serves-numbered verdict 0 batch (omega (arith, length-take 64 (m ∷ missing)))) good in
      let w1 : World = record {
        validation_index = w.validation_index + 1;
        target_index = w.target_index;
        validity_cache = told;
      } in
      let (after, returned, grown', known') =
        run_batches-IsGrown s fuel others w1 is_judge agree
          (omega (arith, enough, length-drop 64 (m ∷ missing))) other_digests grown.good in
      (
        after,
        rw (validated-judge verdict s (numbered 0 batch) (next_validation s w).0 is_judge)
            (rw recorded returned),
        record { keeps = λ key h. grown'.keeps key (grown.keeps key h); good = grown'.good },
        subst (λ l. All (λ row. Has row.0 after.validity_cache) l)
            (take-append-drop 64 (m ∷ missing))
            (All-append _ batch others (All-imp _ _ (λ row h. grown'.keeps row.0 h) batch known)
              known'),
      )

  put-AreDigests :
      (d : Text) (rows : List (Text × Text))
      → AreDigests rows
      → AreDigests (put (host.sha256 d) d rows)
  unfolding put
  put-AreDigests d [] h = (refl, tt)
  put-AreDigests d ((name, e) ∷ rows) h = elim (Bool-cases (text_eq name (host.sha256 d))) [
    | inl same ↦ rw same ((text_eq_iff _ _).0 same, h.1)
    | inr differ ↦ rw differ (h.0, put-AreDigests d rows h.1)
  ]

  -- Every document is known, or is among those to be judged.
  missing_of-covers :
      (cache : List (Text × Bool)) (documents : List Text) (missing : List (Text × Text))
      → AreDigests missing
      → AreDigests (missing_of cache documents missing)
        × ((key : Text) → Has key missing → Has key (missing_of cache documents missing))
        × All
            (λ d.
              Has (host.sha256 d) cache ⊎ Has (host.sha256 d) (missing_of cache documents missing))
            documents
  unfolding missing_of
  missing_of-covers cache [] missing digests = (digests, λ key h. h, tt)
  missing_of-covers cache (d ∷ rest) missing digests =
      go (λ m h. missing_of-covers cache rest m h) (lookup (host.sha256 d) cache) refl
    where
      go :
          ((m : List (Text × Text))
            → AreDigests m
            → AreDigests (missing_of cache rest m)
              × ((key : Text) → Has key m → Has key (missing_of cache rest m))
              × All
                  (λ e. Has (host.sha256 e) cache ⊎ Has (host.sha256 e) (missing_of cache rest m))
                  rest)
          → (kept : Option Bool) → lookup (host.sha256 d) cache ≡ kept
          → AreDigests (missing_of cache rest (unless_known kept (host.sha256 d) d missing))
            × ((key : Text)
                → Has key missing
                → Has key (missing_of cache rest (unless_known kept (host.sha256 d) d missing)))
            × All
                (λ e.
                  Has (host.sha256 e) cache
                  ⊎ Has
                      (host.sha256 e)
                      (missing_of cache rest (unless_known kept (host.sha256 d) d missing)))
                (d ∷ rest)
      go later (some v) known =
          let (same, keeps, all) = later missing digests in (same, keeps, (inl (v, known), all))
      go later none unknown =
          let (same, keeps, all) =
            later (put (host.sha256 d) d missing) (put-AreDigests d missing digests) in
          (
            same,
            λ key h. keeps key (put-Has_other (host.sha256 d) d missing key h),
            (inr (keeps (host.sha256 d) (put-Has (host.sha256 d) d missing)), all),
          )

  all_known-valid :
      (documents : List Text) (cache : List (Text × Bool))
      → IsGood cache
      → All (λ d. Has (host.sha256 d) cache) documents
      → all_known documents cache ≡ ok (map valid_of documents)
  unfolding all_known
  all_known-valid [] cache good all = refl
  all_known-valid (d ∷ rest) cache good ((v, h), all) =
      rw (item_of-found (host.sha256 d) cache v h) (
        rw (all_known-valid rest cache good all)
          (ap (λ x. ok (x ∷ map valid_of rest)) (good d v h)))

  -- The batch callback answers with the judgement of every document.
  pub validate_batch-valid :
      (s : Settings) (documents : List Text) (w : World)
      → IsJudge verdict s
      → AgreesOnDigests
      → IsGood w.validity_cache
      → (after : World) × (validate_batch s documents w ≡ ok (map valid_of documents, after))
        × IsGood after.validity_cache
  unfolding validate_batch
  validate_batch-valid s documents w is_judge agree good =
      let missing = missing_of w.validity_cache documents [] in
      let (digests, _, covered) = missing_of-covers w.validity_cache documents [] tt in
      let (after, returned, grown, judged) =
        run_batches-IsGrown s (length missing) missing w is_judge agree (omega arith) digests
          good in
      let known =
        All-imp _ (λ d. Has (host.sha256 d) after.validity_cache)
          (λ d either. elim either [
            | inl kept ↦ grown.keeps (host.sha256 d) kept
            | inr new ↦
                found-All (λ key. Has key after.validity_cache) (host.sha256 d) missing new judged
          ])
          documents covered in
      (
        after,
        rw returned (rw (all_known-valid documents after.validity_cache grown.good known) refl),
        grown.good,
      )

  valid_once-valid :
      (s : Settings) (document : Text) (w : World)
      → IsJudge verdict s
      → valid_once s document w ≡ ok (valid_of document, (next_validation s w).1)
  unfolding valid_once lookup
  valid_once-valid s document w is_judge =
      rw
        (validated-judge verdict s ((codes "candidate", document) ∷ []) (next_validation s w).0
          is_judge)
        (rw
          (item_of-found (codes "candidate") ((codes "candidate", verdict document) ∷ [])
            (verdict document) (rw (text_eq_refl (codes "candidate")) refl))
          refl)

  -- So does the single callback.
  pub is_valid-valid :
      (s : Settings) (document : Text) (w : World)
      → IsJudge verdict s
      → AgreesOnDigests
      → IsGood w.validity_cache
      → (after : World) × (is_valid s document w ≡ ok (valid_of document, after))
        × IsGood after.validity_cache
  unfolding is_valid next_validation
  is_valid-valid s document w is_judge agree good =
      go (lookup (host.sha256 document) w.validity_cache) refl
    where
      go :
          (kept : Option Bool)
          → lookup (host.sha256 document) w.validity_cache ≡ kept
          → (after : World) × ((elim kept as (λ _. Result (Bool × World)) [
            | some known ↦ ok (known, w)
            | none ↦ valid_once s document w >>= λ (valid, w'). ok (
              valid,
              record w' { validity_cache = put (host.sha256 document) valid w'.validity_cache },
            )
          ])
              ≡ ok (valid_of document, after))
            × IsGood after.validity_cache
      go (some v) known = (w, ap (λ x. ok (x, w)) (good document v known), good)
      go none unknown = (
        record (next_validation s w).1 {
          validity_cache = put (host.sha256 document) (valid_of document) w.validity_cache;
        },
        rw (valid_once-valid s document w is_judge) refl,
        put-IsGood document w.validity_cache agree good,
      )
