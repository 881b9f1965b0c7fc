-- ===== src/Campaign/Run/Minimal.antt =====
-- A campaign of src/rechnungsprobe/campaign.py whose validator and target answer by the document alone
-- starts with a right validity cache, and its finding is 1-minimal.
use mathlib.Core.List.{Memᴰ}
use mathlib.Core.Path.{subst}
use rechnungsprobe.Prelude.{
  ℕ, zero, suc, ◌≤◌, Text, Bool, true, false, Option, none, some, List, [], ◌∷◌, map, take, drop,
  length, all, All, All-append, All-imp, ◌⊎◌, inl, inr, take-append-drop, length-drop, ◌≡◌, ◌∙◌,
  refl, sym, ap, arith,
}
use rechnungsprobe.Prelude.Eq.{both_iff}
use rechnungsprobe.Errors.{
  Result, ok, err, ok-injective, >>=-eq-ok, >>-eq-ok, guard, guard-eq-ok, ◌>>=◌,
}
use rechnungsprobe.Corpus.{Candidate}
use rechnungsprobe.Model.Invoice.{Host, Reader}
use rechnungsprobe.Predicates.{ValidationResult, PredicateEvaluation}
use rechnungsprobe.Target.{TargetResult}
use rechnungsprobe.Campaign.{Settings, World, next_validation}
use rechnungsprobe.Campaign.Cache.Batches.{valid_of, IsGood, AgreesOnDigests, put-IsGood}
use rechnungsprobe.Campaign.Cache.Cases.{judge, IsJudge, validated-judge}
use rechnungsprobe.Campaign.Calls.{lookup, put, validated}
use rechnungsprobe.Campaign.Corpus.{
  case_id, corpus_cases, validate_cases, validate_corpus, cache_of,
}
use rechnungsprobe.Campaign.Finding.{Finding, reduce_finding, try_candidate}
use rechnungsprobe.Campaign.Minimal.{
  IsDeterministic, IsMinimalFinding, run_and_evaluate-result, reduce_finding-IsMinimalFinding,
}
use rechnungsprobe.Campaign.Run.{first_world, known_of, try_candidates, search_findings}
use rechnungsprobe.Campaign.Signature.{failure_signature}

module _ ⦃host : Host⦄ (verdict : Text → ValidationResult) where
  abbrev AreValid : List (Text × Text) → Type 0
  AreValid = All (λ row. valid_of verdict row.1 ≡ true)

  judged-AreValid :
      (rows : List (Text × Text))
      → all (λ row. row.1.valid) (map (judge verdict) rows) ≡ true
      → AreValid rows
  judged-AreValid [] h = tt
  judged-AreValid (row ∷ rows) h =
      let both = (both_iff _ _).0 h in (both.0, judged-AreValid rows both.1)

  validate_cases-AreValid :
      (s : Settings) (fuel : ℕ) (cases : List (Text × Text)) (w w' : World)
      → IsJudge verdict s
      → length cases ≤ fuel
      → validate_cases s fuel cases w ≡ ok w'
      → AreValid cases
  unfolding validate_cases
  validate_cases-AreValid s zero [] w w' is_judge enough h = tt
  validate_cases-AreValid s zero (c ∷ cases) w w' is_judge enough h = absurd (omega (arith, enough))
  validate_cases-AreValid s (suc fuel) [] w w' is_judge enough h = tt
  validate_cases-AreValid s (suc fuel) (c ∷ cases) w w' is_judge enough h =
      let batch = take 64 (c ∷ cases) in
      let next = next_validation s w in
      let (results, returned, h1) = >>=-eq-ok (validated s batch next.0) _ h in
      let same : results ≡ map (judge verdict) batch =
        ok-injective (sym returned ∙ validated-judge verdict s batch next.0 is_judge) in
      let (passed, h2) = >>-eq-ok (guard (all (λ row. row.1.valid) results) _) _ h1 in
      subst (λ l. AreValid l) (take-append-drop 64 (c ∷ cases))
        (All-append _ batch (drop 64 (c ∷ cases))
          (judged-AreValid batch
            (subst (λ l. all (λ row. row.1.valid) l ≡ true) same (guard-eq-ok _ _ passed)))
          (validate_cases-AreValid s fuel (drop 64 (c ∷ cases)) next.1 w' is_judge
            (omega (arith, enough, length-drop 64 (c ∷ cases))) h2))

  put-IsGood-true :
      (e : Text) (cache : List (Text × Bool))
      → AgreesOnDigests verdict
      → valid_of verdict e ≡ true
      → IsGood verdict cache
      → IsGood verdict (put (host.sha256 e) true cache)
  put-IsGood-true e cache agree valid good =
      subst (λ v. IsGood verdict (put (host.sha256 e) v cache)) valid
        (put-IsGood verdict e cache agree good)

  cache_of-IsGood :
      (candidates : List Candidate) (cache : List (Text × Bool))
      → AgreesOnDigests verdict
      → AreValid (map (λ c. (case_id c, c.xml)) candidates)
      → IsGood verdict cache
      → IsGood verdict (cache_of candidates cache)
  unfolding cache_of
  cache_of-IsGood [] cache agree valid good = good
  cache_of-IsGood (c ∷ rest) cache agree valid good =
      cache_of-IsGood rest (put (host.sha256 c.xml) true cache) agree valid.1
        (put-IsGood-true c.xml cache agree valid.0 good)

  known_of-IsGood :
      (s : Settings) (seed : Text) (candidates : List Candidate) (w w' : World)
      → IsJudge verdict s
      → AgreesOnDigests verdict
      → validate_corpus s seed candidates w ≡ ok w'
      → IsGood verdict (known_of seed candidates)
  unfolding known_of validate_corpus lookup
  known_of-IsGood s seed candidates w w' is_judge agree h =
      let valid =
        validate_cases-AreValid s (length (corpus_cases seed candidates))
          (corpus_cases seed candidates) w w' is_judge (omega arith) h in
      put-IsGood-true seed (cache_of candidates []) agree valid.0
        (cache_of-IsGood candidates [] agree valid.1 (λ d v none_kept. cc none_kept))

outcome :
    (matched : Bool) (w : World) (reduced : Result (Finding × World)) (found : Option Finding)
    (w' : World)
    → elim matched as (λ _. Result (Option Finding × World)) [
      | false ↦ ok (none, w)
      | true ↦ reduced >>= λ (finding, w''). ok (some finding, w'')
    ]
      ≡ ok (found, w')
    → ((found ≡ none) × (w ≡ w'))
      ⊎ ((f : Finding) × (found ≡ some f) × (matched ≡ true) × (reduced ≡ ok (f, w')))
outcome false w reduced found w' h =
    let same = ok-injective h in inl (sym (ap (λ x. x.0) same), ap (λ x. x.1) same)
outcome true w (err e) found w' h = cc h
outcome true w (ok (f, w'')) found w' h =
    let same = ok-injective h in
    inr (f, sym (ap (λ x. x.0) same), refl, ap (λ v. ok (f, v)) (ap (λ x. x.1) same))

module _ ⦃host : Host⦄ ⦃reader : Reader⦄ (s : Settings) (result : Text → TargetResult)
    (verdict : Text → ValidationResult) (evaluation : Text → PredicateEvaluation) (digest : Text)
    (known : IsDeterministic s result verdict evaluation digest) where
  -- A finding of one of the candidates, 1-minimal for the signature of the candidate's run
  pub record IsMinimalOf (candidates : List Candidate) (f : Finding) : Type 0 where
    pub candidate : Candidate
    pub among : Memᴰ candidate candidates
    pub matched : (evaluation candidate.xml).matched ≡ true
    pub minimal :
        IsMinimalFinding s result verdict evaluation digest known candidate
          (failure_signature s.bytes_sha256
            (result candidate.xml)
            (evaluation candidate.xml)
            s.predicate)
          f

  later :
      (c : Candidate) (candidates : List Candidate) (f : Finding)
      → IsMinimalOf candidates f
      → IsMinimalOf (c ∷ candidates) f
  later c candidates f k = record {
    candidate = k.candidate;
    among = Memᴰ.tail k.among;
    matched = k.matched;
    minimal = k.minimal;
  }

  -- A run that does not match leaves the cache right; one that does gives a 1-minimal finding.
  abbrev Outcome : Candidate → Option Finding → World → Type 0
  Outcome c found w =
      ((found ≡ none) × IsGood verdict w.validity_cache)
      ⊎ ((f : Finding) × (found ≡ some f)
          × ((evaluation c.xml).matched ≡ true)
          × IsMinimalFinding s result verdict evaluation digest known c
              (failure_signature s.bytes_sha256 (result c.xml) (evaluation c.xml) s.predicate) f)

  try_candidate-Outcome :
      (fuel : ℕ) (c : Candidate) (w : World) (found : Option Finding) (w' : World)
      → IsGood verdict w.validity_cache
      → try_candidate s fuel c w ≡ ok (found, w')
      → Outcome c found w'
  unfolding try_candidate
  try_candidate-Outcome fuel c w found w' good h =
      let (after, ran, same) =
        run_and_evaluate-result s result verdict evaluation digest known c.xml w in
      let signature =
        failure_signature s.bytes_sha256 (result c.xml) (evaluation c.xml) s.predicate in
      let good' = subst (λ k. IsGood verdict k) (sym same) good in
      elim (outcome (evaluation c.xml).matched after
        (reduce_finding s fuel c (result c.xml).target_digest signature after) found w'
        (rw ran at h)) [
          | inl (none_found, at_end) ↦
              inl (none_found, subst (λ v. IsGood verdict v.validity_cache) at_end good')
          | inr (f, some_found, matched, reduced) ↦ inr (
            f,
            some_found,
            matched,
            reduce_finding-IsMinimalFinding s result verdict evaluation digest known fuel c
                signature after f w' good'
                (subst (λ g. reduce_finding s fuel c g signature after ≡ ok (f, w'))
                  (known.one_target c.xml) reduced),
          )
        ]

  try_candidates-AreMinimal :
      (fuel : ℕ) (candidates : List Candidate) (w : World) (findings : List Finding) (w' : World)
      → IsGood verdict w.validity_cache
      → try_candidates s fuel candidates w ≡ ok (findings, w')
      → All (IsMinimalOf candidates) findings
  unfolding try_candidates
  try_candidates-AreMinimal fuel [] w findings w' good h =
      subst (λ l. All (IsMinimalOf []) l) (ap (λ x. x.0) (ok-injective h)) tt
  try_candidates-AreMinimal fuel (c ∷ rest) w findings w' good h =
      let ((found, w1), returned, h1) = >>=-eq-ok (try_candidate s fuel c w) _ h in
      elim (try_candidate-Outcome fuel c w found w1 good returned) [
        | inl (none_found, good1) ↦
            All-imp _ _ (λ f k. later c rest f k) findings
              (try_candidates-AreMinimal fuel rest w1 findings w' good1 (rw none_found at h1))
        | inr (f, some_found, matched, minimal) ↦
            subst (λ l. All (IsMinimalOf (c ∷ rest)) l)
              (ap (λ x. x.0) (ok-injective (rw some_found at h1)))
              (
                record {
                  candidate = c;
                  among = Memᴰ.head refl;
                  matched = matched;
                  minimal = minimal;
                },
                tt,
              )
      ]

  -- When the validator judges each document by itself and always the same, the target answers by the
  -- document alone with one digest, its runs can be evaluated, and documents of one digest are judged
  -- the same, then the search of a campaign that returns gives only findings of its candidates whose
  -- run matched, each reached from the candidate's invoice by one-step reductions that are valid and
  -- show the signature of that run, and without a declared one-step reduction that is valid and shows it.
  pub search_findings-AreMinimal :
      (fuel : ℕ) (seed : Text) (candidates : List Candidate) (findings : List Finding)
      → search_findings s fuel seed candidates ≡ ok findings
      → All (IsMinimalOf candidates) findings
  unfolding search_findings
  search_findings-AreMinimal fuel seed candidates findings h =
      let (w, validated_corpus, h1) =
        >>=-eq-ok (validate_corpus s seed candidates first_world) _ h in
      let good =
        known_of-IsGood verdict s seed candidates first_world w known.is_judge known.agree
          validated_corpus in
      let told : World = record w { validity_cache = known_of seed candidates } in
      let ((findings', w'), searched, h2) =
        >>=-eq-ok (try_candidates s fuel candidates told) _ h1 in
      subst (λ l. All (IsMinimalOf candidates) l) (ok-injective h2)
        (try_candidates-AreMinimal fuel candidates told findings' w' good searched)
