-- ===== src/Campaign/Minimal.antt =====
-- Where the validator and the target of a campaign of src/rechnungsprobe/campaign.py answer by the
-- document alone, its callbacks are functions of the document, and the finding is 1-minimal for them.
use mathlib.Core.Path.{subst}
use rechnungsprobe.Prelude.{
  ℕ, Text, codes, text_eq, text_eq_refl, text_eq_iff, true, ◌&&◌, Bool-cases, Option, none, some,
  List, [], ◌∷◌, map, ◌≡◌, ◌∙◌, inl, inr, refl, sym, ap, if◌then◌else◌,
}
use rechnungsprobe.Errors.{Result, ok, err, ok-injective, >>=-eq-ok, ◌>>=◌}
use rechnungsprobe.Corpus.{Candidate}
use rechnungsprobe.Model.Invoice.{Invoice, Host, Reader}
use rechnungsprobe.Model.Parse.Document.{parse_tree}
use rechnungsprobe.Predicates.{ValidationResult, PredicateEvaluation}
use rechnungsprobe.Predicates.Evaluate.{evaluate}
use rechnungsprobe.Shrink.Operations.{Operation}
use rechnungsprobe.Shrink.Calls.{call_shrink, call_verify}
use rechnungsprobe.Shrink.Calls.Refines.{Agrees, IsPure, call_shrink-Agrees, call_verify-Agrees}
use rechnungsprobe.Shrink.Loop.{
  Checks, run_batch, ShrinkResult, MinimalityResult, shrink_invoice, verify_one_minimal,
}
use rechnungsprobe.Shrink.Path.{Shrinks}
use rechnungsprobe.Shrink.Sound.{shrink_invoice_sound}
use rechnungsprobe.Shrink.Verify.{IsOneMinimal, verify_exact}
use rechnungsprobe.Target.{TargetResult}
use rechnungsprobe.Campaign.{Settings, World, next_validation, next_target}
use rechnungsprobe.Campaign.Cache.Batches.{
  valid_of, IsGood, AgreesOnDigests, validate_batch-valid, is_valid-valid,
}
use rechnungsprobe.Campaign.Cache.Cases.{IsJudge, validated-judge, item_of-found}
use rechnungsprobe.Campaign.Calls.{
  lookup, reads_validation, validate_output, run_and_evaluate, preserves_finding, campaign_calls,
}
use rechnungsprobe.Campaign.Finding.{Finding, reduce_finding}
use rechnungsprobe.Campaign.Finding.Confirmed.{confirm-IsReproduced}
use rechnungsprobe.Campaign.Signature.{FailureSignature, failure_signature, signature_eq}

batch-map :
    (checks : Checks) (documents : List Text)
    → run_batch (some (map checks.is_valid)) checks.is_valid documents
      ≡ map checks.is_valid documents
batch-map checks [] = refl
batch-map checks (d ∷ documents) = refl

module _ ⦃host : Host⦄ ⦃reader : Reader⦄ (s : Settings) (result : Text → TargetResult)
    (verdict : Text → ValidationResult) (evaluation : Text → PredicateEvaluation) where
  -- The validation of an output that the predicate reads
  abbrev output_verdict : Option Text → Option ValidationResult
  output_verdict none = none
  output_verdict (some output) =
      if reads_validation s.predicate then some (verdict output) else none

  -- The validator and the target answer by the document alone, the predicate can be evaluated on each
  -- run, and the target has one digest.
  pub record IsDeterministic (digest : Text) : Type 0 where
    pub is_judge : IsJudge verdict s
    pub agree : AgreesOnDigests verdict
    pub runs : (d path : Text) → s.runner s.target d path s.policy ≡ ok (result d)
    pub evaluates :
        (d : Text)
        → evaluate s.python s.tree_of s.predicate
            (result d)
            (record { input_xml = d; output_validation = output_verdict (result d).output_xml })
          ≡ ok (evaluation d)
    pub one_target : (d : Text) → (result d).target_digest ≡ digest

  -- The callbacks as functions of the document
  abbrev pub campaign_checks : FailureSignature → Checks
  campaign_checks signature = record {
    is_valid = valid_of verdict;
    preserves_finding = λ d.
        (evaluation d).matched
        && signature_eq (failure_signature s.bytes_sha256 (result d) (evaluation d) s.predicate)
            signature;
    validate_batch = some (map (valid_of verdict));
  }

  validate_output-verdict :
      (output : Option Text) (w : World)
      → IsJudge verdict s
      → (after : World) × (validate_output s output w ≡ ok (output_verdict output, after))
        × (after.validity_cache ≡ w.validity_cache)
  unfolding validate_output next_validation lookup
  validate_output-verdict none w is_judge = (w, refl, refl)
  validate_output-verdict (some output) w is_judge =
      elim (Bool-cases (reads_validation s.predicate)) [
        | inr no_read ↦ (w, rw no_read refl, refl)
        | inl read ↦ (
          (next_validation s w).1,
          rw read (
              rw
                (validated-judge verdict s ((codes "output", output) ∷ []) (next_validation s w).0
                  is_judge)
                (rw
                  (item_of-found (codes "output") ((codes "output", verdict output) ∷ [])
                    (verdict output) (rw (text_eq_refl (codes "output")) refl))
                  refl)),
          refl,
        )
      ]

  module _ (digest : Text) (known : IsDeterministic digest) where
    pub run_and_evaluate-result :
        (d : Text) (w : World)
        → (after : World) × (run_and_evaluate s d w ≡ ok ((result d, evaluation d), after))
          × (after.validity_cache ≡ w.validity_cache)
    unfolding run_and_evaluate next_target
    run_and_evaluate-result d w =
        let (after, validated, same) =
          validate_output-verdict (result d).output_xml (next_target s w).1 known.is_judge in
        (
          after,
          rw (known.runs d (next_target s w).0) (rw validated (rw (known.evaluates d) refl)),
          same,
        )

    campaign_calls-IsPure :
        (signature : FailureSignature)
        → IsPure
            (λ w. IsGood verdict w.validity_cache)
            (campaign_checks signature)
            (campaign_calls s digest signature)
    unfolding preserves_finding
    campaign_calls-IsPure signature = record {
      is_valid = λ d w good. is_valid-valid verdict s d w known.is_judge known.agree good;
      preserves_finding = λ d w good.
          let (after, ran, same) = run_and_evaluate-result d w in
          let one : text_eq (result d).target_digest digest ≡ true =
            (text_eq_iff _ _).1 (known.one_target d) in
          (after, rw ran (rw one refl), subst (λ c. IsGood verdict c) (sym same) good);
      validate_batch = λ documents w good.
          validate_batch-valid verdict s documents w known.is_judge known.agree good;
    }

    -- A call that returns did not differ from the pure function.
    returned :
        {A : Type 0} (m : Result A) (c : Result (A × World)) (a : A) (w : World)
        → Agrees (λ v. IsGood verdict v.validity_cache) m c
        → c ≡ ok (a, w)
        → (m ≡ ok a) × IsGood verdict w.validity_cache
    returned (err e) c a w raised h = cc (raised, h)
    returned (ok b) c a w (v, returned', good) h =
        let same = ok-injective (sym returned' ∙ h) in
        (ap (λ x. ok x.0) same, subst (λ x. IsGood verdict x.1.validity_cache) same good)

    -- The finding's invoice is at the end of accepted reductions of the candidate's invoice, and none of
    -- its own reductions is accepted.
    pub record IsMinimalFinding (c : Candidate) (signature : FailureSignature) (f : Finding)
        : Type 0 where
      pub start : Invoice
      pub parsed : (s.tree_of c.xml >>= λ tree. parse_tree tree) ≡ ok start
      pub operations : List Operation
      pub path : Shrinks (campaign_checks signature) start operations f.invoice
      pub minimal : IsOneMinimal (campaign_checks signature) f.invoice

    shrunk-IsMinimalFinding :
        (fuel : ℕ) (c : Candidate) (signature : FailureSignature) (i : Invoice)
        (shrunk : ShrinkResult) (minimality : MinimalityResult) (f : Finding)
        → (s.tree_of c.xml >>= λ tree. parse_tree tree) ≡ ok i
        → shrink_invoice fuel (campaign_checks signature) i ≡ ok shrunk
        → verify_one_minimal (campaign_checks signature) shrunk.invoice ≡ ok minimality
        → minimality.minimal ≡ true
        → f.invoice ≡ shrunk.invoice
        → IsMinimalFinding c signature f
    shrunk-IsMinimalFinding fuel c signature i shrunk minimality f parsed reduced verified minimal
          same =
        let checks = campaign_checks signature in
        let agree = λ (documents : List Text). batch-map checks documents in
        record {
          start = i;
          parsed = parsed;
          operations = shrunk.accepted;
          path =
              subst (λ x. Shrinks checks i shrunk.accepted x) (sym same)
                (shrink_invoice_sound fuel checks i shrunk agree reduced).0;
          minimal =
              subst (λ x. IsOneMinimal checks x) (sym same)
                ((verify_exact checks shrunk.invoice minimality agree verified).0 minimal);
        }

    -- When the validator judges each document by itself and always the same, the target answers by the
    -- document alone with one digest, its runs can be evaluated, documents of one digest are judged the
    -- same, and the validity cache is right, then the finding that `run_campaign` makes of a candidate
    -- whose run matched is reached from the candidate's invoice by one-step reductions that are valid and
    -- show the signature, and no declared one-step reduction of it is valid and shows the signature.
    pub reduce_finding-IsMinimalFinding :
        (fuel : ℕ) (c : Candidate) (signature : FailureSignature) (w : World) (f : Finding)
        (w' : World)
        → IsGood verdict w.validity_cache
        → reduce_finding s fuel c digest signature w ≡ ok (f, w')
        → IsMinimalFinding c signature f
    unfolding reduce_finding
    reduce_finding-IsMinimalFinding fuel c signature w f w' good h =
        let calls = campaign_calls s digest signature in
        let checks = campaign_checks signature in
        let pure = campaign_calls-IsPure signature in
        let (tree, read, h1) = >>=-eq-ok (s.tree_of c.xml) _ h in
        let (i, built, h2) = >>=-eq-ok (parse_tree tree) _ h1 in
        let ((shrunk, w1), called, h3) = >>=-eq-ok (call_shrink fuel calls i w) _ h2 in
        let ((minimality, w2), checked, h4) =
          >>=-eq-ok (call_verify calls shrunk.invoice w1) _ h3 in
        let (reduced, good1) =
          returned (shrink_invoice fuel checks i) (call_shrink fuel calls i w) shrunk w1
            (call_shrink-Agrees _ checks calls pure fuel i w good) called in
        let (verified, _) =
          returned (verify_one_minimal checks shrunk.invoice) (call_verify calls shrunk.invoice w1)
            minimality w2 (call_verify-Agrees _ checks calls pure shrunk.invoice w1 good1)
            checked in
        let (_, same, minimal) =
          confirm-IsReproduced s c digest signature shrunk minimality w2 f w' h4 in
        shrunk-IsMinimalFinding fuel c signature i shrunk minimality f (rw read built) reduced
          verified minimal same
