-- ===== src/Campaign/Counters.antt =====
-- The workspaces of a campaign: each run of the target takes the next one.
use rechnungsprobe.Prelude.{
  ◌+◌, Text, Bool, true, false, Option, none, some, List, ◌≡◌, ◌∙◌, sym, ap, if◌then◌else◌,
}
use rechnungsprobe.Errors.{Result, ok, ok-injective, >>=-eq-ok, ◌>>=◌}
use rechnungsprobe.Model.Invoice.{Host, Reader}
use rechnungsprobe.Predicates.{ValidationResult, PredicateEvaluation}
use rechnungsprobe.Predicates.Evaluate.{evaluate}
use rechnungsprobe.Target.{TargetResult}
use rechnungsprobe.Campaign.{Settings, World, next_validation, next_target}
use rechnungsprobe.Campaign.Calls.{
  lookup, put, item_of, valid_once, is_valid, validated, recovered, reads_validation, output_result,
  validate_output, run_and_evaluate,
}

-- The target's workspaces were not touched.
abbrev pub IsUntouched : World → World → Type 0
IsUntouched w w' = w'.target_index ≡ w.target_index

perhaps_validated :
    (s : Settings) (output : Text) (reads : Bool) (w : World) (v : Option ValidationResult)
    (w' : World)
    → (if reads
        then (let next = next_validation s w in
            ◌>>=◌ {B = Option ValidationResult × World}
              (recovered (output_result s output next.0))
              (λ validation. ok (some validation, next.1)))
        else ok (none, w))
      ≡ ok (v, w')
    → IsUntouched w w'
unfolding next_validation
perhaps_validated s output false w v w' h = sym (ap (λ x. x.1.target_index) (ok-injective h))
perhaps_validated s output true w v w' h =
    let (validation, _, h1) =
      >>=-eq-ok (recovered (output_result s output (next_validation s w).0)) _ h in
    sym (ap (λ x. x.1.target_index) (ok-injective h1))

validate_output-IsUntouched :
    (s : Settings) (o : Option Text) (w : World) (v : Option ValidationResult) (w' : World)
    → validate_output s o w ≡ ok (v, w')
    → IsUntouched w w'
unfolding validate_output
validate_output-IsUntouched s none w v w' h = sym (ap (λ x. x.1.target_index) (ok-injective h))
validate_output-IsUntouched s (some output) w v w' h =
    perhaps_validated s output (reads_validation s.predicate) w v w' h

valid_once-IsUntouched :
    (s : Settings) (document : Text) (w : World) (b : Bool) (w' : World)
    → valid_once s document w ≡ ok (b, w')
    → IsUntouched w w'
unfolding valid_once next_validation
valid_once-IsUntouched s document w b w' h =
    let (results, _, h1) = >>=-eq-ok (validated s _ _) _ h in
    let (result, _, h2) = >>=-eq-ok (item_of _ results) _ h1 in
    sym (ap (λ x. x.1.target_index) (ok-injective h2))

known_or_judged :
    (s : Settings) (document : Text) (w : World) (known : Option Bool)
    (cache : Bool → World → List (Text × Bool)) (b : Bool) (w' : World)
    → elim known as (λ _. Result (Bool × World)) [
      | some valid ↦ ok (valid, w)
      | none ↦
          ◌>>=◌ {B = Bool × World}
            (valid_once s document w)
            (λ (valid, w1). ok (valid, record w1 { validity_cache = cache valid w1 }))
    ]
      ≡ ok (b, w')
    → IsUntouched w w'
known_or_judged s document w (some known) cache b w' h =
    sym (ap (λ x. x.1.target_index) (ok-injective h))
known_or_judged s document w none cache b w' h =
    let ((valid, w1), judged, h1) = >>=-eq-ok (valid_once s document w) _ h in
    sym (ap (λ x. x.1.target_index) (ok-injective h1))
    ∙ valid_once-IsUntouched s document w valid w1 judged

module _ ⦃host : Host⦄ ⦃reader : Reader⦄ (s : Settings) where
  pub is_valid-IsUntouched :
      (document : Text) (w : World) (b : Bool) (w' : World)
      → is_valid s document w ≡ ok (b, w')
      → IsUntouched w w'
  unfolding is_valid
  is_valid-IsUntouched document w b w' h =
      known_or_judged s document w (lookup (host.sha256 document) w.validity_cache)
        (λ valid w1. put (host.sha256 document) valid w1.validity_cache) b w' h

  pub run_and_evaluate-target_index :
      (document : Text) (w : World) (r : TargetResult × PredicateEvaluation) (w' : World)
      → run_and_evaluate s document w ≡ ok (r, w')
      → w'.target_index ≡ w.target_index + 1
  unfolding run_and_evaluate next_target
  run_and_evaluate-target_index document w r w' h =
      let (result, _, h1) =
        >>=-eq-ok (s.runner s.target document (next_target s w).0 s.policy) _ h in
      let ((validation, w1), validated_at, h2) =
        >>=-eq-ok (validate_output s result.output_xml (next_target s w).1) _ h1 in
      let (evaluation, _, h3) =
        >>=-eq-ok
          (evaluate s.python s.tree_of s.predicate result
            (record { input_xml = document; output_validation = validation }))
          _ h2 in
      sym (ap (λ x. x.1.target_index) (ok-injective h3))
      ∙ validate_output-IsUntouched s result.output_xml (next_target s w).1 validation w1
          validated_at
