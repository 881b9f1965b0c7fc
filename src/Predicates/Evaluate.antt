-- ===== src/Predicates/Evaluate.antt =====
-- The `evaluate` method of a predicate of src/rechnungsprobe/predicates.py, whichever it is.
use rechnungsprobe.Prelude.{Text}
use rechnungsprobe.Errors.{Result, ok}
use rechnungsprobe.Json.Strict.{Runtime}
use rechnungsprobe.Model.Invoice.{Host, Reader}
use rechnungsprobe.Model.Xml.{Element}
use rechnungsprobe.Target.{TargetResult}
use rechnungsprobe.Predicates.{
  EvaluationContext, PredicateEvaluation, evaluate_crash, evaluate_timeout, evaluate_output,
}
use rechnungsprobe.Predicates.Loss.{evaluate_loss}
use rechnungsprobe.Predicates.Pointer.{evaluate_json}
use rechnungsprobe.Replay.Defs.{
  ReplayPredicate, crash, timeout, stdout_json, output_invalid, declared_field_loss,
}

module _ ⦃host : Host⦄ ⦃reader : Reader⦄ (python : Runtime) (tree_of : Text → Result Element) where
  unfoldable pub evaluate :
      ReplayPredicate → TargetResult → EvaluationContext → Result PredicateEvaluation
  unfolding evaluate_crash evaluate_timeout evaluate_json evaluate_output evaluate_loss
  evaluate crash result context = ok (evaluate_crash result)
  evaluate timeout result context = ok (evaluate_timeout result)
  evaluate (stdout_json pointer expected) result context =
      evaluate_json python pointer expected result
  evaluate output_invalid result context = evaluate_output result context
  evaluate (declared_field_loss fields) result context = evaluate_loss tree_of fields result context
