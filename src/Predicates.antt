-- ===== src/Predicates.antt =====
-- The predicates of src/rechnungsprobe/predicates.py: the bounds on JSON output, crashes, timeouts and
-- the validity of the output; the loss of declared fields is in a child module.
pub mod Bounds
pub mod Loss
pub mod Kept
pub mod Pointer
pub mod Evaluate
use rechnungsprobe.Prelude.{
  ℕ, zero, suc, ◌+◌, Text, codes, Bool, true, false, not, ◌&&◌, ltb, leb, Option, none, some, List,
  [], ◌∷◌, length,
}
use rechnungsprobe.Prelude.Int.{ℤ, pos, negsuc}
use rechnungsprobe.Json.{
  Json, Items, Members, null, bool, integer, real, string, array, object, no_items, item,
  no_members, member,
}
use rechnungsprobe.Process.{Termination, exited, timeout, ProcessResult}
use rechnungsprobe.Target.{TargetResult}
use rechnungsprobe.Errors.{Result, ok, err, security_error, guard, ◌>>=◌, ◌>>◌}

pub record ValidationResult : Type 0 where
  pub valid : Bool
  pub profile_id : Text
  pub exit_code : ℤ
  pub errors : List Text
  pub report_sha256 : Option Text

pub record EvaluationContext : Type 0 where
  pub input_xml : Text
  pub output_validation : Option ValidationResult

pub record PredicateEvaluation : Type 0 where
  pub predicate : Text
  pub matched : Bool
  pub details : List Text

abbrev is_exited : Termination → Bool
is_exited exited = true
is_exited t = false

abbrev is_timeout : Termination → Bool
is_timeout timeout = true
is_timeout t = false

-- `returncode not in {None, 0}`
abbrev is_failure : Option ℤ → Bool
is_failure none = false
is_failure (some (pos zero)) = false
is_failure (some (pos (suc n))) = true
is_failure (some (negsuc n)) = true

unfoldable pub evaluate_crash : TargetResult → PredicateEvaluation
evaluate_crash result = record {
  predicate = codes "crash-or-nonzero";
  matched = is_exited result.process.termination && is_failure result.process.returncode;
  details = [];
}

unfoldable pub evaluate_timeout : TargetResult → PredicateEvaluation
evaluate_timeout result = record {
  predicate = codes "timeout";
  matched = is_timeout result.process.termination;
  details = [];
}

abbrev judged : Option ValidationResult → Result PredicateEvaluation
judged none = err (security_error "output-validity predicate requires official validation")
judged (some validation) = ok (record {
  predicate = codes "output-invalid";
  matched = not validation.valid;
  details = validation.errors;
})

unfoldable pub evaluate_output : TargetResult → EvaluationContext → Result PredicateEvaluation
evaluate_output result context = elim result.output_xml [
  | none ↦ ok (record {
    predicate = codes "output-invalid";
    matched = true;
    details = codes "output XML is missing" ∷ [];
  })
  | some xml ↦ judged context.output_validation
]

abbrev too_large : {A : Type 0} → Result A
too_large = err (security_error "JSON output exceeds structural limits")

-- The budget is a cell that all recursive calls share; each call returns what is left of it.
unfoldable mutual
  pub check_value : Json → ℕ → ℕ → Result ℕ
  check_value value depth zero = too_large
  check_value null depth (suc budget) =
      guard (leb depth 32) (security_error "JSON output exceeds structural limits") >> ok budget
  check_value (bool b) depth (suc budget) =
      guard (leb depth 32) (security_error "JSON output exceeds structural limits") >> ok budget
  check_value (integer n) depth (suc budget) =
      guard (leb depth 32) (security_error "JSON output exceeds structural limits") >> ok budget
  check_value (real n) depth (suc budget) =
      guard (leb depth 32) (security_error "JSON output exceeds structural limits") >> ok budget
  check_value (string s) depth (suc budget) =
      guard (leb depth 32) (security_error "JSON output exceeds structural limits") >> ok budget
  check_value (array items) depth (suc budget) =
      guard (leb depth 32) (security_error "JSON output exceeds structural limits")
      >> check_items items (suc depth) budget
  check_value (object members) depth (suc budget) =
      guard (leb depth 32) (security_error "JSON output exceeds structural limits")
      >> check_members members (suc depth) budget

  pub check_items : Items → ℕ → ℕ → Result ℕ
  check_items no_items depth budget = ok budget
  check_items (item value rest) depth budget =
      check_value value depth budget >>= λ left. check_items rest depth left

  pub check_members : Members → ℕ → ℕ → Result ℕ
  check_members no_members depth budget = ok budget
  check_members (member key value rest) depth budget =
      guard (leb (length key) 1000) (security_error "JSON object key exceeds limits")
      >> (check_value value depth budget >>= λ left. check_members rest depth left)

unfoldable pub check_json_bounds : Json → Result ℕ
unfolding check_value
check_json_bounds value = check_value value 0 10000
