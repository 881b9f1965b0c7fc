-- ===== src/Campaign/Signature.antt =====
-- `_FailureSignature` and `_failure_signature` of src/rechnungsprobe/campaign.py.
use rechnungsprobe.Prelude.{
  Text, Bool, true, false, ◌&&◌, Option, none, some, List, ◌≡◌, if◌then◌else◌,
}
use rechnungsprobe.Prelude.Int.{ℤ}
use rechnungsprobe.Prelude.Eq.{
  is_equal, is_equal_iff, both_iff, text_Eq, int_Eq, option_Eq, texts_Eq,
}
use rechnungsprobe.Predicates.{PredicateEvaluation}
use rechnungsprobe.Provenance.{Observation, observation_from_result, termination_name}
use rechnungsprobe.Replay.Defs.{
  ReplayPredicate, crash, timeout, stdout_json, output_invalid, declared_field_loss,
}
use rechnungsprobe.Target.{TargetResult}

pub record FailureSignature : Type 0 where
  pub predicate : Text
  pub termination : Text
  pub returncode : Option ℤ
  pub details : List Text
  pub stdout_sha256 : Option Text
  pub stderr_sha256 : Option Text
  pub output_sha256 : Option Text

abbrev pub is_output_sensitive : ReplayPredicate → Bool
is_output_sensitive crash = true
is_output_sensitive timeout = true
is_output_sensitive (stdout_json pointer expected) = true
is_output_sensitive output_invalid = false
is_output_sensitive (declared_field_loss fields) = false

unfoldable pub failure_signature :
    (Text → Text) → TargetResult → PredicateEvaluation → ReplayPredicate → FailureSignature
unfolding observation_from_result
failure_signature bytes_sha256 result evaluation predicate =
    let sensitive = is_output_sensitive predicate in
    let observation = observation_from_result bytes_sha256 result in
    record {
      predicate = evaluation.predicate;
      termination = termination_name result.process.termination;
      returncode = result.process.returncode;
      details = evaluation.details;
      stdout_sha256 = if sensitive then some observation.stdout_sha256 else none;
      stderr_sha256 = if sensitive then some observation.stderr_sha256 else none;
      output_sha256 = if sensitive then observation.output_sha256 else none;
    }

-- `==` of two signatures, and of two observations
unfoldable pub signature_eq : FailureSignature → FailureSignature → Bool
signature_eq a b =
    is_equal a.predicate b.predicate
    && (is_equal a.termination b.termination
        && (is_equal a.returncode b.returncode
            && (is_equal a.details b.details
                && (is_equal a.stdout_sha256 b.stdout_sha256
                    && (is_equal a.stderr_sha256 b.stderr_sha256
                        && is_equal a.output_sha256 b.output_sha256)))))

unfoldable pub observation_eq : Observation → Observation → Bool
observation_eq a b =
    is_equal a.termination b.termination
    && (is_equal a.returncode b.returncode
        && (is_equal a.stdout_sha256 b.stdout_sha256
            && (is_equal a.stderr_sha256 b.stderr_sha256
                && is_equal a.output_sha256 b.output_sha256)))

pub signature_eq-same : (a b : FailureSignature) → signature_eq a b ≡ true → a ≡ b
unfolding signature_eq
signature_eq-same a b h =
    let predicate = (both_iff _ _).0 h in
    let termination = (both_iff _ _).0 predicate.1 in
    let returncode = (both_iff _ _).0 termination.1 in
    let details = (both_iff _ _).0 returncode.1 in
    let out = (both_iff _ _).0 details.1 in
    let error = (both_iff _ _).0 out.1 in
    cc (
      (is_equal_iff a.predicate b.predicate).0 predicate.0,
      (is_equal_iff a.termination b.termination).0 termination.0,
      (is_equal_iff a.returncode b.returncode).0 returncode.0,
      (is_equal_iff a.details b.details).0 details.0,
      (is_equal_iff a.stdout_sha256 b.stdout_sha256).0 out.0,
      (is_equal_iff a.stderr_sha256 b.stderr_sha256).0 error.0,
      (is_equal_iff a.output_sha256 b.output_sha256).0 error.1,
    )

pub observation_eq-same : (a b : Observation) → observation_eq a b ≡ true → a ≡ b
unfolding observation_eq
observation_eq-same a b h =
    let termination = (both_iff _ _).0 h in
    let returncode = (both_iff _ _).0 termination.1 in
    let out = (both_iff _ _).0 returncode.1 in
    let error = (both_iff _ _).0 out.1 in
    cc (
      (is_equal_iff a.termination b.termination).0 termination.0,
      (is_equal_iff a.returncode b.returncode).0 returncode.0,
      (is_equal_iff a.stdout_sha256 b.stdout_sha256).0 out.0,
      (is_equal_iff a.stderr_sha256 b.stderr_sha256).0 error.0,
      (is_equal_iff a.output_sha256 b.output_sha256).0 error.1,
    )
