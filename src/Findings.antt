-- ===== src/Findings.antt =====
-- `classify_finding` of src/rechnungsprobe/findings.py. Predicates, terminations and details are
-- texts, as in the source.
pub mod Classify
use rechnungsprobe.Prelude.{
  Text, codes, Bool, text_eq, contains, any, Option, none, some, List, [], ◌∷◌, if◌then◌else◌,
}
use rechnungsprobe.Errors.{Result, ok, err, security_error}

pub data FindingKind : Type 0 where
  valid_invoice_rejected accepted_but_parsed_incorrectly field_lost_or_altered : FindingKind
  totals_or_tax_changed optional_valid_construct_mishandled crash : FindingKind
  timeout_or_resource_exhaustion nondeterminism round_trip_loss : FindingKind

unfoldable pub predicate_kinds : List (Text × FindingKind)
predicate_kinds =
    (codes "import-rejected", valid_invoice_rejected)
    ∷ (codes "parse-error", accepted_but_parsed_incorrectly)
    ∷ (codes "optional-construct", optional_valid_construct_mishandled)
    ∷ (codes "crash-or-nonzero", crash)
    ∷ (codes "timeout", timeout_or_resource_exhaustion)
    ∷ (codes "nondeterminism", nondeterminism)
    ∷ (codes "output-invalid", round_trip_loss)
    ∷ []

abbrev pub resource_terminations : List Text
resource_terminations =
    codes "timeout"
    ∷ codes "output_limit"
    ∷ codes "memory_limit"
    ∷ codes "cpu_limit"
    ∷ codes "process_limit"
    ∷ codes "file_limit"
    ∷ []

abbrev pub total_fields : List Text
total_fields = codes "line_total" ∷ codes "tax_total" ∷ codes "payable_total" ∷ []

-- A lookup in a table
unfoldable pub find_kind : Text → List (Text × FindingKind) → Result FindingKind
find_kind predicate [] = err (security_error "finding predicate has no declared classification")
find_kind predicate ((key, kind) ∷ rest) =
    let later = find_kind predicate rest in if text_eq key predicate then ok kind else later

abbrev pub is_total : Text → Bool
is_total detail = contains detail total_fields

unfoldable pub classify_finding : Text → Text → List Text → Result FindingKind
classify_finding predicate termination details =
    if contains termination resource_terminations
    then ok timeout_or_resource_exhaustion
    else if text_eq predicate (codes "declared-field-loss")
    then ok (if any is_total details then totals_or_tax_changed else field_lost_or_altered)
    else find_kind predicate predicate_kinds
