-- ===== src/Shrink/Loop.antt =====
-- `shrink_invoice` and `verify_one_minimal` of src/rechnungsprobe/shrink.py.
use rechnungsprobe.Prelude.{
  ℕ, zero, suc, ◌+◌, Text, Bool, true, false, ◌&&◌, Option, none, some, List, [], ◌∷◌, ◌++◌, map,
  length, ◌==◌, contains, if◌then◌else◌,
}
use rechnungsprobe.Errors.{Result, ok, err, value_error, out_of_fuel, guard, ◌>>=◌, ◌>>◌}
use rechnungsprobe.Model.Invoice.{Invoice, Host}
use rechnungsprobe.Model.Serialize.{serialize_invoice}
use rechnungsprobe.Model.Fingerprint.{semantic_fingerprint}
use rechnungsprobe.Shrink.Operations.{Operation, Reduction}
use rechnungsprobe.Shrink.Steps.{one_step_reductions}

-- The callbacks that both functions are given.
pub record Checks : Type 0 where
  pub is_valid : Text → Bool
  pub preserves_finding : Text → Bool
  pub validate_batch : Option (List Text → List Bool)

pub record ShrinkResult : Type 0 where
  pub invoice : Invoice
  pub attempts : ℕ
  pub accepted : List Operation
  pub fingerprint : Text

pub record MinimalityResult : Type 0 where
  pub minimal : Bool
  pub attempts : ℕ
  pub reducing_operation : Option Operation

abbrev pub Pending : Type 0
Pending = List (Reduction × Text)

-- The variables of the `while` loop.
pub record State : Type 0 where
  pub current : Invoice
  pub attempts : ℕ
  pub accepted : List Operation
  pub checked : List Text

abbrev pub batch_of : Pending → List Text
batch_of = map (λ p. p.1)

-- The validities of the pending documents, by the batch callback where one is given.
abbrev pub run_batch : Option (List Text → List Bool) → (Text → Bool) → List Text → List Bool
run_batch none is_valid documents = map is_valid documents
run_batch (some batch) is_valid [] = []
run_batch (some batch) is_valid (d ∷ documents) = batch (d ∷ documents)

unfoldable pub validities : Checks → Pending → Result (List Bool)
validities checks pending = do
  let results = run_batch checks.validate_batch checks.is_valid (batch_of pending)
  guard (length results == length pending)
      (value_error "batch validity check returned an unexpected result count")
  ok results

-- The loop over the pending reductions and their validities, up to its `break`.
unfoldable pub first_accepted : Checks → Pending → List Bool → Option Reduction
first_accepted checks [] valid = none
first_accepted checks ((r, document) ∷ rest) [] = none
first_accepted checks ((r, document) ∷ rest) (v ∷ valid) =
    let later = first_accepted checks rest valid in
    if v && checks.preserves_finding document then some r else later

module _ ⦃host : Host⦄ where
  unfoldable pub check_initial : Checks → Invoice → Result Text
  check_initial checks i = do
    document ← serialize_invoice i
    guard (checks.is_valid document)
        (value_error "initial finding does not pass the pinned profile")
    guard (checks.preserves_finding document)
        (value_error "initial invoice does not reproduce the declared finding")
    ok document

  -- The loop over the reductions: what is new joins `checked` and the pending list.
  unfoldable pub gather : List Text → ℕ → List Reduction → Result (List Text × ℕ × Pending)
  gather checked attempts [] = ok (checked, attempts, [])
  gather checked attempts (r ∷ rest) = do
    document ← serialize_invoice r.invoice
    let skipped = gather checked attempts rest
    let added =
        (gather (document ∷ checked) (attempts + 1) rest >>= λ (c, a, pending).
        ok (c, a, (r, document) ∷ pending))
    if contains document checked then skipped else added

  abbrev pub after_round : State → List Text → ℕ → Option Reduction → State × Bool
  after_round s checked attempts none = (record s { checked = checked; attempts = attempts }, false)
  after_round s checked attempts (some r) = (
    record {
      current = r.invoice;
      attempts = attempts;
      accepted = s.accepted ++ r.operation ∷ [];
      checked = checked;
    },
    true,
  )

  -- One round of the `while` loop, with `changed`.
  unfoldable pub shrink_round : Checks → State → Result (State × Bool)
  shrink_round checks s = do
    reductions ← one_step_reductions s.current
    (checked, attempts, pending) ← gather s.checked s.attempts reductions
    valid ← validities checks pending
    ok (after_round s checked attempts (first_accepted checks pending valid))

  unfoldable pub shrink_rounds : ℕ → Checks → State → Result State
  shrink_rounds zero checks s = err out_of_fuel
  shrink_rounds (suc fuel) checks s = shrink_round checks s >>= λ (s', changed). elim changed [
    | true ↦ shrink_rounds fuel checks s'
    | false ↦ ok s'
  ]

  unfoldable pub shrink_invoice : ℕ → Checks → Invoice → Result ShrinkResult
  shrink_invoice fuel checks i = do
    document ← check_initial checks i
    s ←
        shrink_rounds fuel checks
          (record { current = i; attempts = 1; accepted = []; checked = document ∷ [] })
    fingerprint ← semantic_fingerprint s.current
    ok (record {
      invoice = s.current;
      attempts = s.attempts;
      accepted = s.accepted;
      fingerprint = fingerprint;
    })

  -- The reductions with their documents.
  unfoldable pub serialize_all : List Reduction → Result Pending
  serialize_all [] = ok []
  serialize_all (r ∷ rest) = do
    document ← serialize_invoice r.invoice
    others ← serialize_all rest
    ok ((r, document) ∷ others)

  unfoldable pub search_reducing : Checks → ℕ → Pending → List Bool → MinimalityResult
  search_reducing checks attempts [] valid = record {
    minimal = true;
    attempts = attempts;
    reducing_operation = none;
  }
  search_reducing checks attempts (p ∷ rest) [] = record {
    minimal = true;
    attempts = attempts;
    reducing_operation = none;
  }
  search_reducing checks attempts ((r, document) ∷ rest) (v ∷ valid) =
      let later = search_reducing checks (attempts + 1) rest valid in
      if v && checks.preserves_finding document
      then record {
        minimal = false;
        attempts = attempts + 1;
        reducing_operation = some r.operation;
      }
      else later

  unfoldable pub verify_one_minimal : Checks → Invoice → Result MinimalityResult
  verify_one_minimal checks i = do
    document ← check_initial checks i
    reductions ← one_step_reductions i
    pending ← serialize_all reductions
    valid ← validities checks pending
    ok (search_reducing checks 1 pending valid)
