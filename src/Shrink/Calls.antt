-- ===== src/Shrink/Calls.antt =====
-- `shrink_invoice` and `verify_one_minimal` of src/rechnungsprobe/shrink.py with callbacks that change
-- a state, as those of a campaign do, and that may raise an error. The parts that make no call are
-- those of Shrink.Loop.

pub mod Refines
use rechnungsprobe.Prelude.{
  ℕ, zero, suc, ◌+◌, Text, Bool, true, false, Option, none, some, List, [], ◌∷◌, length, ◌==◌,
}
use rechnungsprobe.Errors.{Result, ok, err, value_error, out_of_fuel, guard, ◌>>=◌, ◌>>◌}
use rechnungsprobe.Model.Invoice.{Invoice, Host}
use rechnungsprobe.Model.Serialize.{serialize_invoice}
use rechnungsprobe.Model.Fingerprint.{semantic_fingerprint}
use rechnungsprobe.Shrink.Operations.{Reduction}
use rechnungsprobe.Shrink.Steps.{one_step_reductions}
use rechnungsprobe.Shrink.Loop.{
  ShrinkResult, MinimalityResult, Pending, State, batch_of, gather, after_round, serialize_all,
}

-- The callbacks, over the states `W`.
pub record Calls (W : Type 0) : Type 0 where
  pub is_valid : Text → W → Result (Bool × W)
  pub preserves_finding : Text → W → Result (Bool × W)
  pub validate_batch : Option (List Text → W → Result (List Bool × W))

module _ {W : Type 0} where
  abbrev pub call_each : (Text → W → Result (Bool × W)) → List Text → W → Result (List Bool × W)
  call_each call [] w = ok ([], w)
  call_each call (d ∷ documents) w = do
    (v, w') ← call d w
    (rest, w'') ← call_each call documents w'
    ok (v ∷ rest, w'')

  abbrev pub call_batch :
      Option (List Text → W → Result (List Bool × W))
      → (Text → W → Result (Bool × W))
      → List Text
      → W
      → Result (List Bool × W)
  call_batch none is_valid documents w = call_each is_valid documents w
  call_batch (some batch) is_valid [] w = ok ([], w)
  call_batch (some batch) is_valid (d ∷ documents) w = batch (d ∷ documents) w

  unfoldable pub call_validities : Calls W → Pending → W → Result (List Bool × W)
  call_validities calls pending w = do
    (results, w') ← call_batch calls.validate_batch calls.is_valid (batch_of pending) w
    guard (length results == length pending)
        (value_error "batch validity check returned an unexpected result count")
    ok (results, w')

  -- `valid and preserves_finding(document)`
  unfoldable pub call_accepts : Calls W → Bool → Text → W → Result (Bool × W)
  call_accepts calls false document w = ok (false, w)
  call_accepts calls true document w = calls.preserves_finding document w

  unfoldable pub call_first : Calls W → Pending → List Bool → W → Result (Option Reduction × W)
  unfolding call_accepts
  call_first calls [] valid w = ok (none, w)
  call_first calls ((r, document) ∷ rest) [] w = ok (none, w)
  call_first calls ((r, document) ∷ rest) (v ∷ valid) w =
      call_accepts calls v document w >>= λ (accepted, w'). elim accepted [
        | true ↦ ok (some r, w')
        | false ↦ call_first calls rest valid w'
      ]

  unfoldable pub call_search : Calls W → ℕ → Pending → List Bool → W → Result (MinimalityResult × W)
  unfolding call_accepts
  call_search calls attempts [] valid w =
      ok (record { minimal = true; attempts = attempts; reducing_operation = none }, w)
  call_search calls attempts (p ∷ rest) [] w =
      ok (record { minimal = true; attempts = attempts; reducing_operation = none }, w)
  call_search calls attempts ((r, document) ∷ rest) (v ∷ valid) w =
      call_accepts calls v document w >>= λ (accepted, w'). elim accepted [
        | true ↦ ok (
          record {
            minimal = false;
            attempts = attempts + 1;
            reducing_operation = some r.operation;
          },
          w',
        )
        | false ↦ call_search calls (attempts + 1) rest valid w'
      ]

module _ {W : Type 0} ⦃host : Host⦄ where
  unfoldable pub call_initial : Calls W → Invoice → W → Result (Text × W)
  call_initial calls i w = do
    document ← serialize_invoice i
    (valid, w') ← calls.is_valid document w
    guard valid (value_error "initial finding does not pass the pinned profile")
    (kept, w'') ← calls.preserves_finding document w'
    guard kept (value_error "initial invoice does not reproduce the declared finding")
    ok (document, w'')

  unfoldable pub call_round : Calls W → State → W → Result ((State × Bool) × W)
  unfolding gather call_validities call_first
  call_round calls s w = do
    reductions ← one_step_reductions s.current
    (checked, attempts, pending) ← gather s.checked s.attempts reductions
    (valid, w') ← call_validities calls pending w
    (found, w'') ← call_first calls pending valid w'
    ok (after_round s checked attempts found, w'')

  unfoldable pub call_rounds : ℕ → Calls W → State → W → Result (State × W)
  unfolding call_round
  call_rounds zero calls s w = err out_of_fuel
  call_rounds (suc fuel) calls s w = call_round calls s w >>= λ ((s', changed), w'). elim changed [
    | true ↦ call_rounds fuel calls s' w'
    | false ↦ ok (s', w')
  ]

  unfoldable pub call_shrink : ℕ → Calls W → Invoice → W → Result (ShrinkResult × W)
  unfolding call_initial call_rounds
  call_shrink fuel calls i w = do
    (document, w') ← call_initial calls i w
    (s, w'') ←
        call_rounds fuel calls
          (record { current = i; attempts = 1; accepted = []; checked = document ∷ [] }) w'
    fingerprint ← semantic_fingerprint s.current
    ok (
      record {
        invoice = s.current;
        attempts = s.attempts;
        accepted = s.accepted;
        fingerprint = fingerprint;
      },
      w'',
    )

  unfoldable pub call_verify : Calls W → Invoice → W → Result (MinimalityResult × W)
  unfolding call_initial serialize_all call_validities call_search
  call_verify calls i w = do
    (document, w') ← call_initial calls i w
    reductions ← one_step_reductions i
    pending ← serialize_all reductions
    (valid, w'') ← call_validities calls pending w'
    call_search calls 1 pending valid w''
