-- ===== src/Process/Monitor/Whole.antt =====
-- The output of a process that `run_bounded_process` of src/rechnungsprobe/process.py calls exited.
use rechnungsprobe.Prelude.{ℕ, ◌+◌, Text, List, ◌≡◌, ◌∙◌, sym, arith, length}
use rechnungsprobe.Prelude.Int.{pos, ◌≤ℤ◌}
use rechnungsprobe.Errors.{ok}
use rechnungsprobe.Process.Readers.{System, stopped, started, Reach}
use rechnungsprobe.Process.Readers.Bounded.{reader_output-IsBounded, reader_output-IsWhole}
use rechnungsprobe.Process.{exited, ProcessPolicy, ProcessResult}
use rechnungsprobe.Process.Monitor.{Command, Outside, run_bounded_process}
use rechnungsprobe.Process.Monitor.Within.{run_bounded_process-IsRun, last_checks-IsGrowth}

-- When the two threads that read output were scheduled in any way from their start on the streams
-- `out` and `error`, both have stopped when they were joined (a join that ran into its timeout leaves
-- one that has not), and the run takes what they stored and their report of the limit, then a run
-- that is not refused with the termination `exited` gives all of both streams, which together are no
-- longer than the policy allows.
pub run_bounded_process-IsWhole :
    (command : Command) (p : ProcessPolicy) (input_bytes : Text) (environment : List (Text × Text))
    (o : Outside) (result : ProcessResult) (max_output : ℕ) (out error : Text) (s : System)
    → run_bounded_process command p input_bytes environment o ≡ ok result
    → result.termination ≡ exited
    → p.max_output_bytes ≡ pos max_output
    → Reach max_output (started out error) s
    → (s.out.pc ≡ stopped) × (s.error.pc ≡ stopped)
    → (o.stdout ≡ s.out.stored) × (o.stderr ≡ s.error.stored)
    → o.output_limit_reached ≡ s.shared.output_limit_reached
    → (result.stdout ≡ out)
      × (result.stderr ≡ error)
      × (pos (length result.stdout + length result.stderr) ≤ℤ p.max_output_bytes)
run_bounded_process-IsWhole command p input_bytes environment o result max_output out error s h e
      policy reach at stored reported =
    let run = run_bounded_process-IsRun command p input_bytes environment o result h in
    let last = last_checks-IsGrowth p _ o _ (sym run.termination ∙ e) in
    let whole =
      reader_output-IsWhole max_output out error s reach at.0 at.1 (sym reported ∙ last.1) in
    let bounded = reader_output-IsBounded max_output out error s reach in
    (
      run.stdout ∙ stored.0 ∙ whole.0,
      run.stderr ∙ stored.1 ∙ whole.1,
      rw (run.stdout ∙ stored.0, run.stderr ∙ stored.1, policy) (omega (arith, bounded.0)),
    )
