-- ===== src/Examples/Processes.antt =====
-- A bounded process and the threads that read its output, and a replay payload, at concrete inputs.
use rechnungsprobe.Prelude.{
  ◌+◌, ◌*◌, ◌≤◌, codes, true, false, none, some, [], ◌∷◌, length, All, ◌≡◌, refl, arith,
}
use rechnungsprobe.Prelude.Int.{ℤ, pos, ◌≤ℤ◌}
use rechnungsprobe.Errors.{ok}
use rechnungsprobe.Process.{ProcessResult, exited}
use rechnungsprobe.Process.Monitor.{
  Command, vector, Outside, Usage, scan_limit, run_bounded_process,
}
use rechnungsprobe.Process.Monitor.Within.{IsWithin, IsGrowth, run_bounded_process-IsWithin}
use rechnungsprobe.Process.Monitor.Whole.{run_bounded_process-IsWhole}
use rechnungsprobe.Process.Readers.{
  System, stopped, started, Reach, here, later, out_moves, error_moves, fetch, finish, keep,
}
use rechnungsprobe.Process.Readers.Bounded.{
  IsPrefix, reader_output-IsBounded, reader_output-IsWhole,
}
use rechnungsprobe.Process.Readers.Ends.{efforts, readers_work}
use rechnungsprobe.Examples.Running.{sample_policy}
use rechnungsprobe.Examples.{program}

-- Both threads hold a chunk at the same time; the streams are "ab" and "c".
abbrev last_system : System
last_system = record {
  out = record { stored = codes "ab"; rest = []; pc = stopped };
  error = record { stored = codes "c"; rest = []; pc = stopped };
  shared = record { total_output = 3; output_limit_reached = false };
}

sample_schedule : Reach 4 (started (codes "ab") (codes "c")) last_system
unfolding program
sample_schedule =
    later
      (later
        (later
          (later
            (later
              (later
                (later
                  (later here (out_moves (fetch (codes "a") (codes "b") (λ h. cc h) (omega arith))))
                  (error_moves (fetch (codes "c") [] (λ h. cc h) (omega arith))))
                (error_moves (keep (codes "c"))))
              (out_moves (keep (codes "a"))))
            (error_moves finish))
          (out_moves (fetch (codes "b") [] (λ h. cc h) (omega arith))))
        (out_moves (keep (codes "b"))))
      (out_moves finish)

reader_output-IsBounded_example :
    (length (codes "ab") + length (codes "c") ≤ 4)
    × IsPrefix (codes "ab") (codes "ab")
    × IsPrefix (codes "c") (codes "c")
reader_output-IsBounded_example =
    reader_output-IsBounded 4 (codes "ab") (codes "c") last_system sample_schedule

reader_output-IsWhole_example : (codes "ab" ≡ codes "ab") × (codes "c" ≡ codes "c")
reader_output-IsWhole_example =
    reader_output-IsWhole 4 (codes "ab") (codes "c") last_system sample_schedule refl refl refl

readers_work_example : efforts sample_schedule ≤ 2 * (length (codes "ab") + length (codes "c")) + 2
readers_work_example = readers_work 4 (codes "ab") (codes "c") last_system sample_schedule

abbrev small : ℤ → Usage
small limit = record { bytes = 100; files = 3; overflow = false }

abbrev sample_outside : Outside
sample_outside = record {
  is_symlink = false;
  is_directory = true;
  links = 1;
  initial_scan = λ limit. record { bytes = 40; files = 2; overflow = false };
  samples =
      record {
        output_limit_reached = false;
        elapsed = 20000;
        processes =
            some
              (record { rss = some 1000; cpu = some 7 } ∷ record { rss = none; cpu = none } ∷ []);
        scan = small;
      }
      ∷ [];
  output_limit_reached = false;
  final_scan = small;
  returncode = some (pos 0);
  stdout = codes "ab";
  stderr = codes "c";
}

abbrev sample_command : Command
sample_command = vector (codes "t" ∷ [])

abbrev sample_result : ProcessResult
sample_result = record {
  termination = exited;
  returncode = some (pos 0);
  stdout = codes "ab";
  stderr = codes "c";
}

sample_run :
    run_bounded_process sample_command sample_policy [] [] sample_outside ≡ ok sample_result
unfolding program
sample_run = refl

run_bounded_process-IsWithin_example :
    All (IsWithin sample_policy (sample_outside.initial_scan (pos 100000))) sample_outside.samples
    × (sample_outside.output_limit_reached ≡ false)
    × IsGrowth sample_policy (sample_outside.initial_scan (pos 100000)) (
        sample_outside.final_scan
          (scan_limit sample_policy (sample_outside.initial_scan (pos 100000))))
run_bounded_process-IsWithin_example =
    run_bounded_process-IsWithin sample_command sample_policy [] [] sample_outside sample_result
      sample_run refl

run_bounded_process-IsWhole_example :
    (sample_result.stdout ≡ codes "ab")
    × (sample_result.stderr ≡ codes "c")
    × (pos (length sample_result.stdout + length sample_result.stderr)
        ≤ℤ sample_policy.max_output_bytes)
run_bounded_process-IsWhole_example =
    run_bounded_process-IsWhole sample_command sample_policy [] [] sample_outside sample_result 4
      (codes "ab") (codes "c") last_system sample_run refl refl sample_schedule (refl, refl)
      (refl, refl) refl
