-- ===== src/Process/Monitor/Within.antt =====
-- What the termination `exited` of `run_bounded_process` promises: the policy held at every turn of the
-- loop and at the end.
use mathlib.Core.Path.{subst}
use rechnungsprobe.Prelude.{
  Text, Bool, true, false, ◌||◌, Option, none, some, List, [], ◌∷◌, ◌≡◌, ◌≢◌, ◌∙◌, refl, sym, ap,
  length, All, if◌then◌else◌,
}
use rechnungsprobe.Prelude.Int.{pos, sub_ℕ, ◌≤ℤ◌, le-of-not-ltb_ℤ}
use rechnungsprobe.Errors.{ok, ok-injective, >>-eq-ok}
use rechnungsprobe.Process.{
  Termination, exited, timeout, output_limit, memory_limit, cpu_limit, process_limit, file_limit,
  ProcessPolicy, ProcessResult,
}
use rechnungsprobe.Process.Monitor.Sums.{
  readable_memory, readable_time, sum, add_up-memory, add_up-time,
}
use rechnungsprobe.Process.Monitor.{
  Command, check_run, Consumption, add_up, resource_termination, or_else, Usage, exceeds, Sample,
  scan_limit, watch_once, watch, Outside, last_checks, run_bounded_process,
}

-- The growth that a scan shows is within the policy.
pub record IsGrowth (p : ProcessPolicy) (baseline current : Usage) : Type 0 where
  pub complete : current.overflow ≡ false
  pub files : sub_ℕ current.files baseline.files ≤ℤ p.max_created_files
  pub bytes : sub_ℕ current.bytes baseline.bytes ≤ℤ p.max_file_growth_bytes

pub record IsConsumption (p : ProcessPolicy) (processes : List Consumption) : Type 0 where
  pub count : pos (length processes) ≤ℤ p.max_processes
  pub memory : pos (sum readable_memory processes) ≤ℤ p.max_memory_bytes
  pub cpu : pos (sum readable_time processes) ≤ℤ p.cpu_seconds

abbrev pub IsListed : ProcessPolicy → Option (List Consumption) → Type 0
IsListed p none = Unit
IsListed p (some processes) = IsConsumption p processes

pub record IsWithin (p : ProcessPolicy) (baseline : Usage) (s : Sample) : Type 0 where
  pub output : s.output_limit_reached ≡ false
  pub time : pos s.elapsed ≤ℤ p.timeout_seconds
  pub resources : IsListed p s.processes
  pub growth : IsGrowth p baseline (s.scan (scan_limit p baseline))

neither : (a b : Bool) → (a || b) ≡ false → (a ≡ false) × (b ≡ false)
neither true b h = cc h
neither false b h = (refl, h)

-- No test of a chain was met.
passed :
    (test : Bool) (reason : Termination) (others : Option Termination)
    → (if test then some reason else others) ≡ none
    → (test ≡ false) × (others ≡ none)
passed true reason others h = cc h
passed false reason others h = (refl, h)

passed_over :
    (first others : Option Termination)
    → or_else first others ≡ none
    → (first ≡ none) × (others ≡ none)
passed_over (some reason) others h = cc h
passed_over none others h = (refl, h)

not_exited :
    (test : Bool) (reason : Termination) (others : Option Termination)
    → reason ≢ exited
    → others ≢ some exited
    → (if test then some reason else others) ≢ some exited
not_exited true reason others other none_other h = other (cc h)
not_exited false reason others other none_other h = none_other h

none_exited :
    (first others : Option Termination)
    → first ≢ some exited
    → others ≢ some exited
    → or_else first others ≢ some exited
none_exited none others h k = k
none_exited (some reason) others h k = h

exceeds-IsGrowth :
    (p : ProcessPolicy) (baseline current : Usage)
    → exceeds p baseline current ≡ false
    → IsGrowth p baseline current
unfolding exceeds
exceeds-IsGrowth p baseline current h =
    let first = neither _ _ h in
    let second = neither _ _ first.0 in
    record {
      complete = second.0;
      files = le-of-not-ltb_ℤ p.max_created_files (sub_ℕ current.files baseline.files) second.1;
      bytes = le-of-not-ltb_ℤ p.max_file_growth_bytes (sub_ℕ current.bytes baseline.bytes) first.1;
    }

resource_termination-IsListed :
    (p : ProcessPolicy) (processes : Option (List Consumption))
    → resource_termination processes p ≡ none
    → IsListed p processes
unfolding resource_termination
resource_termination-IsListed p none h = tt
resource_termination-IsListed p (some processes) h =
    let count = passed _ _ _ h in
    let memory = passed _ _ _ count.1 in
    let cpu = passed _ _ _ memory.1 in
    record {
      count = le-of-not-ltb_ℤ p.max_processes (pos (length processes)) count.0;
      memory =
          subst (λ n. pos n ≤ℤ p.max_memory_bytes) (add_up-memory processes)
            (le-of-not-ltb_ℤ p.max_memory_bytes (pos (add_up processes).0) memory.0);
      cpu =
          subst (λ n. pos n ≤ℤ p.cpu_seconds) (add_up-time processes)
            (le-of-not-ltb_ℤ p.cpu_seconds (pos (add_up processes).1) cpu.0);
    }

watch_once-IsWithin :
    (p : ProcessPolicy) (baseline : Usage) (s : Sample)
    → watch_once p baseline s ≡ none
    → IsWithin p baseline s
unfolding watch_once
watch_once-IsWithin p baseline s h =
    let output = passed _ _ _ h in
    let time = passed _ _ _ output.1 in
    let resources = passed_over _ _ time.1 in
    let growth = passed _ _ _ resources.1 in
    record {
      output = output.0;
      time = le-of-not-ltb_ℤ p.timeout_seconds (pos s.elapsed) time.0;
      resources = resource_termination-IsListed p s.processes resources.0;
      growth = exceeds-IsGrowth p baseline _ growth.0;
    }

resource_termination-exited :
    (p : ProcessPolicy) (processes : Option (List Consumption))
    → resource_termination processes p ≢ some exited
unfolding resource_termination
resource_termination-exited p none = λ h. cc h
resource_termination-exited p (some processes) =
    not_exited _ process_limit _ (λ e. cc e)
      (not_exited _ memory_limit _ (λ e. cc e)
        (not_exited _ cpu_limit none (λ e. cc e) (λ e. cc e)))

watch_once-exited :
    (p : ProcessPolicy) (baseline : Usage) (s : Sample) → watch_once p baseline s ≢ some exited
unfolding watch_once
watch_once-exited p baseline s =
    not_exited _ output_limit _ (λ e. cc e)
      (not_exited _ timeout _ (λ e. cc e)
        (none_exited _ _ (resource_termination-exited p s.processes)
          (not_exited _ file_limit none (λ e. cc e) (λ e. cc e))))

-- The loop goes on to the end only where no turn stopped it.
watch_step :
    (first : Option Termination) (rest : Termination)
    → first ≢ some exited
    → elim first [ some reason ↦ reason | none ↦ rest ] ≡ exited
    → (first ≡ none) × (rest ≡ exited)
watch_step (some reason) rest other h = absurd (other (ap some h))
watch_step none rest other h = (refl, h)

watch-IsWithin :
    (p : ProcessPolicy) (baseline : Usage) (samples : List Sample)
    → watch p baseline samples ≡ exited
    → All (IsWithin p baseline) samples
unfolding watch
watch-IsWithin p baseline [] h = tt
watch-IsWithin p baseline (s ∷ samples) h =
    let step = watch_step _ _ (watch_once-exited p baseline s) h in
    (watch_once-IsWithin p baseline s step.0, watch-IsWithin p baseline samples step.1)

ended :
    (a b : Bool)
    → (if a then output_limit else if b then file_limit else exited) ≡ exited
    → (a ≡ false) × (b ≡ false)
ended true b h = cc h
ended false true h = cc h
ended false false h = (refl, refl)

pub last_checks-IsGrowth :
    (p : ProcessPolicy) (baseline : Usage) (o : Outside) (t : Termination)
    → last_checks p baseline o t ≡ exited
    → (t ≡ exited)
      × (o.output_limit_reached ≡ false)
      × IsGrowth p baseline (o.final_scan (scan_limit p baseline))
unfolding last_checks
last_checks-IsGrowth p baseline o exited h =
    let both = ended _ _ h in (refl, both.0, exceeds-IsGrowth p baseline _ both.1)
last_checks-IsGrowth p baseline o timeout h = cc h
last_checks-IsGrowth p baseline o output_limit h = cc h
last_checks-IsGrowth p baseline o memory_limit h = cc h
last_checks-IsGrowth p baseline o cpu_limit h = cc h
last_checks-IsGrowth p baseline o process_limit h = cc h
last_checks-IsGrowth p baseline o file_limit h = cc h

-- What the run was, where it was not refused.
pub record IsRun (p : ProcessPolicy) (o : Outside) (result : ProcessResult) : Type 0 where
  pub termination :
      result.termination
      ≡ last_checks p
          (o.initial_scan (pos 100000))
          o
          (watch p (o.initial_scan (pos 100000)) o.samples)
  pub stdout : result.stdout ≡ o.stdout
  pub stderr : result.stderr ≡ o.stderr

pub run_bounded_process-IsRun :
    (command : Command) (p : ProcessPolicy) (input_bytes : Text) (environment : List (Text × Text))
    (o : Outside) (result : ProcessResult)
    → run_bounded_process command p input_bytes environment o ≡ ok result
    → IsRun p o result
unfolding run_bounded_process
run_bounded_process-IsRun command p input_bytes environment o result h =
    let run = >>-eq-ok (check_run command p input_bytes environment o) _ h in
    let done = ok-injective run.1 in
    record {
      termination = ap (λ r. r.termination) (sym done);
      stdout = ap (λ r. r.stdout) (sym done);
      stderr = ap (λ r. r.stderr) (sym done);
    }

-- When the run of a process is not refused and its termination is `exited`, then at every turn of the
-- loop the output limit had not been reached, and the time and the growth of the directory were within
-- the policy; where that turn could list the processes, their number, the sum of their memory and the
-- sum of their processor time were within the policy as well, of what could be read of each (a turn
-- that cannot list them checks none of the three); and the output and the growth of the directory
-- were within the policy when the process had ended.
pub run_bounded_process-IsWithin :
    (command : Command) (p : ProcessPolicy) (input_bytes : Text) (environment : List (Text × Text))
    (o : Outside) (result : ProcessResult)
    → run_bounded_process command p input_bytes environment o ≡ ok result
    → result.termination ≡ exited
    → All (IsWithin p (o.initial_scan (pos 100000))) o.samples
      × (o.output_limit_reached ≡ false)
      × IsGrowth p
          (o.initial_scan (pos 100000))
          (o.final_scan (scan_limit p (o.initial_scan (pos 100000))))
run_bounded_process-IsWithin command p input_bytes environment o result h e =
    let run = run_bounded_process-IsRun command p input_bytes environment o result h in
    let last = last_checks-IsGrowth p _ o _ (sym run.termination ∙ e) in
    (watch-IsWithin p _ o.samples last.0, last.1, last.2)
