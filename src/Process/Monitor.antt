-- ===== src/Process/Monitor.antt =====
-- The checks of `run_bounded_process` of src/rechnungsprobe/process.py, and its loop that watches the
-- process. What the system reports is in `Outside`: a sample for each turn of the loop, as long as
-- `process.poll()` is none, and what is found when the process has ended.
pub mod Sums
pub mod Within
pub mod Whole
use rechnungsprobe.Prelude.{
  ℕ, ◌+◌, Text, codes, contains, Bool, true, false, not, ◌&&◌, ◌||◌, ltb, leb, ◌==◌, Option, none,
  some, List, [], ◌∷◌, length, any, all, text_eq, if◌then◌else◌,
}
use rechnungsprobe.Prelude.Int.{ℤ, pos, ltb_ℤ, ◌+ℤ◌, sub_ℕ}
use rechnungsprobe.Errors.{Result, ok, err, security_error, guard, ◌>>◌, ◌>>=◌}
use rechnungsprobe.Process.{
  Termination, exited, timeout, output_limit, memory_limit, cpu_limit, process_limit, file_limit,
  ProcessPolicy, ProcessResult,
}

-- A command: a shell string, or an argument vector.
pub data Command : Type 0 where
  shell_string : Text → Command
  vector : List Text → Command

unfoldable pub has_code : ℕ → Text → Bool
has_code c t = any (λ d. d == c) t

unfoldable pub check_argument : Text → Bool
unfolding has_code
check_argument argument =
    not (length argument == 0) && not (has_code 0 argument) && leb (length argument) 32768

unfoldable pub validated_command : Command → Result (List Text)
unfolding check_argument
validated_command (shell_string text) =
    err (security_error "process command must be an argument vector, not a shell string")
validated_command (vector arguments) = do
  guard (not (length arguments == 0) && leb (length arguments) 128)
      (security_error "process argument vector has an invalid length")
  guard (all check_argument arguments)
      (security_error "process argument vector contains an invalid argument")
  ok arguments

-- The pairs that the caller adds to the environment
unfoldable pub check_environment : List (Text × Text) → Bool
unfolding has_code
check_environment = all (λ (key, value).
    not (length key == 0)
    && not (has_code 61 key)
    && not (has_code 0 key)
    && not (has_code 0 value))

unfoldable pub check_policy : ProcessPolicy → Bool
check_policy p =
    ltb_ℤ (pos 0) p.timeout_seconds
    && ltb_ℤ (pos 0) p.cpu_seconds
    && ltb_ℤ (pos 0) p.max_memory_bytes
    && ltb_ℤ (pos 0) p.max_processes
    && not (ltb_ℤ p.max_output_bytes (pos 0))
    && not (ltb_ℤ p.max_file_growth_bytes (pos 0))
    && not (ltb_ℤ p.max_created_files (pos 0))
    && ltb_ℤ (pos 0) p.poll_interval_seconds

-- What `psutil` says of a process; `none` for an error. The error of the times comes after the memory.
pub record Consumption : Type 0 where
  pub rss : Option ℕ
  pub cpu : Option ℕ

unfoldable pub add_one : Option ℕ → Option ℕ → ℕ × ℕ → ℕ × ℕ
add_one none cpu sums = sums
add_one (some memory) none sums = (memory + sums.0, sums.1)
add_one (some memory) (some seconds) sums = (memory + sums.0, seconds + sums.1)

-- The memory and the processor time of all
unfoldable pub add_up : List Consumption → ℕ × ℕ
unfolding add_one
add_up [] = (0, 0)
add_up (c ∷ rest) = add_one c.rss c.cpu (add_up rest)

-- `none` for the processes where they cannot be listed
unfoldable pub resource_termination : Option (List Consumption) → ProcessPolicy → Option Termination
unfolding add_up
resource_termination none policy = none
resource_termination (some processes) policy =
    let (memory, cpu) = add_up processes in
    if ltb_ℤ policy.max_processes (pos (length processes))
    then some process_limit
    else if ltb_ℤ policy.max_memory_bytes (pos memory)
    then some memory_limit
    else if ltb_ℤ policy.cpu_seconds (pos cpu)
    then some cpu_limit
    else none

-- What `_directory_usage` returns
pub record Usage : Type 0 where
  pub bytes : ℕ
  pub files : ℕ
  pub overflow : Bool

unfoldable pub exceeds : ProcessPolicy → Usage → Usage → Bool
exceeds policy baseline current =
    current.overflow
    || ltb_ℤ policy.max_created_files (sub_ℕ current.files baseline.files)
    || ltb_ℤ policy.max_file_growth_bytes (sub_ℕ current.bytes baseline.bytes)

abbrev pub or_else : Option Termination → Option Termination → Option Termination
or_else (some reason) others = some reason
or_else none others = others

-- One turn of the loop: `scan` is `_directory_usage` of the working directory, by its limit.
pub record Sample : Type 0 where
  pub output_limit_reached : Bool
  pub elapsed : ℕ
  pub processes : Option (List Consumption)
  pub scan : ℤ → Usage

unfoldable pub scan_limit : ProcessPolicy → Usage → ℤ
scan_limit policy baseline = pos baseline.files +ℤ policy.max_created_files +ℤ pos 1

unfoldable pub watch_once : ProcessPolicy → Usage → Sample → Option Termination
unfolding resource_termination exceeds scan_limit
watch_once policy baseline s =
    if s.output_limit_reached
    then some output_limit
    else if ltb_ℤ policy.timeout_seconds (pos s.elapsed)
    then some timeout
    else or_else (resource_termination s.processes policy) (
        if exceeds policy baseline (s.scan (scan_limit policy baseline))
        then some file_limit
        else none)

-- The loop, which ends with the samples when the process exits.
unfoldable pub watch : ProcessPolicy → Usage → List Sample → Termination
unfolding watch_once
watch policy baseline [] = exited
watch policy baseline (s ∷ samples) =
    let rest = watch policy baseline samples in
    elim (watch_once policy baseline s) [ some reason ↦ reason | none ↦ rest ]

pub record Outside : Type 0 where
  pub is_symlink : Bool
  pub is_directory : Bool
  pub links : ℕ
  pub initial_scan : ℤ → Usage
  pub samples : List Sample
  -- After the threads were joined
  pub output_limit_reached : Bool
  pub final_scan : ℤ → Usage
  pub returncode : Option ℤ
  pub stdout : Text
  pub stderr : Text

unfoldable pub last_checks : ProcessPolicy → Usage → Outside → Termination → Termination
unfolding exceeds scan_limit
last_checks policy baseline o exited =
    if o.output_limit_reached
    then output_limit
    else if exceeds policy baseline (o.final_scan (scan_limit policy baseline))
    then file_limit
    else exited
last_checks policy baseline o other = other

-- The checks before the process is started
unfoldable pub check_run :
    Command → ProcessPolicy → Text → List (Text × Text) → Outside → Result (Unit {0})
unfolding validated_command check_policy check_environment
check_run command policy input_bytes environment o = do
  arguments ← validated_command command
  guard (not (ltb_ℤ policy.max_input_bytes (pos (length input_bytes))))
      (security_error "process input exceeds the size limit")
  guard (not o.is_symlink && o.is_directory)
      (security_error "process working directory must be a real directory")
  guard (not (o.links == 0)) (security_error "process working directory is unavailable")
  guard (check_policy policy) (security_error "invalid process resource policy")
  guard (not (o.initial_scan (pos 100000)).overflow)
      (security_error "process workspace cannot be inspected safely")
  guard (check_environment environment) (security_error "invalid process environment")

unfoldable pub run_bounded_process :
    Command → ProcessPolicy → Text → List (Text × Text) → Outside → Result ProcessResult
unfolding check_run watch last_checks
run_bounded_process command policy input_bytes environment o = do
  check_run command policy input_bytes environment o
  let baseline = o.initial_scan (pos 100000)
  ok (record {
    termination = last_checks policy baseline o (watch policy baseline o.samples);
    returncode = o.returncode;
    stdout = o.stdout;
    stderr = o.stderr;
  })
