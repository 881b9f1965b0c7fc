-- ===== src/Process.antt =====
-- The data of src/rechnungsprobe/process.py; the threads that read output and the loop that watches the
-- process are in the child modules. A number of seconds is a whole number of 10^-18
-- seconds.
pub mod Readers
pub mod Monitor
use rechnungsprobe.Prelude.{
  ℕ, ◌+◌, ◌*◌, ◌/◌, ◌%◌, ◌&&◌, ◌||◌, ◌==◌, ltb, if◌then◌else◌, Text, Option, List,
}
use rechnungsprobe.Prelude.Int.{ℤ}

-- A millisecond, in units of 10^-18 seconds
abbrev pub millisecond : ℕ
millisecond = 1000000000000000

-- `round(value * 1000)`: whole milliseconds, where a half goes to the even neighbour
unfoldable pub rounded_milliseconds : ℕ → ℕ
rounded_milliseconds n =
    let whole = n / millisecond in
    let part = n % millisecond in
    if ltb (2 * part) millisecond || 2 * part == millisecond && whole % 2 == 0
    then whole
    else whole + 1

pub data Termination : Type 0 where
  exited timeout output_limit memory_limit cpu_limit process_limit file_limit : Termination

pub record ProcessPolicy : Type 0 where
  pub timeout_seconds : ℤ
  pub cpu_seconds : ℤ
  pub max_memory_bytes : ℤ
  pub max_processes : ℤ
  pub max_output_bytes : ℤ
  pub max_input_bytes : ℤ
  pub max_file_growth_bytes : ℤ
  pub max_created_files : ℤ
  pub poll_interval_seconds : ℤ

pub record ProcessResult : Type 0 where
  pub termination : Termination
  pub returncode : Option ℤ
  pub stdout : Text
  pub stderr : Text
