-- ===== src/Replay/Defs.antt =====
-- `ReplaySpecification` and the checks that both its JSON writer and its JSON reader make.
use rechnungsprobe.Prelude.{
  ℕ, ◌+◌, ◌-◌, ◌*◌, Text, Bool, true, false, not, ◌&&◌, ◌||◌, any, ltb, leb, ◌==◌, Option, none,
  some, List, [], ◌∷◌, length,
}
use rechnungsprobe.Prelude.Int.{ℤ, pos, negsuc, ltb_ℤ}
use rechnungsprobe.Errors.{Result, ok, err, security_error, guard, ◌>>=◌, ◌>>◌}
use rechnungsprobe.Process.{ProcessPolicy, millisecond, rounded_milliseconds}
use rechnungsprobe.Target.{LocalTarget, ContainerTarget}

pub data ReplayTarget : Type 0 where
  local : LocalTarget → ReplayTarget
  container : ContainerTarget → ReplayTarget

-- `JsonScalar` of src/rechnungsprobe/predicates.py
pub data JsonScalar : Type 0 where
  text : Text → JsonScalar
  number : ℤ → JsonScalar
  flag : Bool → JsonScalar
  nothing : JsonScalar

pub data ReplayPredicate : Type 0 where
  crash : ReplayPredicate
  timeout : ReplayPredicate
  stdout_json : Text → JsonScalar → ReplayPredicate
  output_invalid : ReplayPredicate
  declared_field_loss : List Text → ReplayPredicate

pub record ReplaySpecification : Type 0 where
  pub target : ReplayTarget
  pub predicate : ReplayPredicate
  pub policy : ProcessPolicy

abbrev pub output_file_of : ReplayTarget → Option Text
output_file_of (local t) = t.output_file
output_file_of (container t) = t.output_file

-- The predicates that read the target's output
abbrev pub reads_output : ReplayPredicate → Bool
reads_output output_invalid = true
reads_output (declared_field_loss fields) = true
reads_output predicate = false

abbrev pub is_some {ℓ} : {A : Type ℓ} → Option A → Bool
is_some none = false
is_some (some a) = true

-- `ReplaySpecification.__post_init__`
unfoldable pub check_specification : ReplaySpecification → Result (Unit {0})
check_specification s =
    guard (not (reads_output s.predicate) || is_some (output_file_of s.target))
      (security_error "replay output predicate requires a target output file")

-- `1e-12`
abbrev pub tolerance : ℕ
tolerance = 1000000

-- `_milliseconds`: the distance to the nearest millisecond is a sum of two differences, of which one
-- is 0.
unfoldable pub milliseconds : ℤ → Result ℤ
unfolding rounded_milliseconds
milliseconds (negsuc n) = err (security_error "replay value must be positive and finite")
milliseconds (pos n) = do
  guard (ltb 0 n) (security_error "replay value must be positive and finite")
  let m = rounded_milliseconds n
  guard (leb (n - m * millisecond + (m * millisecond - n)) tolerance)
      (security_error "replay value has finer than millisecond precision")
  ok (pos m)

abbrev is_empty : Text → Bool
is_empty [] = true
is_empty (c ∷ rest) = false

abbrev pub is_bad_argument : Text → Bool
is_bad_argument argument =
    is_empty argument || (any (λ c. c == 0) argument || ltb 32768 (length argument))

-- `_command`
unfoldable pub check_command : List Text → Result (List Text)
check_command command = do
  guard (leb 1 (length command) && (leb (length command) 128 && not (any is_bad_argument command)))
      (security_error "replay command is invalid or exceeds its limits")
  ok command

-- The values of the dictionary that `_policy_payload` returns
pub record PolicyPayload : Type 0 where
  pub cpu_milliseconds : ℤ
  pub max_created_files : ℤ
  pub max_file_growth_bytes : ℤ
  pub max_input_bytes : ℤ
  pub max_memory_bytes : ℤ
  pub max_output_bytes : ℤ
  pub max_processes : ℤ
  pub poll_milliseconds : ℤ
  pub timeout_milliseconds : ℤ

-- Not below the least value, and not above the cap of `_REPLAY_POLICY_CAPS`.
abbrev pub between : ℕ → ℕ → ℤ → Bool
between low high value = not (ltb_ℤ value (pos low)) && not (ltb_ℤ (pos high) value)

abbrev pub is_capped : PolicyPayload → Bool
is_capped p =
    between 1 120000 p.cpu_milliseconds
    && (between 0 1024 p.max_created_files
        && (between 0 (64 * 1024 * 1024) p.max_file_growth_bytes
            && (between 1 (2 * 1024 * 1024) p.max_input_bytes
                && (between 1 (1024 * 1024 * 1024) p.max_memory_bytes
                    && (between 0 (16 * 1024 * 1024) p.max_output_bytes
                        && (between 1 32 p.max_processes
                            && (between 1 1000 p.poll_milliseconds
                                && between 1 120000 p.timeout_milliseconds)))))))

unfoldable pub policy_payload : ProcessPolicy → Result PolicyPayload
unfolding milliseconds
policy_payload p = do
  cpu ← milliseconds p.cpu_seconds
  poll ← milliseconds p.poll_interval_seconds
  timeout_value ← milliseconds p.timeout_seconds
  let payload : PolicyPayload = record {
    cpu_milliseconds = cpu;
    max_created_files = p.max_created_files;
    max_file_growth_bytes = p.max_file_growth_bytes;
    max_input_bytes = p.max_input_bytes;
    max_memory_bytes = p.max_memory_bytes;
    max_output_bytes = p.max_output_bytes;
    max_processes = p.max_processes;
    poll_milliseconds = poll;
    timeout_milliseconds = timeout_value;
  }
  guard (is_capped payload) (security_error "replay resource policy exceeds its safe bounds")
  ok payload
