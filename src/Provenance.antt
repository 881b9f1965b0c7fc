-- ===== src/Provenance.antt =====
-- src/rechnungsprobe/provenance.py: what is kept of the runs behind a finding. `bytes_sha256` is the
-- hexadecimal SHA-256 digest of bytes.
use rechnungsprobe.Prelude.{
  ℕ, zero, suc, if◌then◌else◌, ◌^◌, Text, codes, contains, Bool, true, not, ◌&&◌, ◌||◌, ◌==◌, leb,
  ltb, text_eq, all, take, drop, Option, none, some, List, [], ◌∷◌, map, length,
}
use rechnungsprobe.Prelude.Int.{ℤ, pos, negsuc}
use rechnungsprobe.Errors.{Result, security_error, guard}
use rechnungsprobe.Process.{
  Termination, exited, timeout, output_limit, memory_limit, cpu_limit, process_limit, file_limit,
  ProcessPolicy, rounded_milliseconds,
}
use rechnungsprobe.Shrink.Operations.{Operation}
use rechnungsprobe.Target.{TargetResult}

-- The literals of `Termination`
abbrev pub termination_name : Termination → Text
termination_name exited = codes "exited"
termination_name timeout = codes "timeout"
termination_name output_limit = codes "output_limit"
termination_name memory_limit = codes "memory_limit"
termination_name cpu_limit = codes "cpu_limit"
termination_name process_limit = codes "process_limit"
termination_name file_limit = codes "file_limit"

pub record Observation : Type 0 where
  pub termination : Text
  pub returncode : Option ℤ
  pub stdout_sha256 : Text
  pub stderr_sha256 : Text
  pub output_sha256 : Option Text

pub record MinimizationProof : Type 0 where
  pub algorithm : Text
  pub declared_operations : Text
  pub attempts : ℕ
  pub accepted_operations : List Operation
  pub one_minimal : Bool
  pub verification_attempts : ℕ

pub record FindingProvenance : Type 0 where
  pub campaign_seed : ℕ
  pub seed_sha256 : Text
  pub seed_fingerprint : Text
  pub profile : List (Text × Text)
  pub target_digest : Text
  pub resource_policy : List (Text × ℤ)
  pub observations : List Observation
  pub minimization : MinimizationProof

abbrev is_hex : ℕ → Bool
is_hex c = leb 48 c && leb c 57 || leb 97 c && leb c 102

abbrev is_digest : Text → Bool
is_digest text = length text == 64 && all is_hex text

-- `_SHA256.fullmatch`
unfoldable pub is_sha256 : Text → Bool
is_sha256 text =
    is_digest text || text_eq (take 7 text) (codes "sha256:") && is_digest (drop 7 text)

-- `profile.get(key, "")`
abbrev profile_value : Text → List (Text × Text) → Text
profile_value key [] = []
profile_value key ((name, value) ∷ rest) =
    let later = profile_value key rest in if text_eq name key then value else later

abbrev pub profile_keys : List Text
profile_keys =
    codes "configuration_sha256"
    ∷ codes "configuration_version"
    ∷ codes "identifier"
    ∷ codes "validator_sha256"
    ∷ codes "validator_version"
    ∷ []

abbrev is_known_output : Option Text → Bool
is_known_output none = true
is_known_output (some digest) = is_sha256 digest

unfoldable pub is_sound_observation : Observation → Bool
unfolding is_sha256
is_sound_observation o =
    is_sha256 o.stdout_sha256 && is_sha256 o.stderr_sha256 && is_known_output o.output_sha256

-- `__post_init__`
unfoldable pub check_provenance : FindingProvenance → Result (Unit {0})
unfolding is_sha256 is_sound_observation
check_provenance p =
    let names = map (λ row. row.0) p.profile in
    guard
      (ltb p.campaign_seed (2 ^ 63)
        && all is_sha256 (
            p.seed_sha256
            ∷ p.seed_fingerprint
            ∷ p.target_digest
            ∷ profile_value (codes "validator_sha256") p.profile
            ∷ profile_value (codes "configuration_sha256") p.profile
            ∷ [])
        && (all (λ name. contains name profile_keys) names
            && all (λ key. contains key names) profile_keys)
        && not (length p.observations == 0)
        && all is_sound_observation p.observations
        && text_eq p.minimization.algorithm (codes "greedy-1-minimal-v1")
        && text_eq p.minimization.declared_operations (codes "invoice-node-value-v1")
        && leb 1 p.minimization.attempts
        && leb 1 p.minimization.verification_attempts)
      (security_error "finding provenance is invalid or incomplete")

abbrev pub digest_of : (Text → Text) → Option Text → Option Text
digest_of bytes_sha256 none = none
digest_of bytes_sha256 (some output) = some (bytes_sha256 output)

unfoldable pub observation_from_result : (Text → Text) → TargetResult → Observation
observation_from_result bytes_sha256 result = record {
  termination = termination_name result.process.termination;
  returncode = result.process.returncode;
  stdout_sha256 = bytes_sha256 result.process.stdout;
  stderr_sha256 = bytes_sha256 result.process.stderr;
  output_sha256 = digest_of bytes_sha256 result.output_xml;
}

-- `round(seconds * 1000)`
unfoldable pub rounded : ℤ → ℤ
unfolding rounded_milliseconds
rounded (pos n) = pos (rounded_milliseconds n)
rounded (negsuc n) = elim (rounded_milliseconds (suc n)) [ zero ↦ pos 0 | suc m ↦ negsuc m ]

unfoldable pub resource_policy_payload : ProcessPolicy → List (Text × ℤ)
unfolding rounded
resource_policy_payload policy =
    (codes "cpu_milliseconds", rounded policy.cpu_seconds)
    ∷ (codes "max_created_files", policy.max_created_files)
    ∷ (codes "max_file_growth_bytes", policy.max_file_growth_bytes)
    ∷ (codes "max_input_bytes", policy.max_input_bytes)
    ∷ (codes "max_memory_bytes", policy.max_memory_bytes)
    ∷ (codes "max_output_bytes", policy.max_output_bytes)
    ∷ (codes "max_processes", policy.max_processes)
    ∷ (codes "poll_interval_milliseconds", rounded policy.poll_interval_seconds)
    ∷ (codes "timeout_milliseconds", rounded policy.timeout_seconds)
    ∷ []
