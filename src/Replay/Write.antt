-- ===== src/Replay/Write.antt =====
-- `replay_json` of src/rechnungsprobe/replay.py, up to the payload that it hands to `json.dumps`.
use rechnungsprobe.Prelude.{Text, codes, Option, none, some, [], ◌∷◌}
use rechnungsprobe.Errors.{Result, ok, ◌>>=◌}
use rechnungsprobe.Json.{
  Json, null, bool, integer, string, array, object, Members, to_members, to_items, object_of,
}
use rechnungsprobe.Replay.Defs.{
  ReplayTarget, local, container, JsonScalar, text, number, flag, nothing, ReplayPredicate, crash,
  timeout, stdout_json, output_invalid, declared_field_loss, ReplaySpecification, PolicyPayload,
  check_command, policy_payload,
}

abbrev pub schema : Text
schema = codes "https://rechnungsprobe.dev/schemas/replay-v1"

abbrev pub optional_string : Option Text → Json
optional_string none = null
optional_string (some value) = string value

unfoldable pub target_payload : ReplayTarget → Result Json
unfolding check_command
target_payload (local t) = do
  command ← check_command t.command
  ok (
      object_of (
        (codes "command", array (to_items command))
        ∷ (codes "input_mode", string t.input_mode)
        ∷ (codes "kind", string (codes "local"))
        ∷ (codes "output_file", optional_string t.output_file)
        ∷ []))
target_payload (container t) = do
  command ← check_command t.command
  ok (
      object_of (
        (codes "command", array (to_items command))
        ∷ (codes "input_mode", string t.input_mode)
        ∷ (codes "kind", string (codes "container"))
        ∷ (codes "output_file", optional_string t.output_file)
        ∷ (codes "image", string t.image)
        ∷ []))

abbrev pub scalar_json : JsonScalar → Json
scalar_json (text t) = string t
scalar_json (number n) = integer n
scalar_json (flag b) = bool b
scalar_json nothing = null

unfoldable pub predicate_payload : ReplayPredicate → Json
predicate_payload crash = object_of ((codes "kind", string (codes "crash-or-nonzero")) ∷ [])
predicate_payload timeout = object_of ((codes "kind", string (codes "timeout")) ∷ [])
predicate_payload output_invalid = object_of ((codes "kind", string (codes "output-invalid")) ∷ [])
predicate_payload (stdout_json pointer expected) = object_of (
    (codes "expected", scalar_json expected)
    ∷ (codes "kind", string (codes "stdout-json"))
    ∷ (codes "pointer", string pointer)
    ∷ [])
predicate_payload (declared_field_loss fields) = object_of (
    (codes "fields", array (to_items fields))
    ∷ (codes "kind", string (codes "declared-field-loss"))
    ∷ [])

abbrev pub policy_members : PolicyPayload → Members
policy_members p = to_members (
    (codes "cpu_milliseconds", integer p.cpu_milliseconds)
    ∷ (codes "max_created_files", integer p.max_created_files)
    ∷ (codes "max_file_growth_bytes", integer p.max_file_growth_bytes)
    ∷ (codes "max_input_bytes", integer p.max_input_bytes)
    ∷ (codes "max_memory_bytes", integer p.max_memory_bytes)
    ∷ (codes "max_output_bytes", integer p.max_output_bytes)
    ∷ (codes "max_processes", integer p.max_processes)
    ∷ (codes "poll_milliseconds", integer p.poll_milliseconds)
    ∷ (codes "timeout_milliseconds", integer p.timeout_milliseconds)
    ∷ [])

unfoldable pub replay_payload : ReplaySpecification → Result Json
unfolding policy_payload target_payload predicate_payload
replay_payload s = do
  policy ← policy_payload s.policy
  target ← target_payload s.target
  ok (
      object_of (
        (codes "policy", object (policy_members policy))
        ∷ (codes "predicate", predicate_payload s.predicate)
        ∷ (codes "schema", string schema)
        ∷ (codes "target", target)
        ∷ []))
