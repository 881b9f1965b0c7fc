-- ===== src/Replay/Read.antt =====
-- `parse_replay_json` of src/rechnungsprobe/replay.py, from the value that `strict_json` returns on.
use rechnungsprobe.Prelude.{
  ℕ, ◌+◌, ◌-◌, ◌*◌, Text, codes, text_eq, Bool, true, false, not, ◌&&◌, ◌||◌, leb, ◌==◌, Option,
  none, some, List, [], ◌∷◌, length, if◌then◌else◌,
}
use rechnungsprobe.Prelude.Int.{ℤ, pos, negsuc, ltb_ℤ}
use rechnungsprobe.Errors.{Result, ok, err, security_error, type_error, guard, ◌>>=◌, ◌>>◌}
use rechnungsprobe.Json.{
  Json, Members, null, bool, integer, string, array, object, get, has_keys, texts_of,
}
use rechnungsprobe.Json.Strict.{Runtime, strict_json}
use rechnungsprobe.Process.{millisecond, ProcessPolicy}
use rechnungsprobe.Target.{LocalTarget}
use rechnungsprobe.Predicates.Loss.{check_fields}
use rechnungsprobe.Replay.Defs.{
  ReplayTarget, local, container, JsonScalar, text, number, flag, nothing, ReplayPredicate, crash,
  timeout, stdout_json, output_invalid, declared_field_loss, ReplaySpecification,
  check_specification, check_command, policy_payload,
}
use rechnungsprobe.Replay.Write.{schema}

abbrev pub is_text : Text → Option Json → Bool
is_text expected (some (string value)) = text_eq value expected
is_text expected other = false

-- The members of an object, or an error
abbrev pub members_of : Option Json → Result Members
members_of (some (object members)) = ok members
members_of other = err (security_error "replay value has an invalid shape")

abbrev listed : Option (List Text) → Result (List Text)
listed none = err (security_error "replay list has invalid types")
listed (some texts) = ok texts

-- An array of strings
abbrev pub strings : Option Json → Result (List Text)
strings (some (array items)) = listed (texts_of items)
strings other = err (security_error "replay list has invalid types")

-- `input_mode not in {"stdin", "file"}`; a list or an object cannot be looked up in a set.
abbrev pub read_mode : Option Json → Result Text
read_mode (some (string mode)) = do
  guard (text_eq mode (codes "stdin") || text_eq mode (codes "file"))
      (security_error "replay target is invalid")
  ok mode
read_mode (some (array items)) = err type_error
read_mode (some (object fields)) = err type_error
read_mode other = err (security_error "replay target is invalid")

abbrev pub read_output_file : Option Json → Result (Option Text)
read_output_file (some null) = ok none
read_output_file (some (string value)) = ok (some value)
read_output_file other = err (security_error "replay target is invalid")

abbrev target_keys : Bool → List Text
target_keys true =
    codes "command" ∷ codes "image" ∷ codes "input_mode" ∷ codes "kind" ∷ codes "output_file" ∷ []
target_keys false = codes "command" ∷ codes "input_mode" ∷ codes "kind" ∷ codes "output_file" ∷ []

-- The target of this kind
abbrev pub target_of : Option Json → Option Json → LocalTarget → Result ReplayTarget
target_of kind image t = if is_text (codes "local") kind then ok (local t) else elim image [
  | some (string name) ↦
      if is_text (codes "container") kind
      then ok (
          container (record {
            image = name;
            command = t.command;
            input_mode = t.input_mode;
            output_file = t.output_file;
          }))
      else err (security_error "replay target is invalid")
  | other ↦ err (security_error "replay target is invalid")
]

unfoldable pub read_target : Members → Result ReplayTarget
unfolding get has_keys texts_of check_command text_eq
read_target members = do
  let kind = get (codes "kind") members
  guard (has_keys (target_keys (is_text (codes "container") kind)) members)
      (security_error "replay target has an invalid shape")
  texts ← strings (get (codes "command") members)
  command ← check_command texts
  mode ← read_mode (get (codes "input_mode") members)
  output_file ← read_output_file (get (codes "output_file") members)
  target_of kind (get (codes "image") members)
      (record { command = command; input_mode = mode; output_file = output_file })

-- `pointer == "" or pointer.startswith("/")`
abbrev pub starts_well : Text → Bool
starts_well [] = true
starts_well (c ∷ rest) = c == b'/'

abbrev pub is_pointer : Text → Bool
is_pointer pointer = starts_well pointer && leb (length pointer) 1000

abbrev pub read_pointer : Option Json → Result Text
read_pointer (some (string pointer)) = do
  guard (is_pointer pointer) (security_error "replay JSON predicate is invalid")
  ok pointer
read_pointer other = err (security_error "replay JSON predicate is invalid")

abbrev pub read_scalar : Option Json → Result JsonScalar
read_scalar (some null) = ok nothing
read_scalar (some (bool b)) = ok (flag b)
read_scalar (some (integer n)) = ok (number n)
read_scalar (some (string t)) = ok (text t)
read_scalar other = err (security_error "replay JSON predicate is invalid")

-- `payload == {"kind": name}`
abbrev pub is_kind : Text → Members → Bool
is_kind name members =
    has_keys (codes "kind" ∷ []) members && is_text name (get (codes "kind") members)

unfoldable pub read_predicate : Members → Result ReplayPredicate
unfolding get has_keys texts_of text_eq
read_predicate members =
    let kind = get (codes "kind") members in
    let json =
      (read_pointer (get (codes "pointer") members) >>= λ pointer.
      read_scalar (get (codes "expected") members) >>= λ expected.
      ok (stdout_json pointer expected)) in
    let loss =
      (strings (get (codes "fields") members) >>= λ fields.
      check_fields fields >> ok (declared_field_loss fields)) in
    if is_kind (codes "crash-or-nonzero") members
    then ok crash
    else if is_kind (codes "timeout") members
    then ok timeout
    else if is_kind (codes "output-invalid") members
    then ok output_invalid
    else if has_keys (codes "expected" ∷ codes "kind" ∷ codes "pointer" ∷ []) members
        && is_text (codes "stdout-json") kind
    then json
    else if has_keys (codes "fields" ∷ codes "kind" ∷ []) members
        && is_text (codes "declared-field-loss") kind
    then loss
    else err (security_error "replay predicate is invalid or unsupported")

-- `_integer`
abbrev pub read_integer : ℕ → Option Json → Result ℤ
read_integer low (some (integer n)) = do
  guard (not (ltb_ℤ n (pos low))) (security_error "replay value is invalid")
  ok n
read_integer low other = err (security_error "replay value is invalid")

-- `value / 1000`, of a number of milliseconds
abbrev pub seconds : ℤ → ℤ
seconds (pos n) = pos (n * millisecond)
seconds (negsuc n) = negsuc ((n + 1) * millisecond - 1)

abbrev policy_keys : List Text
policy_keys =
    codes "cpu_milliseconds"
    ∷ codes "max_created_files"
    ∷ codes "max_file_growth_bytes"
    ∷ codes "max_input_bytes"
    ∷ codes "max_memory_bytes"
    ∷ codes "max_output_bytes"
    ∷ codes "max_processes"
    ∷ codes "poll_milliseconds"
    ∷ codes "timeout_milliseconds"
    ∷ []

unfoldable pub read_policy : Members → Result ProcessPolicy
unfolding get has_keys policy_payload text_eq
read_policy members = do
  guard (has_keys policy_keys members)
      (security_error "replay resource policy has an invalid shape")
  timeout_value ← read_integer 1 (get (codes "timeout_milliseconds") members)
  cpu ← read_integer 1 (get (codes "cpu_milliseconds") members)
  memory ← read_integer 1 (get (codes "max_memory_bytes") members)
  processes ← read_integer 1 (get (codes "max_processes") members)
  output ← read_integer 0 (get (codes "max_output_bytes") members)
  input ← read_integer 1 (get (codes "max_input_bytes") members)
  growth ← read_integer 0 (get (codes "max_file_growth_bytes") members)
  created ← read_integer 0 (get (codes "max_created_files") members)
  poll ← read_integer 1 (get (codes "poll_milliseconds") members)
  let policy : ProcessPolicy = record {
    timeout_seconds = seconds timeout_value;
    cpu_seconds = seconds cpu;
    max_memory_bytes = memory;
    max_processes = processes;
    max_output_bytes = output;
    max_input_bytes = input;
    max_file_growth_bytes = growth;
    max_created_files = created;
    poll_interval_seconds = seconds poll;
  }
  payload ← policy_payload policy
  ok policy

unfoldable pub parse_replay : Json → Result ReplaySpecification
unfolding get has_keys read_target read_predicate read_policy check_specification text_eq
parse_replay json = do
  members ← members_of (some json)
  guard
      (has_keys (codes "policy" ∷ codes "predicate" ∷ codes "schema" ∷ codes "target" ∷ []) members)
      (security_error "replay specification has an invalid shape")
  guard (is_text schema (get (codes "schema") members))
      (security_error "replay specification schema is unsupported")
  target_members ← members_of (get (codes "target") members)
  target ← read_target target_members
  predicate_members ← members_of (get (codes "predicate") members)
  predicate ← read_predicate predicate_members
  policy_members ← members_of (get (codes "policy") members)
  policy ← read_policy policy_members
  let specification : ReplaySpecification = record {
    target = target;
    predicate = predicate;
    policy = policy;
  }
  check_specification specification
  ok specification

-- `parse_replay_json`: the document is at most 128 KiB.
unfoldable pub parse_replay_json : Runtime → Text → Result ReplaySpecification
unfolding strict_json parse_replay
parse_replay_json python document = do
  payload ← strict_json python document (128 * 1024)
  parse_replay payload
