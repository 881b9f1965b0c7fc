-- ===== src/Replay/RoundTrip.antt =====
-- `parse_replay_json` gives back the specification that `replay_json` wrote.
use rechnungsprobe.Prelude.{Text, codes, text_eq, true, ◌||◌, ◌≡◌}
use rechnungsprobe.Errors.{ok}
use rechnungsprobe.Json.{Json}
use rechnungsprobe.Predicates.Loss.{check_fields}
use rechnungsprobe.Replay.Defs.{
  ReplayTarget, local, container, ReplayPredicate, stdout_json, declared_field_loss,
  ReplaySpecification, check_specification,
}
use rechnungsprobe.Replay.Read.{is_pointer}

abbrev pub input_mode_of : ReplayTarget → Text
input_mode_of (local t) = t.input_mode
input_mode_of (container t) = t.input_mode

-- What the dataclasses of a specification do not enforce, or enforce when they are made
abbrev pub IsWellMade : ReplayPredicate → Type 0
IsWellMade (stdout_json pointer expected) = is_pointer pointer ≡ true
IsWellMade (declared_field_loss fields) = check_fields fields ≡ ok tt
IsWellMade predicate = Unit

-- A specification that the constructors of Python admit, of a known input mode and a JSON pointer.
pub record IsSpecification (s : ReplaySpecification) : Type 0 where
  pub mode :
      (text_eq (input_mode_of s.target) (codes "stdin")
        || text_eq (input_mode_of s.target) (codes "file"))
      ≡ true
  pub predicate : IsWellMade s.predicate
  pub output : check_specification s ≡ ok tt
