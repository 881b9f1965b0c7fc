-- ===== src/Examples/Replays.antt =====
-- A replay payload at a concrete specification.
use rechnungsprobe.Prelude.{codes, some, false, none, [], ◌∷◌, ◌≡◌, refl}
use rechnungsprobe.Prelude.Int.{pos}
use rechnungsprobe.Errors.{ok}
use rechnungsprobe.Json.{Json}
use rechnungsprobe.Replay.Defs.{ReplaySpecification, local, stdout_json, number}
use rechnungsprobe.Replay.Write.{replay_payload}
use rechnungsprobe.Json.Strict.{Runtime}
use rechnungsprobe.Examples.Running.{sample_policy, returned_by}
use rechnungsprobe.Examples.{program}

abbrev sample_specification : ReplaySpecification
sample_specification = record {
  target =
      local (record { command = codes "t" ∷ []; input_mode = codes "stdin"; output_file = none });
  predicate = stdout_json (codes "/a") (number (pos 1));
  -- 0.1 + 0.2 seconds in binary floating point
  policy = record sample_policy { timeout_seconds = pos 300000000000000040 };
}

sample_payload : (json : Json) × (replay_payload sample_specification ≡ ok json)
unfolding program
sample_payload = returned_by (replay_payload sample_specification) refl

abbrev sample_python : Runtime
sample_python = record {
  decode = λ t. some t;
  loads = λ t. ok sample_payload.0;
  is_digit = λ c. false;
  int_of = λ t. none;
}
