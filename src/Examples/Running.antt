-- ===== src/Examples/Running.antt =====
-- A campaign at concrete settings.
use rechnungsprobe.Prelude.{
  ℕ, zero, suc, ◌+◌, ◌/◌, ◌%◌, Text, codes, text_eq, Bool, true, false, ◌||◌, ltb, Option, none,
  some, List, [], ◌∷◌, map, All, length, take, drop, ◌≡◌, refl, if◌then◌else◌, ◌&&◌,
}
use rechnungsprobe.Prelude.Int.{pos}
use rechnungsprobe.Errors.{Result, ok, err}
use rechnungsprobe.Corpus.{Candidate}
use rechnungsprobe.Json.{null}
use rechnungsprobe.Model.Invoice.{Host}
use rechnungsprobe.Model.Serialize.{serialize_invoice}
use rechnungsprobe.Predicates.{ValidationResult}
use rechnungsprobe.Process.{exited, ProcessPolicy}
use rechnungsprobe.Replay.Defs.{local, crash}
use rechnungsprobe.Target.{TargetResult}
use rechnungsprobe.Campaign.{Settings, World}
use rechnungsprobe.Campaign.Finding.{Finding, try_candidate}
use rechnungsprobe.Campaign.Finding.Confirmed.{IsConfirmed, try_candidate-IsConfirmed}
use rechnungsprobe.Campaign.Run.{CampaignResult, first_world, run_campaign, search_findings}
use rechnungsprobe.Campaign.Run.Sound.{IsCampaign, run_campaign-IsCampaign}
use rechnungsprobe.Campaign.Minimal.{IsDeterministic}
use rechnungsprobe.Campaign.Run.Minimal.{IsMinimalOf, search_findings-AreMinimal}
use rechnungsprobe.Predicates.{PredicateEvaluation, evaluate_crash}
use rechnungsprobe.Samples.{digest, plain_reader, sample_invoice}
use rechnungsprobe.Examples.Shrinking.{value_or}
use rechnungsprobe.Examples.Validation.{tree}
use rechnungsprobe.Examples.{program}

-- The low digits of a number, in hexadecimal
abbrev hex_digits : ℕ → ℕ → Text
hex_digits zero n = []
hex_digits (suc k) n =
    (if ltb (n % 16) 10 then 48 + n % 16 else 87 + n % 16) ∷ hex_digits k (n / 16)

instance abbrev hex_host : Host
hex_host = record {
  is_alpha = λ c. ltb 64 c && (ltb c 91 || (ltb 96 c && ltb c 123));
  sha256 = λ t. hex_digits 64 (digest 7 t);
}

abbrev some_digest : Text
some_digest = hex_digits 64 0

abbrev pub sample_policy : ProcessPolicy
sample_policy = record {
  timeout_seconds = pos 10000000000000000000;
  cpu_seconds = pos 8000000000000000000;
  max_memory_bytes = pos 536870912;
  max_processes = pos 8;
  max_output_bytes = pos 4;
  max_input_bytes = pos 2097152;
  max_file_growth_bytes = pos 16777216;
  max_created_files = pos 256;
  poll_interval_seconds = pos 10000000000000000;
}

-- The target fails where the invoice's identifier is "abcd" or "ab", or starts with "RP-".
abbrev fails : Text → Bool
fails document =
    text_eq (take 5 (drop 369 document)) (codes "abcd<")
    || (text_eq (take 3 (drop 369 document)) (codes "ab<")
        || text_eq (take 3 (drop 369 document)) (codes "RP-"))

abbrev answer : Text → TargetResult
answer document = record {
  process = record {
    termination = exited;
    returncode = some (pos (if fails document then 1 else 0));
    stdout = [];
    stderr = [];
  };
  output_xml = none;
  target_digest = some_digest;
}

abbrev passed : ValidationResult
passed = record {
  valid = true;
  profile_id = codes "p";
  exit_code = pos 0;
  errors = [];
  report_sha256 = none;
}

abbrev sample_settings : Settings
sample_settings = record {
  target =
      local (record { command = codes "t" ∷ []; input_mode = codes "stdin"; output_file = none });
  predicate = crash;
  policy = sample_policy;
  reproductions = 2;
  synthetic = true;
  validator = λ cases path. ok (map (λ row. (row.0, passed)) cases);
  runner = λ target document path policy. ok (answer document);
  python = record {
    decode = λ t. some t;
    loads = λ t. ok null;
    is_digit = λ c. false;
    int_of = λ t. none;
  };
  tree_of = λ document. ok tree;
  bytes_sha256 = λ bytes. some_digest;
  validation_root = codes "v";
  target_root = codes "w";
}

abbrev sample_candidate : Candidate
unfolding program
sample_candidate = record {
  index = 0;
  campaign_seed = 7;
  seed_sha256 = some_digest;
  seed_fingerprint = some_digest;
  operations = [];
  fingerprint = some_digest;
  xml_sha256 = some_digest;
  xml = value_or [] (serialize_invoice sample_invoice);
}

-- What a search that finds something returns
found_in :
    (r : Result (Option Finding × World))
    → elim r [ err e ↦ false | ok (none, w) ↦ false | ok (some f, w) ↦ true ] ≡ true
    → (f : Finding) × (w : World) × (r ≡ ok (some f, w))
found_in (err e) h = cc h
found_in (ok (none, w)) h = cc h
found_in (ok (some f, w)) h = (f, w, refl)

sample_finding :
    (f : Finding) × (w : World) × (try_candidate sample_settings 20 sample_candidate first_world
      ≡ ok (some f, w))
unfolding program tree
sample_finding = found_in (try_candidate sample_settings 20 sample_candidate first_world) refl

try_candidate-IsConfirmed_example :
    IsConfirmed sample_settings sample_candidate first_world sample_finding.0
try_candidate-IsConfirmed_example =
    try_candidate-IsConfirmed sample_settings 20 sample_candidate first_world sample_finding.0
      sample_finding.1 sample_finding.2

abbrev seed : Text
unfolding program
seed = value_or [] (serialize_invoice sample_invoice)

abbrev pub returned_by :
    {A : Type 0} (r : Result A)
    → elim r [ err e ↦ false | ok a ↦ true ] ≡ true
    → (a : A) × (r ≡ ok a)
returned_by (err e) h = cc h
returned_by (ok a) h = (a, refl)

sample_campaign :
    (out : CampaignResult × List Finding) × (run_campaign sample_settings 20 1 7 seed ≡ ok out)
unfolding program tree
sample_campaign = returned_by (run_campaign sample_settings 20 1 7 seed) refl

run_campaign-IsCampaign_example :
    IsCampaign sample_settings 7 seed 1 sample_campaign.0.0 sample_campaign.0.1
run_campaign-IsCampaign_example =
    run_campaign-IsCampaign sample_settings 20 1 7 seed sample_campaign.0.0 sample_campaign.0.1
      sample_campaign.1

-- The campaign has a finding.
sample_finding_count : sample_campaign.0.0.finding_count ≡ 1
unfolding program tree sample_campaign
sample_finding_count = refl

abbrev sample_evaluation : Text → PredicateEvaluation
sample_evaluation document = evaluate_crash (answer document)

sample_settings-IsDeterministic :
    IsDeterministic sample_settings answer (λ document. passed) sample_evaluation some_digest
unfolding program
sample_settings-IsDeterministic = record {
  is_judge = λ cases path. refl;
  agree = λ d e same. refl;
  runs = λ d path. refl;
  evaluates = λ d. refl;
  one_target = λ d. refl;
}

sample_search :
    (findings : List Finding) × (search_findings sample_settings 20 seed (sample_candidate ∷ [])
      ≡ ok findings)
unfolding program tree
sample_search = returned_by (search_findings sample_settings 20 seed (sample_candidate ∷ [])) refl

search_findings-AreMinimal_example :
    All
      (IsMinimalOf sample_settings answer
        (λ document. passed)
        sample_evaluation
        some_digest
        sample_settings-IsDeterministic
        (sample_candidate ∷ []))
      sample_search.0
search_findings-AreMinimal_example =
    search_findings-AreMinimal sample_settings answer (λ document. passed) sample_evaluation
      some_digest sample_settings-IsDeterministic 20 seed (sample_candidate ∷ []) sample_search.0
      sample_search.1

-- The search finds something.
sample_search_count : length sample_search.0 ≡ 1
unfolding program tree sample_search
sample_search_count = refl
