-- ===== src/Campaign/Calls.antt =====
-- The calls of the validator and of the target in src/rechnungsprobe/campaign.py, and the callbacks of
-- shrinking that `run_campaign` makes of them.
use rechnungsprobe.Prelude.{
  ℕ, zero, suc, ◌+◌, Text, codes, pad, text_eq, contains, Bool, true, false, ◌&&◌, all, Option,
  none, some, List, [], ◌∷◌, ◌++◌, map, take, drop, length, if◌then◌else◌,
}
use rechnungsprobe.Prelude.Int.{pos}
use rechnungsprobe.Errors.{Result, ok, err, security_error, key_error, guard, ◌>>=◌, ◌>>◌}
use rechnungsprobe.Model.Invoice.{Host, Reader}
use rechnungsprobe.Predicates.{ValidationResult, PredicateEvaluation}
use rechnungsprobe.Predicates.Evaluate.{evaluate}
use rechnungsprobe.Profiles.{xrechnung_ubl_3_0_2}
use rechnungsprobe.Replay.Defs.{ReplayPredicate, output_invalid}
use rechnungsprobe.Shrink.Calls.{Calls}
use rechnungsprobe.Target.{TargetResult}
use rechnungsprobe.Campaign.{Settings, World, next_validation, next_target}
use rechnungsprobe.Campaign.Signature.{FailureSignature, failure_signature, signature_eq}

-- A dictionary is the list of its entries.
module _ {V : Type 0} where
  abbrev pub dict_keys : List (Text × V) → List Text
  dict_keys = map (λ row. row.0)

  unfoldable pub lookup : Text → List (Text × V) → Option V
  lookup key [] = none
  lookup key ((name, value) ∷ rest) =
      let later = lookup key rest in if text_eq name key then some value else later

  -- `d[key]`
  unfoldable pub item_of : Text → List (Text × V) → Result V
  unfolding lookup
  item_of key entries = elim (lookup key entries) [ none ↦ err key_error | some value ↦ ok value ]

  -- `d[key] = value`, which keeps the place of a key that is there
  unfoldable pub put : Text → V → List (Text × V) → List (Text × V)
  put key value [] = (key, value) ∷ []
  put key value ((name, old) ∷ rest) =
      let later = put key value rest in
      if text_eq name key then (name, value) ∷ rest else (name, old) ∷ later

-- `set(a) == set(b)`
unfoldable pub same_keys : List Text → List Text → Bool
same_keys a b = all (λ key. contains key b) a && all (λ key. contains key a) b

-- The results of the validator, if they are those of the cases
unfoldable pub validated :
    Settings → List (Text × Text) → Text → Result (List (Text × ValidationResult))
unfolding same_keys
validated s cases path = do
  results ← s.validator cases path
  guard (same_keys (dict_keys results) (dict_keys cases))
      (security_error "validator returned an unexpected result set")
  ok results

-- `_valid`
unfoldable pub valid_once : Settings → Text → World → Result (Bool × World)
unfolding validated next_validation item_of
valid_once s document w = do
  let (path, w') = next_validation s w
  results ← validated s ((codes "candidate", document) ∷ []) path
  result ← item_of (codes "candidate") results
  ok (result.valid, w')

abbrev pub reads_validation : ReplayPredicate → Bool
reads_validation output_invalid = true
reads_validation predicate = false

-- What `except SecurityError` makes of an error
abbrev pub recovered : Result ValidationResult → Result ValidationResult
recovered (err (security_error message)) = ok (record {
  valid = false;
  profile_id = xrechnung_ubl_3_0_2.identifier;
  exit_code = pos 1;
  errors = codes message ∷ [];
  report_sha256 = none;
})
recovered other = other

abbrev pub output_result : Settings → Text → Text → Result ValidationResult
output_result s output path = do
  results ← validated s ((codes "output", output) ∷ []) path
  item_of (codes "output") results

unfoldable pub validate_output :
    Settings → Option Text → World → Result (Option ValidationResult × World)
unfolding validated next_validation item_of
validate_output s none w = ok (none, w)
validate_output s (some output) w =
    if reads_validation s.predicate
    then (let next = next_validation s w in
        recovered (output_result s output next.0) >>= λ validation. ok (some validation, next.1))
    else ok (none, w)

abbrev pub case_name : ℕ → Text
case_name index = codes "candidate-" ++ pad 4 index

unfoldable pub numbered : ℕ → List (Text × Text) → List (Text × Text)
unfolding pad
numbered index [] = []
numbered index ((digest, document) ∷ rest) = (case_name index, document) ∷ numbered (index + 1) rest

unfoldable pub record_results :
    ℕ
    → List (Text × Text)
    → List (Text × ValidationResult)
    → List (Text × Bool)
    → Result (List (Text × Bool))
unfolding item_of put pad
record_results index [] results cache = ok cache
record_results index ((digest, document) ∷ rest) results cache = do
  result ← item_of (case_name index) results
  record_results (index + 1) rest results (put digest result.valid cache)

-- The batches of 64; the fuel bounds their number.
unfoldable pub run_batches : Settings → ℕ → List (Text × Text) → World → Result World
unfolding numbered record_results validated next_validation
run_batches s zero missing w = ok w
run_batches s (suc fuel) [] w = ok w
run_batches s (suc fuel) (m ∷ missing) w = do
  let batch = take 64 (m ∷ missing)
  let next = next_validation s w
  results ← validated s (numbered 0 batch) next.0
  cache ← record_results 0 batch results next.1.validity_cache
  run_batches s fuel (drop 64 (m ∷ missing)) (record next.1 { validity_cache = cache })

module _ ⦃host : Host⦄ where
  -- `missing[digest] = document` where the digest is not in the cache
  abbrev pub unless_known : Option Bool → Text → Text → List (Text × Text) → List (Text × Text)
  unless_known (some valid) digest document missing = missing
  unless_known none digest document missing = put digest document missing

  -- The documents whose validity is not known, each once
  unfoldable pub missing_of :
      List (Text × Bool) → List Text → List (Text × Text) → List (Text × Text)
  unfolding lookup put
  missing_of cache [] missing = missing
  missing_of cache (document ∷ rest) missing =
      let digest = host.sha256 document in
      missing_of cache rest (unless_known (lookup digest cache) digest document missing)

  unfoldable pub all_known : List Text → List (Text × Bool) → Result (List Bool)
  unfolding item_of
  all_known [] cache = ok []
  all_known (document ∷ rest) cache = do
    valid ← item_of (host.sha256 document) cache
    others ← all_known rest cache
    ok (valid ∷ others)

module _ ⦃host : Host⦄ (s : Settings) where
  unfoldable pub is_valid : Text → World → Result (Bool × World)
  unfolding lookup put valid_once
  is_valid document w = elim (lookup (host.sha256 document) w.validity_cache) [
    | some known ↦ ok (known, w)
    | none ↦ valid_once s document w >>= λ (valid, w').
        ok
          (valid, record w' { validity_cache = put (host.sha256 document) valid w'.validity_cache })
  ]

  unfoldable pub validate_batch : List Text → World → Result (List Bool × World)
  unfolding missing_of run_batches all_known
  validate_batch documents w = do
    let missing = missing_of w.validity_cache documents []
    w' ← run_batches s (length missing) missing w
    valid ← all_known documents w'.validity_cache
    ok (valid, w')

module _ ⦃host : Host⦄ ⦃reader : Reader⦄ (s : Settings) where
  -- `_run_and_evaluate`
  unfoldable pub run_and_evaluate :
      Text → World → Result ((TargetResult × PredicateEvaluation) × World)
  unfolding next_target validate_output evaluate
  run_and_evaluate document w = do
    let next = next_target s w
    result ← s.runner s.target document next.0 s.policy
    (validation, w') ← validate_output s result.output_xml next.1
    evaluation ←
        evaluate s.python s.tree_of s.predicate result
          (record { input_xml = document; output_validation = validation })
    ok ((result, evaluation), w')

  unfoldable pub preserves_finding : Text → FailureSignature → Text → World → Result (Bool × World)
  unfolding run_and_evaluate failure_signature signature_eq
  preserves_finding expected_digest expected_signature document w = do
    ((result, evaluation), w') ← run_and_evaluate document w
    guard (text_eq result.target_digest expected_digest)
        (security_error "target digest changed during reduction")
    ok (
      evaluation.matched
          && signature_eq (failure_signature s.bytes_sha256 result evaluation s.predicate)
              expected_signature,
      w',
    )

  abbrev pub campaign_calls : Text → FailureSignature → Calls World
  campaign_calls expected_digest expected_signature = record {
    is_valid = is_valid s;
    preserves_finding = preserves_finding expected_digest expected_signature;
    validate_batch = some (validate_batch s);
  }
