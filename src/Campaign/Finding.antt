-- ===== src/Campaign/Finding.antt =====
-- What `run_campaign` of src/rechnungsprobe/campaign.py does with a candidate: the first run, shrinking,
-- the check of 1-minimality, the reproductions and the record.
pub mod Reproduced
pub mod Confirmed
use rechnungsprobe.Prelude.{
  ℕ, zero, suc, Text, codes, show_ℕ, text_eq, Bool, true, false, ◌&&◌, Option, none, some, List, [],
  ◌∷◌, ◌++◌, map,
}
use rechnungsprobe.Errors.{Result, ok, err, security_error, runtime_error, guard, ◌>>=◌, ◌>>◌}
use rechnungsprobe.Corpus.{Candidate, MutationRecord}
use rechnungsprobe.Model.Invoice.{Invoice, Host, Reader}
use rechnungsprobe.Model.Serialize.{serialize_invoice}
use rechnungsprobe.Model.Parse.Document.{parse_tree}
use rechnungsprobe.Predicates.{PredicateEvaluation}
use rechnungsprobe.Profiles.{xrechnung_ubl_3_0_2, profile_payload}
use rechnungsprobe.Provenance.{
  Observation, FindingProvenance, observation_from_result, resource_policy_payload,
  check_provenance, termination_name,
}
use rechnungsprobe.Replay.Defs.{ReplaySpecification, check_specification}
use rechnungsprobe.Reporting.{FindingRecord, check_record}
use rechnungsprobe.Shrink.Calls.{call_shrink, call_verify}
use rechnungsprobe.Shrink.Loop.{ShrinkResult, MinimalityResult}
use rechnungsprobe.Target.{TargetResult}
use rechnungsprobe.Campaign.{Settings, World}
use rechnungsprobe.Campaign.Calls.{run_and_evaluate, is_valid, campaign_calls}
use rechnungsprobe.Campaign.Corpus.{case_id}
use rechnungsprobe.Campaign.Signature.{
  FailureSignature, failure_signature, signature_eq, observation_eq,
}

abbrev pub Run : Type 0
Run = TargetResult × PredicateEvaluation

-- What goes into a capsule
pub record Finding : Type 0 where
  pub report : FindingRecord
  pub invoice : Invoice
  pub invoice_xml : Text
  pub replay : ReplaySpecification

-- `f"{operation.name}@{operation.version}:{operation.token}"`
unfoldable pub mutation_text : MutationRecord → Text
unfolding show_ℕ
mutation_text operation = operation.name ++ codes "@1:" ++ show_ℕ operation.token

-- `observations and observation != observations[0]` is not so.
abbrev pub agrees_with_first : Observation → List Observation → Bool
agrees_with_first o [] = true
agrees_with_first o (first ∷ rest) = observation_eq o first

abbrev pub last_run : Option Run → Result Run
last_run none = err (runtime_error "reproduction loop produced no target result")
last_run (some run) = ok run

module _ ⦃host : Host⦄ ⦃reader : Reader⦄ (s : Settings) where
  -- What a turn checks of its run
  unfoldable pub check_reproduction :
      Text → FailureSignature → List Observation → Run → Result Observation
  unfolding failure_signature signature_eq observation_from_result observation_eq
  check_reproduction digest signature observations (result, evaluation) = do
    guard (text_eq result.target_digest digest)
        (security_error "target digest changed during reproduction")
    guard
        (evaluation.matched
          && signature_eq (failure_signature s.bytes_sha256 result evaluation s.predicate)
              signature)
        (security_error "exact finding signature did not reproduce")
    guard (agrees_with_first (observation_from_result s.bytes_sha256 result) observations)
        (security_error "final reproduction observations were not byte-deterministic")
    ok (observation_from_result s.bytes_sha256 result)

  -- One turn of the loop over the reproductions
  unfoldable pub reproduce_once :
      Text
      → FailureSignature
      → Text
      → List Observation
      → World
      → Result ((Run × Observation) × World)
  unfolding is_valid run_and_evaluate check_reproduction
  reproduce_once digest signature document observations w = do
    (valid, w') ← is_valid s document w
    guard valid (security_error "reduced invoice failed reproduction validation")
    (run, w'') ← run_and_evaluate s document w'
    observation ← check_reproduction digest signature observations run
    ok ((run, observation), w'')

  unfoldable pub reproduce :
      ℕ
      → Text
      → FailureSignature
      → Text
      → Option Run
      → List Observation
      → World
      → Result ((Option Run × List Observation) × World)
  unfolding reproduce_once
  reproduce zero digest signature document final observations w = ok ((final, observations), w)
  reproduce (suc n) digest signature document final observations w = do
    ((run, observation), w') ← reproduce_once digest signature document observations w
    reproduce n digest signature document (some run) (observations ++ observation ∷ []) w'

  abbrev pub provenance_of :
      Candidate → Text → List Observation → ShrinkResult → MinimalityResult → FindingProvenance
  provenance_of candidate digest observations shrunk minimality = record {
    campaign_seed = candidate.campaign_seed;
    seed_sha256 = candidate.seed_sha256;
    seed_fingerprint = candidate.seed_fingerprint;
    profile = profile_payload xrechnung_ubl_3_0_2;
    target_digest = digest;
    resource_policy = resource_policy_payload s.policy;
    observations = observations;
    minimization = record {
      algorithm = codes "greedy-1-minimal-v1";
      declared_operations = codes "invoice-node-value-v1";
      attempts = shrunk.attempts;
      accepted_operations = shrunk.accepted;
      one_minimal = minimality.minimal;
      verification_attempts = minimality.attempts;
    };
  }

  -- `_finding_record`
  unfoldable pub finding_record :
      Candidate → Text → Text → Run → Bool → FindingProvenance → FindingRecord
  unfolding mutation_text
  finding_record candidate invoice_xml fingerprint (result, evaluation) one_minimal provenance =
      record {
        case_id = case_id candidate;
        predicate = evaluation.predicate;
        profile_id = xrechnung_ubl_3_0_2.identifier;
        target_digest = result.target_digest;
        invoice_sha256 = host.sha256 invoice_xml;
        fingerprint = fingerprint;
        termination = termination_name result.process.termination;
        returncode = result.process.returncode;
        details = evaluation.details;
        mutations = map mutation_text candidate.operations;
        one_minimal = one_minimal;
        reproductions = s.reproductions;
        synthetic = s.synthetic;
        provenance = some provenance;
      }

  abbrev pub replay_of : ReplaySpecification
  replay_of = record { target = s.target; predicate = s.predicate; policy = s.policy }

  -- The record and what it is kept with, after the reproductions
  unfoldable pub emit :
      Candidate
      → Text
      → ShrinkResult
      → MinimalityResult
      → Text
      → Run
      → List Observation
      → Result Finding
  unfolding check_provenance finding_record check_record check_specification
  emit candidate digest shrunk minimality reduced_xml final observations = do
    let provenance = provenance_of candidate digest observations shrunk minimality
    check_provenance provenance
    let made =
        finding_record candidate reduced_xml shrunk.fingerprint final minimality.minimal provenance
    check_record made
    check_specification replay_of
    ok (record {
      report = made;
      invoice = shrunk.invoice;
      invoice_xml = reduced_xml;
      replay = replay_of;
    })

  -- From the check of 1-minimality on
  unfoldable pub confirm :
      Candidate
      → Text
      → FailureSignature
      → ShrinkResult
      → MinimalityResult
      → World
      → Result (Finding × World)
  unfolding reproduce emit
  confirm candidate digest signature shrunk minimality w = do
    guard minimality.minimal (security_error "independent 1-minimality verification failed")
    reduced_xml ← serialize_invoice shrunk.invoice
    ((final, observations), w') ← reproduce s.reproductions digest signature reduced_xml none [] w
    run ← last_run final
    finding ← emit candidate digest shrunk minimality reduced_xml run observations
    ok (finding, w')

  -- A candidate whose first run matched
  unfoldable pub reduce_finding :
      ℕ → Candidate → Text → FailureSignature → World → Result (Finding × World)
  unfolding call_shrink call_verify confirm
  reduce_finding fuel candidate digest signature w = do
    tree ← s.tree_of candidate.xml
    i ← parse_tree tree
    (shrunk, w1) ← call_shrink fuel (campaign_calls s digest signature) i w
    (minimality, w2) ← call_verify (campaign_calls s digest signature) shrunk.invoice w1
    confirm candidate digest signature shrunk minimality w2

  unfoldable pub try_candidate : ℕ → Candidate → World → Result (Option Finding × World)
  unfolding run_and_evaluate failure_signature reduce_finding
  try_candidate fuel candidate w =
      run_and_evaluate s candidate.xml w >>= λ ((result, evaluation), w'). elim evaluation.matched [
        | false ↦ ok (none, w')
        | true ↦
            reduce_finding fuel candidate result.target_digest
              (failure_signature s.bytes_sha256 result evaluation s.predicate) w'
            >>= λ (finding, w''). ok (some finding, w'')
      ]
