-- ===== src/Campaign/Run.antt =====
-- `run_campaign` of src/rechnungsprobe/campaign.py, with the settings and the bundled seed given: its
-- decisions and calls, and not the files that it writes.
pub mod Sound
pub mod Minimal
use rechnungsprobe.Prelude.{
  ℕ, zero, suc, Text, codes, Bool, true, false, ◌&&◌, leb, Option, none, some, List, [], ◌∷◌,
  length,
}
use rechnungsprobe.Errors.{Result, ok, security_error, guard, ◌>>=◌, ◌>>◌}
use rechnungsprobe.Corpus.{Candidate, generate_candidates}
use rechnungsprobe.Model.Invoice.{Host, Reader}
use rechnungsprobe.Model.Parse.Document.{parse_tree}
use rechnungsprobe.Profiles.{xrechnung_ubl_3_0_2}
use rechnungsprobe.Campaign.{Settings, World}
use rechnungsprobe.Campaign.Calls.{put}
use rechnungsprobe.Campaign.Corpus.{validate_corpus, cache_of}
use rechnungsprobe.Campaign.Finding.{Finding, try_candidate}

pub record CampaignResult : Type 0 where
  pub candidate_count : ℕ
  pub finding_count : ℕ
  pub profile_id : Text

abbrev pub first_world : World
first_world = record { validation_index = 0; target_index = 0; validity_cache = [] }

module _ ⦃host : Host⦄ where
  -- The candidates' cache, with the seed
  unfoldable pub known_of : Text → List Candidate → List (Text × Bool)
  unfolding cache_of put
  known_of seed candidates = put (host.sha256 seed) true (cache_of candidates [])

module _ ⦃host : Host⦄ ⦃reader : Reader⦄ (s : Settings) where
  -- The loop over the candidates, which ends at the first finding.
  unfoldable pub try_candidates : ℕ → List Candidate → World → Result (List Finding × World)
  unfolding try_candidate
  try_candidates fuel [] w = ok ([], w)
  try_candidates fuel (c ∷ rest) w = try_candidate s fuel c w >>= λ (found, w'). elim found [
    | none ↦ try_candidates fuel rest w'
    | some finding ↦ ok (finding ∷ [], w')
  ]

  -- The part of `run_campaign` that needs the workspaces
  unfoldable pub search_findings : ℕ → Text → List Candidate → Result (List Finding)
  unfolding validate_corpus known_of try_candidates
  search_findings fuel seed candidates = do
    w ← validate_corpus s seed candidates first_world
    (findings, w') ←
        try_candidates fuel candidates (record w { validity_cache = known_of seed candidates })
    ok findings

  unfoldable pub run_campaign : ℕ → ℕ → ℕ → Text → Result (CampaignResult × List Finding)
  unfolding generate_candidates search_findings
  run_campaign fuel count campaign_seed seed = do
    guard (leb count 10000) (security_error "CLI campaigns are limited to 10000 candidates")
    guard (leb 1 s.reproductions && leb s.reproductions 100)
        (security_error "reproductions must be between one and 100")
    tree ← s.tree_of seed
    seed_invoice ← parse_tree tree
    candidates ← generate_candidates seed_invoice (host.sha256 seed) count campaign_seed 0 1
    findings ← search_findings fuel seed candidates
    ok (
      record {
        candidate_count = length candidates;
        finding_count = length findings;
        profile_id = xrechnung_ubl_3_0_2.identifier;
      },
      findings,
    )
