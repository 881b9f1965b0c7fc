-- ===== src/Campaign/Run/Sound.antt =====
-- What `run_campaign` of src/rechnungsprobe/campaign.py returns: at most one finding, confirmed.
use mathlib.Core.List.{Memᴰ}
use mathlib.Core.Path.{subst}
use rechnungsprobe.Prelude.{
  ℕ, ◌≤◌, Text, ◌&&◌, leb, leb→le, Option, none, some, List, [], ◌∷◌, length, All, All-imp, ◌≡◌,
  ◌∙◌, refl, sym, ap, arith,
}
use rechnungsprobe.Errors.{Result, ok, ok-injective, >>=-eq-ok, >>-eq-ok, guard, guard-eq-ok}
use rechnungsprobe.Corpus.{Candidate, generate_candidates}
use rechnungsprobe.Model.Invoice.{Invoice, Host, Reader}
use rechnungsprobe.Model.Parse.Document.{parse_tree}
use rechnungsprobe.Campaign.{Settings, World}
use rechnungsprobe.Campaign.Corpus.{validate_corpus}
use rechnungsprobe.Campaign.Finding.{Finding, try_candidate}
use rechnungsprobe.Campaign.Finding.Confirmed.{IsConfirmed, try_candidate-IsConfirmed}
use rechnungsprobe.Campaign.Run.{
  CampaignResult, first_world, known_of, search_findings, try_candidates, run_campaign,
}

module _ ⦃host : Host⦄ ⦃reader : Reader⦄ (s : Settings) where
  -- A finding of one of the candidates
  pub record IsFindingOf (candidates : List Candidate) (f : Finding) : Type 0 where
    pub candidate : Candidate
    pub among : Memᴰ candidate candidates
    pub before : World
    pub confirmed : IsConfirmed s candidate before f

  pub record AreFindings (candidates : List Candidate) (findings : List Finding) : Type 0 where
    pub at_most_one : length findings ≤ 1
    pub each : All (IsFindingOf candidates) findings

  later-AreFindings :
      (c : Candidate) (candidates : List Candidate) (findings : List Finding)
      → AreFindings candidates findings
      → AreFindings (c ∷ candidates) findings
  later-AreFindings c candidates findings h = record {
    at_most_one = h.at_most_one;
    each =
        All-imp _ _
          (λ f k. record {
            candidate = k.candidate;
            among = Memᴰ.tail k.among;
            before = k.before;
            confirmed = k.confirmed;
          })
          findings h.each;
  }

  try_candidates-AreFindings :
      (fuel : ℕ) (candidates : List Candidate) (w : World) (findings : List Finding) (w' : World)
      → try_candidates s fuel candidates w ≡ ok (findings, w')
      → AreFindings candidates findings
  unfolding try_candidates
  try_candidates-AreFindings fuel [] w findings w' h =
      subst (λ l. AreFindings [] l) (ap (λ x. x.0) (ok-injective h))
        (record { at_most_one = omega arith; each = tt })
  try_candidates-AreFindings fuel (c ∷ rest) w findings w' h =
      let ((found, w1), tried, h1) = >>=-eq-ok (try_candidate s fuel c w) _ h in
      go found w1 tried (λ k. try_candidates-AreFindings fuel rest w1 findings w' k) h1
    where
      go :
          (found : Option Finding) (w1 : World)
          → try_candidate s fuel c w ≡ ok (found, w1)
          → (try_candidates s fuel rest w1 ≡ ok (findings, w') → AreFindings rest findings)
          → elim found as (λ _. Result (List Finding × World)) [
            | none ↦ try_candidates s fuel rest w1
            | some finding ↦ ok (finding ∷ [], w1)
          ]
            ≡ ok (findings, w')
          → AreFindings (c ∷ rest) findings
      go none w1 tried later h1 = later-AreFindings c rest findings (later h1)
      go (some f) w1 tried later h1 =
          subst (λ l. AreFindings (c ∷ rest) l) (ap (λ x. x.0) (ok-injective h1))
            (record {
              at_most_one = omega arith;
              each = (
                record {
                  candidate = c;
                  among = Memᴰ.head refl;
                  before = w;
                  confirmed = try_candidate-IsConfirmed s fuel c w f w1 tried;
                },
                tt,
              );
            })

  search_findings-AreFindings :
      (fuel : ℕ) (seed : Text) (candidates : List Candidate) (findings : List Finding)
      → search_findings s fuel seed candidates ≡ ok findings
      → AreFindings candidates findings
  unfolding search_findings
  search_findings-AreFindings fuel seed candidates findings h =
      let (w, _, h1) = >>=-eq-ok (validate_corpus s seed candidates first_world) _ h in
      let ((findings', w'), tried, h2) =
        >>=-eq-ok
          (try_candidates s fuel candidates
            (record w { validity_cache = known_of seed candidates }))
          _ h1 in
      subst (λ l. AreFindings candidates l) (ok-injective h2)
        (try_candidates-AreFindings fuel candidates _ findings' w' tried)

  -- A campaign on generated candidates
  pub record IsCampaign (campaign_seed : ℕ) (seed : Text) (count : ℕ) (result : CampaignResult)
      (findings : List Finding) : Type 0 where
    pub seed_invoice : Invoice
    pub candidates : List Candidate
    pub generated :
        generate_candidates seed_invoice (host.sha256 seed) count campaign_seed 0 1 ≡ ok candidates
    pub counted : result.candidate_count ≡ length candidates
    pub found : result.finding_count ≡ length findings
    pub bounded : count ≤ 10000
    pub findings_sound : AreFindings candidates findings

  -- When a campaign returns, its count is at most 10000, it reports the number of the candidates that
  -- were generated and of its findings, there is at most one finding, and that is one of a candidate
  -- and was confirmed.
  pub run_campaign-IsCampaign :
      (fuel count campaign_seed : ℕ) (seed : Text) (result : CampaignResult)
      (findings : List Finding)
      → run_campaign s fuel count campaign_seed seed ≡ ok (result, findings)
      → IsCampaign campaign_seed seed count result findings
  unfolding run_campaign
  run_campaign-IsCampaign fuel count campaign_seed seed result findings h =
      let (small, h1) = >>-eq-ok (guard (leb count 10000) _) _ h in
      let (reproductions, h2) = >>-eq-ok (guard (leb 1 s.reproductions && _) _) _ h1 in
      let (tree, _, h3) = >>=-eq-ok (s.tree_of seed) _ h2 in
      let (seed_invoice, _, h4) = >>=-eq-ok (parse_tree tree) _ h3 in
      let (candidates, generated, h5) =
        >>=-eq-ok (generate_candidates seed_invoice (host.sha256 seed) count campaign_seed 0 1) _
          h4 in
      let (findings', searched, h6) = >>=-eq-ok (search_findings s fuel seed candidates) _ h5 in
      let same = ok-injective h6 in
      let same_findings : findings' ≡ findings = ap (λ x. x.1) same in
      record {
        seed_invoice = seed_invoice;
        candidates = candidates;
        generated = generated;
        counted = ap (λ x. x.0.candidate_count) (sym same);
        found = ap (λ x. x.0.finding_count) (sym same) ∙ ap (λ l. length l) same_findings;
        bounded = leb→le count 10000 (guard-eq-ok _ _ small);
        findings_sound =
            subst (λ l. AreFindings candidates l) same_findings
              (search_findings-AreFindings fuel seed candidates findings' searched);
      }
