-- ===== src/Campaign/Finding/Confirmed.antt =====
-- A finding that a campaign of src/rechnungsprobe/campaign.py makes of a candidate, from the first run
-- to the record.
use mathlib.Core.Path.{subst}
use rechnungsprobe.Prelude.{
  ℕ, ◌+◌, Text, Bool, true, false, Option, none, some, List, [], length, ◌≡◌, ◌∙◌, refl, sym, ap,
  arith,
}
use rechnungsprobe.Errors.{
  Result, ok, err, ok-injective, >>=-eq-ok, >>-eq-ok, guard, guard-eq-ok, ◌>>=◌,
}
use rechnungsprobe.Model.Invoice.{Host, Reader}
use rechnungsprobe.Predicates.{PredicateEvaluation}
use rechnungsprobe.Provenance.{Observation}
use rechnungsprobe.Target.{TargetResult}
use rechnungsprobe.Campaign.{Settings, World}
use rechnungsprobe.Campaign.Calls.{run_and_evaluate}
use rechnungsprobe.Campaign.Signature.{FailureSignature, failure_signature}
use rechnungsprobe.Campaign.Finding.{
  Run, Finding, last_run, reproduce, provenance_of, finding_record, replay_of, emit, confirm,
  reduce_finding, try_candidate,
}
use rechnungsprobe.Campaign.Calls.{campaign_calls}
use rechnungsprobe.Corpus.{Candidate}
use rechnungsprobe.Model.Parse.Document.{parse_tree}
use rechnungsprobe.Shrink.Calls.{call_shrink, call_verify}
use rechnungsprobe.Model.Serialize.{serialize_invoice}
use rechnungsprobe.Provenance.{FindingProvenance, check_provenance}
use rechnungsprobe.Replay.Defs.{check_specification}
use rechnungsprobe.Reporting.{check_record}
use rechnungsprobe.Shrink.Loop.{ShrinkResult, MinimalityResult}
use rechnungsprobe.Campaign.Finding.Reproduced.{
  AreSame, AreSuccessive, reproduce-IsReproduction, reproduce-AreSuccessive,
}

module _ ⦃host : Host⦄ ⦃reader : Reader⦄ (s : Settings) where
  -- The finding is a 1-minimal one by the independent check, its document is that of its invoice, and
  -- it was observed the same way in as many runs as were asked for.
  pub record IsReproduced (digest : Text) (signature : FailureSignature) (f : Finding)
      : Type 0 where
    pub written : serialize_invoice f.invoice ≡ ok f.invoice_xml
    pub minimal : f.report.one_minimal ≡ true
    pub provenance : FindingProvenance
    pub kept : f.report.provenance ≡ some provenance
    pub start : World
    pub reproductions : AreSuccessive s digest signature f.invoice_xml start provenance.observations
    pub deterministic : AreSame provenance.observations
    pub count : length provenance.observations ≡ s.reproductions

  emit-made :
      (c : Candidate) (digest : Text) (shrunk : ShrinkResult) (minimality : MinimalityResult)
      (xml : Text) (run : Run) (observations : List Observation) (f : Finding)
      → emit s c digest shrunk minimality xml run observations ≡ ok f
      → (f.report
          ≡ finding_record s c xml shrunk.fingerprint run minimality.minimal
              (provenance_of s c digest observations shrunk minimality))
        × (f.invoice ≡ shrunk.invoice)
        × (f.invoice_xml ≡ xml)
  unfolding emit
  emit-made c digest shrunk minimality xml run observations f h =
      let p = provenance_of s c digest observations shrunk minimality in
      let (sound, h1) = >>-eq-ok (check_provenance p) _ h in
      let (bounded, h2) =
        >>-eq-ok (check_record (finding_record s c xml shrunk.fingerprint run minimality.minimal p))
          _ h1 in
      let (replayed, h3) = >>-eq-ok (check_specification (replay_of s)) _ h2 in
      let same = sym (ok-injective h3) in
      (ap (λ x. x.report) same, ap (λ x. x.invoice) same, ap (λ x. x.invoice_xml) same)

  emit-IsReproduced :
      (c : Candidate) (digest : Text) (signature : FailureSignature) (shrunk : ShrinkResult)
      (minimality : MinimalityResult) (xml : Text) (run : Run) (observations : List Observation)
      (f : Finding) (w : World)
      → serialize_invoice shrunk.invoice ≡ ok xml
      → minimality.minimal ≡ true
      → AreSuccessive s digest signature xml w observations
      → AreSame observations
      → length observations ≡ 0 + s.reproductions
      → emit s c digest shrunk minimality xml run observations ≡ ok f
      → IsReproduced digest signature f × (f.invoice ≡ shrunk.invoice)
  unfolding finding_record
  emit-IsReproduced c digest signature shrunk minimality xml run observations f w written minimal
        all same count h =
      let (report, invoice, document) =
        emit-made c digest shrunk minimality xml run observations f h in
      (
        record {
          written = ap (λ x. serialize_invoice x) invoice ∙ written ∙ ap ok (sym document);
          minimal = ap (λ r. r.one_minimal) report ∙ minimal;
          provenance = provenance_of s c digest observations shrunk minimality;
          kept = ap (λ r. r.provenance) report;
          start = w;
          reproductions =
              subst (λ x. AreSuccessive s digest signature x w observations) (sym document) all;
          deterministic = same;
          count = omega (arith, count);
        },
        invoice,
      )

  pub confirm-IsReproduced :
      (c : Candidate) (digest : Text) (signature : FailureSignature) (shrunk : ShrinkResult)
      (minimality : MinimalityResult) (w : World) (f : Finding) (w' : World)
      → confirm s c digest signature shrunk minimality w ≡ ok (f, w')
      → IsReproduced digest signature f × (f.invoice ≡ shrunk.invoice) × (minimality.minimal ≡ true)
  unfolding confirm
  confirm-IsReproduced c digest signature shrunk minimality w f w' h =
      let (minimal, h1) = >>-eq-ok (guard minimality.minimal _) _ h in
      let (xml, written, h2) = >>=-eq-ok (serialize_invoice shrunk.invoice) _ h1 in
      let (((final, observations), w1), reproduced, h3) =
        >>=-eq-ok (reproduce s s.reproductions digest signature xml none [] w) _ h2 in
      let (run, _, h4) = >>=-eq-ok (last_run final) _ h3 in
      let (f', emitted, h5) =
        >>=-eq-ok (emit s c digest shrunk minimality xml run observations) _ h4 in
      let (_, same, count) =
        reproduce-IsReproduction s digest signature xml s.reproductions none [] w final observations
          w1 tt tt reproduced in
      let (more, whole, successive) =
        reproduce-AreSuccessive s digest signature xml s.reproductions none [] w final observations
          w1 reproduced in
      let all = subst (λ l. AreSuccessive s digest signature xml w l) (sym whole) successive in
      let same_finding : f' ≡ f = ap (λ x. x.0) (ok-injective h5) in
      let (made, invoice) =
        emit-IsReproduced c digest signature shrunk minimality xml run observations f w written
          (guard-eq-ok _ _ minimal) all same count (emitted ∙ ap ok same_finding) in
      (made, invoice, guard-eq-ok _ _ minimal)

  -- The first run of the candidate matched; the finding was reproduced with its digest and signature.
  pub record IsConfirmed (c : Candidate) (w : World) (f : Finding) : Type 0 where
    pub result : TargetResult
    pub evaluation : PredicateEvaluation
    pub after : World
    pub ran : run_and_evaluate s c.xml w ≡ ok ((result, evaluation), after)
    pub matched : evaluation.matched ≡ true
    pub reproduced :
        IsReproduced result.target_digest
          (failure_signature s.bytes_sha256 result evaluation s.predicate)
          f

  reduce_finding-IsReproduced :
      (fuel : ℕ) (c : Candidate) (digest : Text) (signature : FailureSignature) (w : World)
      (f : Finding) (w' : World)
      → reduce_finding s fuel c digest signature w ≡ ok (f, w')
      → IsReproduced digest signature f
  unfolding reduce_finding
  reduce_finding-IsReproduced fuel c digest signature w f w' h =
      let (tree, _, h1) = >>=-eq-ok (s.tree_of c.xml) _ h in
      let (i, _, h2) = >>=-eq-ok (parse_tree tree) _ h1 in
      let ((shrunk, w1), _, h3) =
        >>=-eq-ok (call_shrink fuel (campaign_calls s digest signature) i w) _ h2 in
      let ((minimality, w2), _, h4) =
        >>=-eq-ok (call_verify (campaign_calls s digest signature) shrunk.invoice w1) _ h3 in
      (confirm-IsReproduced c digest signature shrunk minimality w2 f w' h4).0

  picked :
      (matched : Bool) (w : World) (reduced : Result (Finding × World)) (f : Finding) (w' : World)
      → elim matched as (λ _. Result (Option Finding × World)) [
        | false ↦ ok (none, w)
        | true ↦ reduced >>= λ (finding, w''). ok (some finding, w'')
      ]
        ≡ ok (some f, w')
      → (matched ≡ true) × (reduced ≡ ok (f, w'))
  picked false w reduced f w' h = cc h
  picked true w (err e) f w' h = cc h
  picked true w (ok (f', w'')) f w' h = (refl, cc h)

  -- When a candidate yields a finding, the candidate's own run matched the predicate, and the finding
  -- holds as many observations as reproductions were asked for, all the same. Each is of a run of its
  -- own, in the next workspace of the target: the first begins in some world, and each later one in
  -- the world that the run before it left, whose number of target workspaces it had raised by one.
  -- Each is a run of the finding's document, which was valid and matched with the digest and the
  -- signature of the candidate's run. The document is the finding's serialised invoice, and the
  -- independent check called the invoice 1-minimal.
  pub try_candidate-IsConfirmed :
      (fuel : ℕ) (c : Candidate) (w : World) (f : Finding) (w' : World)
      → try_candidate s fuel c w ≡ ok (some f, w')
      → IsConfirmed c w f
  unfolding try_candidate
  try_candidate-IsConfirmed fuel c w f w' h =
      let (((result, evaluation), w1), ran, h1) = >>=-eq-ok (run_and_evaluate s c.xml w) _ h in
      let signature = failure_signature s.bytes_sha256 result evaluation s.predicate in
      let (matched, reduced) =
        picked evaluation.matched w1 (reduce_finding s fuel c result.target_digest signature w1) f
          w' h1 in
      record {
        result = result;
        evaluation = evaluation;
        after = w1;
        ran = ran;
        matched = matched;
        reproduced =
            reduce_finding-IsReproduced fuel c result.target_digest signature w1 f w' reduced;
      }
