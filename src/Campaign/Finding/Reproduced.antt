-- ===== src/Campaign/Finding/Reproduced.antt =====
-- Every finding that a campaign of src/rechnungsprobe/campaign.py emits was reproduced.
use mathlib.Core.Path.{subst}
use mathlib.Core.List.{append_assoc, append-nil}
use rechnungsprobe.Prelude.{
  ℕ, zero, suc, ◌+◌, Text, text_eq, text_eq_iff, true, ◌&&◌, Option, some, List, [], ◌∷◌, ◌++◌, All,
  All-append, length, length-append, ◌≡◌, ◌∙◌, refl, sym, ap, arith,
}
use rechnungsprobe.Prelude.Eq.{both_iff}
use rechnungsprobe.Errors.{ok, ok-injective, >>=-eq-ok, >>-eq-ok, guard, guard-eq-ok}
use rechnungsprobe.Model.Invoice.{Host, Reader}
use rechnungsprobe.Predicates.{PredicateEvaluation}
use rechnungsprobe.Provenance.{Observation, observation_from_result}
use rechnungsprobe.Target.{TargetResult}
use rechnungsprobe.Campaign.{Settings, World}
use rechnungsprobe.Campaign.Counters.{is_valid-IsUntouched, run_and_evaluate-target_index}
use rechnungsprobe.Campaign.Calls.{run_and_evaluate, is_valid}
use rechnungsprobe.Campaign.Signature.{
  FailureSignature, failure_signature, signature_eq-same, observation_eq-same,
}
use rechnungsprobe.Campaign.Finding.{
  Run, agrees_with_first, check_reproduction, reproduce_once, reproduce,
}

-- All observations are the same.
abbrev pub AreSame : List Observation → Type 0
AreSame [] = Unit
AreSame (first ∷ rest) = All (λ o. o ≡ first) rest

AreSame-append :
    (observations : List Observation) (o : Observation)
    → agrees_with_first o observations ≡ true
    → AreSame observations
    → AreSame (observations ++ o ∷ [])
AreSame-append [] o agrees same = tt
AreSame-append (first ∷ rest) o agrees same =
    All-append (λ x. x ≡ first) rest (o ∷ []) same (observation_eq-same o first agrees, tt)

module _ ⦃host : Host⦄ ⦃reader : Reader⦄ (s : Settings) where
  -- A run of the document that was valid and matched with the digest and the signature, and what was
  -- observed of it
  pub record IsReproduction (digest : Text) (signature : FailureSignature) (document : Text)
      (o : Observation) : Type 0 where
    pub before : World
    pub between : World
    pub after : World
    pub result : TargetResult
    pub evaluation : PredicateEvaluation
    pub valid : is_valid s document before ≡ ok (true, between)
    pub ran : run_and_evaluate s document between ≡ ok ((result, evaluation), after)
    pub numbered : after.target_index ≡ before.target_index + 1
    pub matched : evaluation.matched ≡ true
    pub same_target : result.target_digest ≡ digest
    pub same_signature : failure_signature s.bytes_sha256 result evaluation s.predicate ≡ signature
    pub observed : o ≡ observation_from_result s.bytes_sha256 result

  -- What the checks of a turn mean
  record IsChecked (digest : Text) (signature : FailureSignature) (observations : List Observation)
      (run : Run) (o : Observation) : Type 0 where
    matched : run.1.matched ≡ true
    same_target : run.0.target_digest ≡ digest
    same_signature : failure_signature s.bytes_sha256 run.0 run.1 s.predicate ≡ signature
    observed : o ≡ observation_from_result s.bytes_sha256 run.0
    agrees : agrees_with_first o observations ≡ true

  module _ (digest : Text) (signature : FailureSignature) where
    check_reproduction-IsChecked :
        (observations : List Observation) (run : Run) (o : Observation)
        → check_reproduction s digest signature observations run ≡ ok o
        → IsChecked digest signature observations run o
    unfolding check_reproduction
    check_reproduction-IsChecked observations run o h =
        let seen = observation_from_result s.bytes_sha256 run.0 in
        let (target, h1) = >>-eq-ok (guard (text_eq run.0.target_digest digest) _) _ h in
        let (match_, h2) = >>-eq-ok (guard (run.1.matched && _) _) _ h1 in
        let (agrees, h3) = >>-eq-ok (guard (agrees_with_first seen observations) _) _ h2 in
        let both = (both_iff _ _).0 (guard-eq-ok _ _ match_) in
        let same : seen ≡ o = ok-injective h3 in
        record {
          matched = both.0;
          same_target = (text_eq_iff _ _).0 (guard-eq-ok _ _ target);
          same_signature = signature_eq-same _ _ both.1;
          observed = sym same;
          agrees =
              subst (λ x. agrees_with_first x observations ≡ true) same (guard-eq-ok _ _ agrees);
        }

    module _ (document : Text) where
      once-IsReproduction :
          (observations : List Observation) (w : World) (run : Run) (o : Observation) (w' : World)
          → reproduce_once s digest signature document observations w ≡ ok ((run, o), w')
          → (agrees_with_first o observations ≡ true)
            × (r : IsReproduction digest signature document o) × (r.before ≡ w)
            × (r.after ≡ w')
      unfolding reproduce_once
      once-IsReproduction observations w run o w' h =
          let ((valid, w1), judged, h1) = >>=-eq-ok (is_valid s document w) _ h in
          let (known, h2) = >>-eq-ok (guard valid _) _ h1 in
          let ((run', w2), ran, h3) = >>=-eq-ok (run_and_evaluate s document w1) _ h2 in
          let (seen, checked, h4) =
            >>=-eq-ok (check_reproduction s digest signature observations run') _ h3 in
          let c = check_reproduction-IsChecked observations run' seen checked in
          let same : seen ≡ o = cc h4 in
          (
            subst (λ x. agrees_with_first x observations ≡ true) same c.agrees,
            record {
              before = w;
              between = w1;
              after = w2;
              result = run'.0;
              evaluation = run'.1;
              valid = cc (judged, guard-eq-ok _ _ known);
              ran = ran;
              numbered =
                  run_and_evaluate-target_index s document w1 run' w2 ran
                  ∙ ap (λ n. n + 1) (is_valid-IsUntouched s document w valid w1 judged);
              matched = c.matched;
              same_target = c.same_target;
              same_signature = c.same_signature;
              observed = sym same ∙ c.observed;
            },
            refl,
            cc h4,
          )

      pub reproduce-IsReproduction :
          (n : ℕ) (final : Option Run) (observations : List Observation) (w : World)
          (final' : Option Run) (observations' : List Observation) (w' : World)
          → All (IsReproduction digest signature document) observations
          → AreSame observations
          → reproduce s n digest signature document final observations w
            ≡ ok ((final', observations'), w')
          → All (IsReproduction digest signature document) observations'
            × AreSame observations'
            × (length observations' ≡ length observations + n)
      unfolding reproduce
      reproduce-IsReproduction zero final observations w final' observations' w' all same h =
          let whole : observations ≡ observations' = cc h in
          (
            subst (λ l. All (IsReproduction digest signature document) l) whole all,
            subst (λ l. AreSame l) whole same,
            omega (arith, ap (λ l. length l) whole),
          )
      reproduce-IsReproduction (suc n) final observations w final' observations' w' all same h =
          let (((run, o), w1), once, h1) =
            >>=-eq-ok (reproduce_once s digest signature document observations w) _ h in
          let (agrees, reproduced, _, _) = once-IsReproduction observations w run o w1 once in
          let (all', same', count) =
            reproduce-IsReproduction n (some run) (observations ++ o ∷ []) w1 final' observations'
              w' (All-append _ observations (o ∷ []) all (reproduced, tt))
              (AreSame-append observations o agrees same) h1 in
          (all', same', omega (arith, count, length-append observations (o ∷ [])))

      -- Runs one after the other: each begins in the world that the one before it left.
      abbrev pub AreSuccessive : World → List Observation → Type 0
      AreSuccessive w [] = Unit
      AreSuccessive w (o ∷ rest) =
          (run : IsReproduction digest signature document o) × (run.before ≡ w)
          × AreSuccessive run.after rest

      pub reproduce-AreSuccessive :
          (n : ℕ) (final : Option Run) (observations : List Observation) (w : World)
          (final' : Option Run) (observations' : List Observation) (w' : World)
          → reproduce s n digest signature document final observations w
            ≡ ok ((final', observations'), w')
          → (more : List Observation) × (observations' ≡ observations ++ more)
            × AreSuccessive w more
      unfolding reproduce
      reproduce-AreSuccessive zero final observations w final' observations' w' h =
          ([], cc (h, append-nil observations), tt)
      reproduce-AreSuccessive (suc n) final observations w final' observations' w' h =
          let (((run, o), w1), once, h1) =
            >>=-eq-ok (reproduce_once s digest signature document observations w) _ h in
          let (_, reproduction, starts, ends) = once-IsReproduction observations w run o w1 once in
          let (more, split, later) =
            reproduce-AreSuccessive n (some run) (observations ++ o ∷ []) w1 final' observations' w'
              h1 in
          (
            o ∷ more,
            split ∙ append_assoc observations (o ∷ []) more,
            (reproduction, starts, subst (λ x. AreSuccessive x more) (sym ends) later),
          )
