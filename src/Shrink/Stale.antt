-- ===== src/Shrink/Stale.antt =====
-- A candidate that stands behind the accepted one in a round is in `checked` without having been
-- run, and a later round passes it over.
use mathlib.Core.List.{Memᴰ}
use mathlib.Core.Path.{subst}
use rechnungsprobe.Prelude.{
  ℕ, suc, ◌+◌, Text, Bool, true, false, ◌&&◌, none, List, [], ◌∷◌, ◌≡◌, inl, inr, ap, refl, sym,
  All, All-imp, Bool-cases, contains, text_eq,
}
use rechnungsprobe.Errors.{ok, >>=-eq-ok}
use rechnungsprobe.Model.Invoice.{Invoice, Host}
use rechnungsprobe.Model.Serialize.{serialize_invoice}
use rechnungsprobe.Model.Fingerprint.{semantic_fingerprint}
use rechnungsprobe.Shrink.Operations.{Reduction}
use rechnungsprobe.Shrink.Steps.{one_step_reductions}
use rechnungsprobe.Shrink.Loop.{
  Checks, State, ShrinkResult, Pending, MinimalityResult, validities, first_accepted, gather,
  after_round, check_initial, shrink_round, shrink_rounds, shrink_invoice, verify_one_minimal,
}
use rechnungsprobe.Shrink.Accepting.{
  IsAccepted, IsConsistent, verdicts, validities-verdicts, &&_iff,
}
use rechnungsprobe.Shrink.Gathering.{gather-IsGathered}
use rechnungsprobe.Shrink.Path.{IsStep}
use rechnungsprobe.Shrink.Verify.{verify_exact}

not-contains-cons :
    (x d : Text) (seen : List Text) → contains x (d ∷ seen) ≡ false → contains x seen ≡ false
unfolding contains
not-contains-cons x d seen h = elim (Bool-cases (text_eq d x)) [
  | inl same ↦ cc (rw same at h)
  | inr other ↦ rw other at h
]

first_accepted-rejected :
    (checks : Checks) (pending : Pending)
    → All (λ p. ¬ IsAccepted checks p.1) pending
    → first_accepted checks pending (verdicts checks pending) ≡ none
unfolding first_accepted
first_accepted-rejected checks [] h = refl
first_accepted-rejected checks ((q, d) ∷ rest) h =
    elim (Bool-cases (checks.is_valid d && checks.preserves_finding d)) [
      | inl accepted ↦ absurd (h.0 ((&&_iff _ _).0 accepted))
      | inr refused ↦ rw refused (first_accepted-rejected checks rest h.1)
    ]

-- No pending document was checked before.
abbrev AreNew : List Text → Pending → Type 0
AreNew seen pending = All (λ p. contains p.1 seen ≡ false) pending

AreNew-cons :
    (d : Text) (seen : List Text) (r : Reduction) (later : Pending)
    → contains d seen ≡ false
    → AreNew (d ∷ seen) later
    → AreNew seen ((r, d) ∷ later)
AreNew-cons d seen r later new h = (
  new,
  All-imp _ (λ p. contains p.1 seen ≡ false) (λ p k. not-contains-cons p.1 d seen k) later h,
)

not_minimal : (b : Bool) → (b ≡ true → ⊥) → b ≡ false
not_minimal true h = absurd (h refl)
not_minimal false h = refl

module _ ⦃host : Host⦄ where
  -- Only documents that were not checked before are pending.
  gather-new :
      (seen : List Text) (attempts : ℕ) (rs : List Reduction) {c : List Text} {a : ℕ}
      (pending : Pending)
      → gather seen attempts rs ≡ ok (c, a, pending)
      → AreNew seen pending
  unfolding gather
  gather-new seen attempts [] pending h =
      let whole : [] ≡ pending = cc h in subst (λ p. AreNew seen p) whole tt
  gather-new seen attempts (r ∷ rest) pending h =
      let (d, written, h') = >>=-eq-ok (serialize_invoice r.invoice) _ h in
      elim (Bool-cases (contains d seen)) [
        | inl old ↦ gather-new seen attempts rest pending (rw old at h')
        | inr new ↦
            let ((c', a', later), h1, h2) =
              >>=-eq-ok (gather (d ∷ seen) (attempts + 1) rest) _ (rw new at h') in
            let whole : (r, d) ∷ later ≡ pending = cc h2 in
            subst (λ p. AreNew seen p) whole
              (AreNew-cons d seen r later new (gather-new (d ∷ seen) (attempts + 1) rest later h1))
      ]

  -- Every reduction of the state's invoice that is not checked yet is rejected.
  abbrev pub IsSettled : Checks → State → Type 0
  IsSettled checks s =
      (r : Reduction) (document : Text)
      → IsStep s.current r document
      → contains document s.checked ≡ false
      → ¬ IsAccepted checks document

  settled_round :
      (checks : Checks) (s t : State) (changed : Bool)
      → IsConsistent checks
      → IsSettled checks s
      → shrink_round checks s ≡ ok (t, changed)
      → (changed ≡ false) × (t.current ≡ s.current)
  unfolding shrink_round
  settled_round checks s t changed agree settled h =
      let (rs, enumerated, h1) = >>=-eq-ok (one_step_reductions s.current) _ h in
      let ((c, a, pending), gathered, h2) = >>=-eq-ok (gather s.checked s.attempts rs) _ h1 in
      let (valid, judged, h3) = >>=-eq-ok (validities checks pending) _ h2 in
      let same = validities-verdicts checks pending agree judged in
      let (g, _) = gather-IsGathered s.checked s.attempts rs gathered in
      let nothing = first_accepted-rejected checks pending (
        rejected rs enumerated pending g.serialized
          (gather-new s.checked s.attempts rs pending gathered)) in
      stopped c a (
        cc (
          h3,
          ap (λ v. after_round s c a (first_accepted checks pending v)) same,
          ap (λ o. after_round s c a o) nothing,
        ))
    where
      rejected :
          (rs : List Reduction)
          → one_step_reductions s.current ≡ ok rs
          → (pending : Pending)
          → All (λ p. Memᴰ p.0 rs × (serialize_invoice p.0.invoice ≡ ok p.1)) pending
          → All (λ p. contains p.1 s.checked ≡ false) pending
          → All (λ p. ¬ IsAccepted checks p.1) pending
      rejected rs enumerated [] ks ns = tt
      rejected rs enumerated ((r, d) ∷ rest) ks ns = (
        settled r d
            (record { reductions = rs; enumerated = enumerated; among = ks.0.0; written = ks.0.1 })
            ns.0,
        rejected rs enumerated rest ks.1 ns.1,
      )

      stopped :
          (c : List Text) (a : ℕ)
          → after_round s c a none ≡ (t, changed)
          → (changed ≡ false) × (t.current ≡ s.current)
      stopped c a e =
          (sym (ap (λ (p : State × Bool). p.1) e), sym (ap (λ (p : State × Bool). p.0.current) e))

  -- Let the first round accept a reduction, and let a reduction of the accepted invoice have a
  -- document that passes both callbacks and stands in `checked` already, while all others that do
  -- not stand there are rejected. Then the loop stops at the accepted invoice, `shrink_invoice`
  -- returns it, and `verify_one_minimal` finds that it is not 1-minimal.
  pub stale_candidate :
      (fuel : ℕ) (checks : Checks) (i : Invoice) (first : Text) (s t : State) (changed : Bool)
      (fingerprint : Text) (verified : MinimalityResult) (r : Reduction) (document : Text)
      → IsConsistent checks
      → check_initial checks i ≡ ok first
      → shrink_round checks
          (record { current = i; attempts = 1; accepted = []; checked = first ∷ [] })
        ≡ ok (s, true)
      → IsStep s.current r document
      → IsAccepted checks document
      → contains document s.checked ≡ true
      → IsSettled checks s
      → shrink_round checks s ≡ ok (t, changed)
      → semantic_fingerprint t.current ≡ ok fingerprint
      → verify_one_minimal checks s.current ≡ ok verified
      → (result : ShrinkResult) × (shrink_invoice (suc (suc fuel)) checks i ≡ ok result)
        × (result.invoice ≡ s.current)
        × (verified.minimal ≡ false)
  unfolding shrink_invoice shrink_rounds
  stale_candidate fuel checks i first s t changed fingerprint verified r document agree started
        round_one reduct passes known settled round_two printed checked_again =
      let (stops, same) = settled_round checks s t changed agree settled round_two in
      (
        record {
          invoice = t.current;
          attempts = t.attempts;
          accepted = t.accepted;
          fingerprint = fingerprint;
        },
        rw (started, round_one, round_two, stops, printed),
        same,
        not_minimal verified.minimal λ minimal.
            (verify_exact checks s.current verified agree checked_again).0 minimal r document reduct
              passes,
      )
