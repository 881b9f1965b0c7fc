-- ===== src/Shrink/Accepting.antt =====
-- What one round of the shrinking loop collects, and what it accepts. The two passes over the
-- reductions are told apart from the callbacks by one hypothesis: a batch callback, where there is
-- one, gives the answers of `is_valid`.
use mathlib.Core.Path.{subst}
use rechnungsprobe.Prelude.{
  Text, Bool, true, ◌&&◌, none, some, List, [], ◌∷◌, map, length, ◌≡◌, inl, inr, refl, arith, All,
  Bool-cases, ◌∙◌, ◌↔◌, ==_iff,
}
use rechnungsprobe.Errors.{ok, guard, >>-eq-ok}
use rechnungsprobe.Shrink.Operations.{Reduction}
use rechnungsprobe.Shrink.Loop.{Checks, Pending, batch_of, run_batch, validities, first_accepted}

-- The document passes both callbacks.
abbrev pub IsAccepted : Checks → Text → Type 0
IsAccepted checks document =
    (checks.is_valid document ≡ true) × (checks.preserves_finding document ≡ true)

-- The batch callback agrees with the single one.
abbrev pub IsConsistent : Checks → Type 0
IsConsistent checks =
    (documents : List Text)
    → run_batch checks.validate_batch checks.is_valid documents ≡ map checks.is_valid documents

abbrev pub verdicts : Checks → Pending → List Bool
verdicts checks pending = map (λ p. checks.is_valid p.1) pending

map-map_documents :
    (f : Text → Bool) (pending : Pending)
    → map f (map (λ (p : Reduction × Text). p.1) pending) ≡ map (λ p. f p.1) pending
map-map_documents f [] = refl
map-map_documents f (p ∷ rest) = cc (map-map_documents f rest)

pub &&_iff : (a b : Bool) → ((a && b) ≡ true) ↔ ((a ≡ true) × (b ≡ true))
&&_iff a b = (λ h. ground arith, λ h. ground arith)

-- With a consistent batch callback the validities are those of `is_valid`.
pub validities-verdicts :
    (checks : Checks) (pending : Pending) {valid : List Bool}
    → IsConsistent checks
    → validities checks pending ≡ ok valid
    → valid ≡ verdicts checks pending
unfolding validities
validities-verdicts checks pending {valid} agree h =
    let results = run_batch checks.validate_batch checks.is_valid (batch_of pending) in
    let same : results ≡ valid = cc ((>>-eq-ok (guard _ _) (ok results) h).1) in
    cc (same, agree (batch_of pending), map-map_documents checks.is_valid pending)

length-verdicts :
    (checks : Checks) (pending : Pending) → length (verdicts checks pending) ≡ length pending
length-verdicts checks [] = refl
length-verdicts checks (p ∷ rest) = omega (arith, length-verdicts checks rest)

pub verdicts-validities :
    (checks : Checks) (pending : Pending)
    → IsConsistent checks
    → validities checks pending ≡ ok (verdicts checks pending)
unfolding validities
verdicts-validities checks pending agree =
    let same = agree (batch_of pending) ∙ map-map_documents checks.is_valid pending in
    rw (same, (==_iff _ _).1 (length-verdicts checks pending))

-- What holds of every pending reduction holds of the accepted one, and it was accepted.
pub first_accepted-some {κ} :
    (P : Reduction × Text → Type κ) (checks : Checks) (pending : Pending) (r : Reduction)
    → All P pending
    → first_accepted checks pending (verdicts checks pending) ≡ some r
    → (document : Text) × P (r, document) × IsAccepted checks document
unfolding first_accepted
first_accepted-some P checks [] r all h = cc
first_accepted-some P checks ((q, d) ∷ rest) r all h =
    elim (Bool-cases (checks.is_valid d && checks.preserves_finding d)) [
      | inl accepted ↦
          let same : q ≡ r = cc (rw accepted at h) in
          (d, subst (λ x. P (x, d)) same all.0, (&&_iff _ _).0 accepted)
      | inr refused ↦ first_accepted-some P checks rest r all.1 (rw refused at h)
    ]

-- Where nothing is accepted, no pending document passes both callbacks.
pub first_accepted-none :
    (checks : Checks) (pending : Pending)
    → first_accepted checks pending (verdicts checks pending) ≡ none
    → All (λ p. ¬ IsAccepted checks p.1) pending
unfolding first_accepted
first_accepted-none checks [] h = tt
first_accepted-none checks ((q, d) ∷ rest) h =
    elim (Bool-cases (checks.is_valid d && checks.preserves_finding d)) [
      | inl accepted ↦ cc (rw accepted at h)
      | inr refused ↦
          (λ a. cc (refused, (&&_iff _ _).1 a), first_accepted-none checks rest (rw refused at h))
    ]
