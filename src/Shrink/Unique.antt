-- ===== src/Shrink/Unique.antt =====
-- What `one_step_reductions` returns: valid, smaller invoices with new and distinct fingerprints.
use mathlib.Core.Path.{subst}
use rechnungsprobe.Prelude.{
  Text, Bool, true, false, not, ◌&&◌, List, [], ◌∷◌, text_eq, text_eq_iff, contains, ◌≡◌, ◌≢◌, ◌⊎◌,
  inl, inr, refl, All, Bool-cases,
}
use rechnungsprobe.Errors.{
  Result, ok, err, model_error, invalid_operation, value_error, security_error, runtime_error,
  index_error, overflow_error, type_error, key_error, out_of_fuel, >>=-eq-ok, >>-eq-ok,
}
use rechnungsprobe.Model.Invoice.{Invoice, Host}
use rechnungsprobe.Model.Validate.{validate}
use rechnungsprobe.Model.Fingerprint.{semantic_fingerprint}
use rechnungsprobe.Shrink.Operations.{Reduction}
use rechnungsprobe.Shrink.Steps.{
  candidates, candidate_fingerprint, keep_one, keep_unique, one_step_reductions,
}
use rechnungsprobe.Shrink.Smaller.{IsSmaller}
use rechnungsprobe.Shrink.Decrease.{candidates-AreSmaller}

not-and-not : (a b : Bool) → (not a && not b) ≡ true → (a ≡ false) × (b ≡ false)
not-and-not true b h = cc
not-and-not false true h = cc
not-and-not false false h = (refl, refl)

module _ ⦃host : Host⦄ where
  -- A candidate that was kept: its fingerprint, and that it is new.
  record IsKept (original : Text) (seen : List Text) (r : Reduction) (result : Result Text)
      (fingerprint : Text) : Type 0 where
    found : result ≡ ok fingerprint
    changed : text_eq fingerprint original ≡ false
    new : contains fingerprint seen ≡ false

  keep_one-cases :
      (original : Text) (seen : List Text) (r : Reduction)
      (next : List Text → Result (List Reduction)) (result : Result Text) (out : List Reduction)
      → keep_one original seen r next result ≡ ok out
      → (next seen ≡ ok out)
        ⊎ ((fingerprint : Text) × (others : List Reduction) × IsKept original seen r result
              fingerprint
            × (next (fingerprint ∷ seen) ≡ ok others)
            × (r ∷ others ≡ out))
  keep_one-cases original seen r next (err (model_error e)) out h = inl h
  keep_one-cases original seen r next (err invalid_operation) out h = cc
  keep_one-cases original seen r next (err (value_error e)) out h = cc
  keep_one-cases original seen r next (err (security_error e)) out h = cc
  keep_one-cases original seen r next (err (runtime_error e)) out h = cc
  keep_one-cases original seen r next (err index_error) out h = cc
  keep_one-cases original seen r next (err overflow_error) out h = cc
  keep_one-cases original seen r next (err type_error) out h = cc
  keep_one-cases original seen r next (err key_error) out h = cc
  keep_one-cases original seen r next (err out_of_fuel) out h = cc
  keep_one-cases original seen r next (ok f) out h =
      elim (Bool-cases (not (text_eq f original) && not (contains f seen))) [
        | inl fresh ↦
            let (others, h1, h2) = >>=-eq-ok (next (f ∷ seen)) _ (rw fresh at h) in
            let (changed, new) = not-and-not _ _ fresh in
            inr (f, others, record { found = refl; changed = changed; new = new }, h1, cc h2)
        | inr old ↦ inl (rw old at h)
      ]

  -- A kept reduction: a valid invoice whose fingerprint is not the original one and not among those seen.
  pub record IsFresh (original : Text) (seen : List Text) (r : Reduction) : Type 0 where
    pub valid : validate r.invoice ≡ ok tt
    pub fingerprint : Text
    pub printed : semantic_fingerprint r.invoice ≡ ok fingerprint
    pub changed : fingerprint ≢ original
    pub new : contains fingerprint seen ≡ false

  -- The fingerprints of a list of reductions, none of which was seen or stands twice.
  pub data AreFresh (original : Text) : List Text → List Reduction → Type 0 where
    nil : {seen : List Text} → AreFresh original seen []
    cons :
        {seen : List Text} {r : Reduction} {rest : List Reduction} (fresh : IsFresh original seen r)
        → AreFresh original (fresh.fingerprint ∷ seen) rest
        → AreFresh original seen (r ∷ rest)

  to_fresh :
      (original : Text) (seen : List Text) (r : Reduction) (fingerprint : Text)
      → IsKept original seen r (candidate_fingerprint r.invoice) fingerprint
      → (f : IsFresh original seen r) × (f.fingerprint ≡ fingerprint)
  unfolding candidate_fingerprint
  to_fresh original seen r fingerprint k =
      let (valid, printed) = >>-eq-ok (validate r.invoice) _ k.found in
      (
        record {
          valid = valid;
          fingerprint = fingerprint;
          printed = printed;
          changed = λ e. cc (k.changed, (text_eq_iff fingerprint original).1 e);
          new = k.new;
        },
        refl,
      )

  keep_unique-AreFresh :
      (original : Text) (seen : List Text) (rs out : List Reduction)
      → keep_unique original seen rs ≡ ok out
      → AreFresh original seen out
  unfolding keep_unique
  keep_unique-AreFresh original seen [] out h =
      let none_left : [] ≡ out = cc h in subst (λ x. AreFresh original seen x) none_left nil
  keep_unique-AreFresh original seen (r ∷ rest) out h =
      elim (keep_one-cases original seen r (λ s. keep_unique original s rest)
        (candidate_fingerprint r.invoice) out h) [
          | inl passed ↦ keep_unique-AreFresh original seen rest out passed
          | inr (f, others, kept, later, whole) ↦
              let (fresh, same) = to_fresh original seen r f kept in
              subst (λ x. AreFresh original seen x) whole
                (cons fresh (rw same (keep_unique-AreFresh original (f ∷ seen) rest others later)))
        ]

  keep_unique-All {κ} :
      (P : Reduction → Type κ) (original : Text) (seen : List Text) (rs out : List Reduction)
      → All P rs
      → keep_unique original seen rs ≡ ok out
      → All P out
  unfolding keep_unique
  keep_unique-All P original seen [] out all h =
      let none_left : [] ≡ out = cc h in subst (λ x. All P x) none_left tt
  keep_unique-All P original seen (r ∷ rest) out all h =
      elim (keep_one-cases original seen r (λ s. keep_unique original s rest)
        (candidate_fingerprint r.invoice) out h) [
          | inl passed ↦ keep_unique-All P original seen rest out all.1 passed
          | inr (f, others, kept, later, whole) ↦
              subst (λ x. All P x) whole
                (all.0, keep_unique-All P original (f ∷ seen) rest others all.1 later)
        ]

  -- Where `one_step_reductions` returns, the invoice has a fingerprint, and each reduction is a valid
  -- invoice of a smaller size with a fingerprint other than the invoice's and than those of the
  -- reductions before it.
  pub one_step_sound :
      (i : Invoice) (rs : List Reduction)
      → one_step_reductions i ≡ ok rs
      → (original : Text) × (semantic_fingerprint i ≡ ok original)
        × AreFresh original [] rs
        × All (IsSmaller i) rs
  unfolding one_step_reductions
  one_step_sound i rs h =
      let (valid, h1) = >>-eq-ok (validate i) _ h in
      let (all, enumerated, h2) = >>=-eq-ok (candidates i) _ h1 in
      let (original, printed, h3) = >>=-eq-ok (semantic_fingerprint i) _ h2 in
      (
        original,
        printed,
        keep_unique-AreFresh original [] all rs h3,
        keep_unique-All (IsSmaller i) original [] all rs (candidates-AreSmaller i all enumerated)
            h3,
      )
