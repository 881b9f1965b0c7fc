-- ===== src/Shrink/Sound.antt =====
-- What `shrink_invoice` returns: an invoice at the end of a path of accepted reductions, from which
-- every reduction is rejected or repeats a document of an earlier round.
use mathlib.Core.Path.{subst}
use rechnungsprobe.Prelude.{
  ℕ, suc, zero, Text, Bool, true, false, List, [], ◌∷◌, contains, ◌≡◌, inl, inr,
}
use rechnungsprobe.Errors.{Result, ok, guard, ◌>>=◌, >>=-eq-ok, >>-eq-ok, guard-eq-ok}
use rechnungsprobe.Model.Invoice.{Invoice, Host}
use rechnungsprobe.Model.Serialize.{serialize_invoice}
use rechnungsprobe.Model.Fingerprint.{semantic_fingerprint}
use rechnungsprobe.Shrink.Operations.{Operation}
use rechnungsprobe.Shrink.Loop.{
  Checks, State, ShrinkResult, shrink_round, shrink_rounds, check_initial, shrink_invoice,
}
use rechnungsprobe.Shrink.Accepting.{IsAccepted, IsConsistent}
use rechnungsprobe.Shrink.Gathering.{contains-cons}
use rechnungsprobe.Shrink.Path.{
  Shrinks, here, IsReached, IsDone, IsExhausted, Outcome, round-Outcome,
}

contains-one : (x document : Text) → contains x (document ∷ []) ≡ true → document ≡ x
unfolding contains
contains-one x document h = elim (contains-cons x document [] h) [
  | inl same ↦ same
  | inr none' ↦ cc none'
]

module _ ⦃host : Host⦄ where
  module _ (checks : Checks) (i : Invoice) (agree : IsConsistent checks) where
    rounds-IsDone :
        (fuel : ℕ) (s : State) {t : State}
        → IsReached checks i s
        → shrink_rounds fuel checks s ≡ ok t
        → IsDone checks i t
    unfolding shrink_rounds
    rounds-IsDone zero s reached h = cc
    rounds-IsDone (suc fuel) s {t} reached h =
        let ((u, changed), once, h1) = >>=-eq-ok (shrink_round checks s) _ h in
        go (λ v r e. rounds-IsDone fuel v r e) u changed
          (round-Outcome checks i s reached (u, changed) agree once) h1
      where
        go :
            ((v : State)
              → IsReached checks i v
              → shrink_rounds fuel checks v ≡ ok t
              → IsDone checks i t)
            → (u : State) (changed : Bool) → Outcome checks i (u, changed)
            → (elim changed as (λ _. Result State) [
              | true ↦ shrink_rounds fuel checks u
              | false ↦ ok u
            ])
              ≡ ok t
            → IsDone checks i t
        go later u true reached' h' = later u reached' h'
        go later u false done h' = subst (λ x. IsDone checks i x) (cc h') done

    initial-IsReached :
        (document : Text)
        → check_initial checks i ≡ ok document
        → IsReached checks i
            (record { current = i; attempts = 1; accepted = []; checked = document ∷ [] })
    unfolding check_initial
    initial-IsReached document h =
        let (d, written, h1) = >>=-eq-ok (serialize_invoice i) _ h in
        let (valid, h2) = >>-eq-ok (guard (checks.is_valid d) _) _ h1 in
        let (kept, h3) = >>-eq-ok (guard (checks.preserves_finding d) _) _ h2 in
        let same : d ≡ document = cc h3 in
        record {
          path = here;
          document = d;
          written = written;
          accepted = (guard-eq-ok _ _ valid, guard-eq-ok _ _ kept);
          origin = λ x known.
              let equal : document ≡ x = contains-one x document known in
              inl (cc (written, same, equal));
        }

  -- An accepted invoice at the end of a path, whose declared reductions are rejected or repeat an
  -- earlier document.
  abbrev pub IsShrunk : Checks → Invoice → List Operation → Invoice → Type 0
  IsShrunk checks i operations j =
      (path : Shrinks checks i operations j) × ((document : Text) × (serialize_invoice j
          ≡ ok document)
        × IsAccepted checks document)
      × IsExhausted path

  finished :
      (checks : Checks) (i : Invoice) (t : State) (result : ShrinkResult)
      → IsDone checks i t
      → (semantic_fingerprint t.current >>= λ f. ok (record {
        invoice = t.current;
        attempts = t.attempts;
        accepted = t.accepted;
        fingerprint = f;
      }))
        ≡ ok result
      → IsShrunk checks i result.accepted result.invoice
  finished checks i t result done h =
      let (f, _, h1) = >>=-eq-ok (semantic_fingerprint t.current) _ h in
      let made : ShrinkResult = record {
        invoice = t.current;
        attempts = t.attempts;
        accepted = t.accepted;
        fingerprint = f;
      } in
      let same : made ≡ result = cc h1 in
      subst (λ r. IsShrunk checks i r.accepted r.invoice) same
        (done.path, (done.document, done.written, done.accepted), done.exhausted)

  -- Where `shrink_invoice` returns, and the batch callback agrees with `is_valid`, its invoice lies
  -- at the end of a path of declared one-step reductions from the initial invoice, named by
  -- `accepted`, each with a document that passes both callbacks; the returned invoice's own document
  -- passes both; and every declared reduction of the returned invoice fails one of the callbacks, or
  -- has the document of the initial invoice or of a declared reduction of an invoice that this path
  -- went on from. A reduction of the second sort may pass both callbacks: the loop does not try a
  -- document again, so the returned invoice need not be 1-minimal.
  pub shrink_invoice_sound :
      (fuel : ℕ) (checks : Checks) (i : Invoice) (result : ShrinkResult)
      → IsConsistent checks
      → shrink_invoice fuel checks i ≡ ok result
      → IsShrunk checks i result.accepted result.invoice
  unfolding shrink_invoice
  shrink_invoice_sound fuel checks i result agree h =
      let (d, first, h1) = >>=-eq-ok (check_initial checks i) _ h in
      let (t, looped, h2) = >>=-eq-ok (shrink_rounds fuel checks _) _ h1 in
      finished checks i t result
        (rounds-IsDone checks i agree fuel _ (initial-IsReached checks i agree d first) looped) h2
