-- ===== src/Shrink/Verify.antt =====
-- `verify_one_minimal` decides 1-minimality, and where the shrinking loop leaves a candidate untried
-- it says so.
use mathlib.Core.List.{Memᴰ}
use mathlib.Core.Path.{subst}
use rechnungsprobe.Prelude.{
  ℕ, ◌+◌, Text, true, ◌&&◌, List, [], ◌∷◌, ◌≡◌, ◌↔◌, ◌∙◌, inl, inr, ap, refl, sym, All, All-imp,
  Bool-cases,
}
use rechnungsprobe.Errors.{ok, >>=-eq-ok}
use rechnungsprobe.Model.Invoice.{Invoice, Host}
use rechnungsprobe.Model.Serialize.{serialize_invoice}
use rechnungsprobe.Shrink.Operations.{Reduction}
use rechnungsprobe.Shrink.Steps.{one_step_reductions}
use rechnungsprobe.Shrink.Loop.{
  Checks, Pending, MinimalityResult, validities, check_initial, serialize_all, search_reducing,
  verify_one_minimal,
}
use rechnungsprobe.Shrink.Accepting.{
  IsAccepted, IsConsistent, verdicts, validities-verdicts, &&_iff,
}
use rechnungsprobe.Shrink.Path.{IsStep, All-mem}

module _ ⦃host : Host⦄ where
  -- No declared reduction of the invoice has a document that passes both callbacks.
  abbrev pub IsOneMinimal : Checks → Invoice → Type 0
  IsOneMinimal checks i =
      (r : Reduction) (document : Text) → IsStep i r document → ¬ IsAccepted checks document

  abbrev AreWritten : List Reduction → Pending → Type 0
  AreWritten rs pending = All (λ p. Memᴰ p.0 rs × (serialize_invoice p.0.invoice ≡ ok p.1)) pending

  serialize_all_written :
      (rs : List Reduction) (pending : Pending)
      → serialize_all rs ≡ ok pending
      → AreWritten rs pending
  unfolding serialize_all
  serialize_all_written [] pending h =
      let whole : [] ≡ pending = cc h in subst (λ p. AreWritten [] p) whole tt
  serialize_all_written (r ∷ rest) pending h =
      let (d, written, h1) = >>=-eq-ok (serialize_invoice r.invoice) _ h in
      let (others, later, h2) = >>=-eq-ok (serialize_all rest) _ h1 in
      let whole : (r, d) ∷ others ≡ pending = cc h2 in
      subst (λ p. AreWritten (r ∷ rest) p) whole
        (
          (Memᴰ.head refl, written),
          All-imp _ _ (λ p k. (Memᴰ.tail k.0, k.1)) others
              (serialize_all_written rest others later),
        )

  serialize_all_complete :
      (rs : List Reduction) (pending : Pending) (r : Reduction) (document : Text)
      → serialize_all rs ≡ ok pending
      → Memᴰ r rs
      → serialize_invoice r.invoice ≡ ok document
      → (q : Reduction) × Memᴰ (q, document) pending
  unfolding serialize_all
  serialize_all_complete [] pending r document h m written = elim m [ ]
  serialize_all_complete (q ∷ rest) pending r document h m written =
      let (d, first, h1) = >>=-eq-ok (serialize_invoice q.invoice) _ h in
      let (others, later, h2) = >>=-eq-ok (serialize_all rest) _ h1 in
      let whole : (q, d) ∷ others ≡ pending = cc h2 in
      subst (λ p. (x : Reduction) × Memᴰ (x, document) p) whole
        (go d first others (λ k. serialize_all_complete rest others r document later k written) m)
    where
      go :
          (d : Text)
          → serialize_invoice q.invoice ≡ ok d
          → (others : Pending) → (Memᴰ r rest → (x : Reduction) × Memᴰ (x, document) others)
          → Memᴰ r (q ∷ rest)
          → (x : Reduction) × Memᴰ (x, document) ((q, d) ∷ others)
      go d first others later (Memᴰ.head same) =
          let equal : d ≡ document =
            cc (first, written, ap (λ (x : Reduction). serialize_invoice x.invoice) same) in
          (q, rw equal (Memᴰ.head refl))
      go d first others later (Memᴰ.tail k) = let (x, n) = later k in (x, Memᴰ.tail n)

  minimal→rejected :
      (checks : Checks) (attempts : ℕ) (pending : Pending)
      → (search_reducing checks attempts pending (verdicts checks pending)).minimal ≡ true
      → All (λ p. ¬ IsAccepted checks p.1) pending
  unfolding search_reducing
  minimal→rejected checks attempts [] h = tt
  minimal→rejected checks attempts ((r, d) ∷ rest) h =
      elim (Bool-cases (checks.is_valid d && checks.preserves_finding d)) [
        | inl accepted ↦ cc (rw accepted at h)
        | inr refused ↦ (
          λ a. cc (refused, (&&_iff _ _).1 a),
          minimal→rejected checks (attempts + 1) rest (rw refused at h),
        )
      ]

  rejected→minimal :
      (checks : Checks) (attempts : ℕ) (pending : Pending)
      → All (λ p. ¬ IsAccepted checks p.1) pending
      → (search_reducing checks attempts pending (verdicts checks pending)).minimal ≡ true
  unfolding search_reducing
  rejected→minimal checks attempts [] h = refl
  rejected→minimal checks attempts ((r, d) ∷ rest) h =
      elim (Bool-cases (checks.is_valid d && checks.preserves_finding d)) [
        | inl accepted ↦ absurd (h.0 ((&&_iff _ _).0 accepted))
        | inr refused ↦ rw refused (rejected→minimal checks (attempts + 1) rest h.1)
      ]

  module _ (checks : Checks) (i : Invoice) (rs : List Reduction) (pending : Pending) where
    module _ (enumerated : one_step_reductions i ≡ ok rs)
        (written : serialize_all rs ≡ ok pending) where
      rejected→one_minimal : All (λ p. ¬ IsAccepted checks p.1) pending → IsOneMinimal checks i
      rejected→one_minimal rejected r d h =
          let same : h.reductions ≡ rs = cc (h.enumerated, enumerated) in
          let (q, m) =
            serialize_all_complete rs pending r d written (subst (λ l. Memᴰ r l) same h.among)
              h.written in
          All-mem _ pending rejected m

      one_minimal→rejected : IsOneMinimal checks i → All (λ p. ¬ IsAccepted checks p.1) pending
      one_minimal→rejected minimal =
          All-imp _ _
            (λ p k.
              minimal p.0 p.1
                (record { reductions = rs; enumerated = enumerated; among = k.0; written = k.1 }))
            pending (serialize_all_written rs pending written)

  -- Where `verify_one_minimal` returns, and the batch callback agrees with `is_valid`, it says
  -- "minimal" exactly if no declared one-step reduction of the invoice has a document that passes
  -- both callbacks.
  pub verify_exact :
      (checks : Checks) (i : Invoice) (result : MinimalityResult)
      → IsConsistent checks
      → verify_one_minimal checks i ≡ ok result
      → (result.minimal ≡ true) ↔ IsOneMinimal checks i
  unfolding verify_one_minimal
  verify_exact checks i result agree h =
      let (d, _, h1) = >>=-eq-ok (check_initial checks i) _ h in
      let (rs, enumerated, h2) = >>=-eq-ok (one_step_reductions i) _ h1 in
      let (pending, written, h3) = >>=-eq-ok (serialize_all rs) _ h2 in
      let (valid, judged, h4) = >>=-eq-ok (validities checks pending) _ h3 in
      let same = validities-verdicts checks pending agree judged in
      let found : search_reducing checks 1 pending (verdicts checks pending) ≡ result =
        cc (h4, ap (λ v. search_reducing checks 1 pending v) same) in
      let minimal_eq = ap (λ (x : MinimalityResult). x.minimal) found in
      (
        λ minimal.
            rejected→one_minimal checks i rs pending enumerated written
              (minimal→rejected checks 1 pending (minimal_eq ∙ minimal)),
        λ minimal.
            sym minimal_eq
            ∙ rejected→minimal checks 1 pending
                (one_minimal→rejected checks i rs pending enumerated written minimal),
      )
