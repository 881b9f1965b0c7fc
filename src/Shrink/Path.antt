-- ===== src/Shrink/Path.antt =====
-- Paths of accepted reductions, the documents of earlier rounds, and what one round of the shrinking
-- loop does with them.
use mathlib.Core.List.{Memᴰ}
use mathlib.Core.Path.{subst}
use rechnungsprobe.Prelude.{
  ℕ, Text, Bool, true, false, none, some, List, [], ◌∷◌, ◌++◌, contains, ◌≡◌, ◌⊎◌, inl, inr, refl,
  sym, ◌∙◌, All, Option-cases, ap,
}
use rechnungsprobe.Errors.{ok, >>=-eq-ok}
use rechnungsprobe.Model.Invoice.{Invoice, Host}
use rechnungsprobe.Model.Serialize.{serialize_invoice}
use rechnungsprobe.Shrink.Operations.{Operation, Reduction}
use rechnungsprobe.Shrink.Steps.{one_step_reductions}
use rechnungsprobe.Shrink.Loop.{
  Checks, State, Pending, validities, first_accepted, gather, after_round, shrink_round,
}
use rechnungsprobe.Shrink.Accepting.{
  IsAccepted, IsConsistent, verdicts, validities-verdicts, first_accepted-some, first_accepted-none,
}
use rechnungsprobe.Shrink.Gathering.{IsGathered, gather-IsGathered, gather-checked}

pub All-mem {ℓ κ} : {A : Type ℓ} (P : A → Type κ) (xs : List A) {a : A} → All P xs → Memᴰ a xs → P a
All-mem P [] h m = elim m [ ]
All-mem P (x ∷ xs) h (Memᴰ.head same) = subst P (sym same) h.0
All-mem P (x ∷ xs) h (Memᴰ.tail later) = All-mem P xs h.1 later

module _ ⦃host : Host⦄ where
  -- `document` is that of a declared one-step reduction `r` of `j`.
  pub record IsStep (j : Invoice) (r : Reduction) (document : Text) : Type 0 where
    pub reductions : List Reduction
    pub enumerated : one_step_reductions j ≡ ok reductions
    pub among : Memᴰ r reductions
    pub written : serialize_invoice r.invoice ≡ ok document

  -- A path of one-step reductions whose documents pass both callbacks, with its operations.
  pub data Shrinks (checks : Checks) (i : Invoice) : List Operation → Invoice → Type 0 where
    here : Shrinks checks i [] i
    step :
        {operations : List Operation} {j : Invoice} (r : Reduction) (document : Text)
        → Shrinks checks i operations j
        → IsStep j r document
        → IsAccepted checks document
        → Shrinks checks i (operations ++ r.operation ∷ []) r.invoice

  -- An invoice that the path left behind: one of those that it went on from
  abbrev pub OnPath :
      {checks : Checks} {i j : Invoice} {operations : List Operation}
      → Shrinks checks i operations j
      → Invoice
      → Type 0
  OnPath here k = ⊥
  OnPath (step {j = j} r document path _ _) k = (k ≡ j) ⊎ OnPath path k

  -- The document of a declared reduction of an invoice that the path left behind
  pub record IsReduct {checks : Checks} {i j : Invoice} {operations : List Operation}
      (path : Shrinks checks i operations j) (document : Text) : Type 0 where
    pub from : Invoice
    pub reduction : Reduction
    pub earlier : OnPath path from
    pub reduct : IsStep from reduction document

  abbrev pub IsEarlier :
      {checks : Checks} {i j : Invoice} {operations : List Operation}
      → Shrinks checks i operations j
      → Text
      → Type 0
  IsEarlier {i = i} path document = (serialize_invoice i ≡ ok document) ⊎ IsReduct path document

  pub record IsReached (checks : Checks) (i : Invoice) (s : State) : Type 0 where
    pub path : Shrinks checks i s.accepted s.current
    pub document : Text
    pub written : serialize_invoice s.current ≡ ok document
    pub accepted : IsAccepted checks document
    pub origin : (x : Text) → contains x s.checked ≡ true → IsEarlier path x

  -- Every declared reduction of the last invoice is rejected, or its document is an earlier one.
  abbrev pub IsExhausted :
      {checks : Checks} {i j : Invoice} {operations : List Operation}
      → Shrinks checks i operations j
      → Type 0
  IsExhausted {checks = checks} {j = j} path =
      (r : Reduction) (document : Text)
      → IsStep j r document
      → (¬ IsAccepted checks document) ⊎ IsEarlier path document

  weaken :
      {checks : Checks} {i j : Invoice} {operations : List Operation}
      (path : Shrinks checks i operations j) (r : Reduction) (document : Text)
      (taken : IsStep j r document) (good : IsAccepted checks document) (x : Text)
      → IsEarlier path x
      → IsEarlier (step r document path taken good) x
  weaken path r document taken good x (inl first) = inl first
  weaken path r document taken good x (inr e) = inr (record {
    from = e.from;
    reduction = e.reduction;
    earlier = inr e.earlier;
    reduct = e.reduct;
  })

  -- The end of the loop: an accepted invoice at the end of a path, and nothing left to try.
  pub record IsDone (checks : Checks) (i : Invoice) (s : State) : Type 0 where
    pub path : Shrinks checks i s.accepted s.current
    pub document : Text
    pub written : serialize_invoice s.current ≡ ok document
    pub accepted : IsAccepted checks document
    pub exhausted : IsExhausted path

  abbrev pub Outcome : Checks → Invoice → State × Bool → Type 0
  Outcome checks i (s, true) = IsReached checks i s
  Outcome checks i (s, false) = IsDone checks i s

  module _ (checks : Checks) (i : Invoice) (s : State) (reached : IsReached checks i s) where
    module _ {rs : List Reduction} (enumerated : one_step_reductions s.current ≡ ok rs) where
      to_step :
          (r : Reduction) (d : Text)
          → Memᴰ r rs × (serialize_invoice r.invoice ≡ ok d)
          → IsStep s.current r d
      to_step r d h = record {
        reductions = rs;
        enumerated = enumerated;
        among = h.0;
        written = h.1;
      }

      pending-IsStep :
          (pending : Pending) (r : Reduction) (d : Text)
          → IsGathered s.checked rs pending
          → Memᴰ (r, d) pending
          → IsStep s.current r d
      pending-IsStep pending r d g m = to_step r d (All-mem _ pending g.serialized m)

      accepted-Outcome :
          (c : List Text) (a : ℕ) (pending : Pending) (r : Reduction)
          → gather s.checked s.attempts rs ≡ ok (c, a, pending)
          → first_accepted checks pending (verdicts checks pending) ≡ some r
          → Outcome checks i (after_round s c a (some r))
      accepted-Outcome c a pending r gathered found =
          let (g, _) = gather-IsGathered s.checked s.attempts rs gathered in
          let (d, here_now, good) = first_accepted-some _ checks pending r g.serialized found in
          record {
            path = step r d reached.path (to_step r d here_now) good;
            document = d;
            written = here_now.1;
            accepted = good;
            origin = λ x known.
                origin g d here_now good x
                  (gather-checked s.checked s.attempts rs gathered x known);
          }
        where
          origin :
              IsGathered s.checked rs pending
              → (d : Text) (here_now : Memᴰ r rs × (serialize_invoice r.invoice ≡ ok d))
                (good : IsAccepted checks d) (x : Text)
              → (contains x s.checked ≡ true) ⊎ ((q : Reduction) × Memᴰ (q, x) pending)
              → IsEarlier (step r d reached.path (to_step r d here_now) good) x
          origin g d here_now good x (inl old) =
              weaken reached.path r d (to_step r d here_now) good x (reached.origin x old)
          origin g d here_now good x (inr (q, m)) = inr (record {
            from = s.current;
            reduction = q;
            earlier = inl refl;
            reduct = pending-IsStep pending q x g m;
          })

      rejected-Outcome :
          (c : List Text) (a : ℕ) (pending : Pending)
          → gather s.checked s.attempts rs ≡ ok (c, a, pending)
          → first_accepted checks pending (verdicts checks pending) ≡ none
          → Outcome checks i (after_round s c a none)
      rejected-Outcome c a pending gathered found =
          let (g, _) = gather-IsGathered s.checked s.attempts rs gathered in
          record {
            path = reached.path;
            document = reached.document;
            written = reached.written;
            accepted = reached.accepted;
            exhausted = λ r d h. exhausted g r d h;
          }
        where
          tried :
              (x : Text)
              → (contains x s.checked ≡ true) ⊎ ((q : Reduction) × Memᴰ (q, x) pending)
              → (¬ IsAccepted checks x) ⊎ IsEarlier reached.path x
          tried x (inl old) = inr (reached.origin x old)
          tried x (inr (q, m)) =
              inl (All-mem _ pending (first_accepted-none checks pending found) m)

          exhausted :
              IsGathered s.checked rs pending
              → (r : Reduction) (d : Text) → IsStep s.current r d
              → (¬ IsAccepted checks d) ⊎ IsEarlier reached.path d
          exhausted g r d h =
              let same : h.reductions ≡ rs = cc (h.enumerated, enumerated) in
              let (x, written, known) = g.covered r (subst (λ l. Memᴰ r l) same h.among) in
              let equal : x ≡ d = cc (written, h.written) in
              subst (λ y. (¬ IsAccepted checks y) ⊎ IsEarlier reached.path y) equal (tried x known)

    pub round-Outcome :
        (p : State × Bool) → IsConsistent checks → shrink_round checks s ≡ ok p → Outcome checks i p
    unfolding shrink_round
    round-Outcome p agree h =
        let (rs, enumerated, h1) = >>=-eq-ok (one_step_reductions s.current) _ h in
        let ((c, a, pending), gathered, h2) = >>=-eq-ok (gather s.checked s.attempts rs) _ h1 in
        let (valid, judged, h3) = >>=-eq-ok (validities checks pending) _ h2 in
        let same = validities-verdicts checks pending agree judged in
        let result : after_round s c a (first_accepted checks pending (verdicts checks pending))
            ≡ p =
          cc (h3, ap (λ v. after_round s c a (first_accepted checks pending v)) same) in
        elim (Option-cases (first_accepted checks pending (verdicts checks pending))) [
          | inl nothing ↦
              subst (λ q. Outcome checks i q) (ap (λ o. after_round s c a o) (sym nothing) ∙ result)
                (rejected-Outcome enumerated c a pending gathered nothing)
          | inr (r, found) ↦
              subst (λ q. Outcome checks i q) (ap (λ o. after_round s c a o) (sym found) ∙ result)
                (accepted-Outcome enumerated c a pending r gathered found)
        ]
