-- ===== src/Shrink/Terminates.antt =====
-- The shrinking loop ends: each accepted reduction is smaller, so fuel above the invoice's size is
-- never used up.
use mathlib.Core.Path.{subst}
use rechnungsprobe.Prelude.{
  ℕ, zero, suc, ◌<◌, Text, Bool, true, false, ◌&&◌, Option, none, some, List, [], ◌∷◌, ◌≡◌, inl,
  inr, refl, arith, All, Bool-cases,
}
use rechnungsprobe.Errors.{Result, ok, err, Error, ◌>>=◌, >>=-eq-ok}
use rechnungsprobe.Model.Invoice.{Host}
use rechnungsprobe.Shrink.Operations.{Reduction}
use rechnungsprobe.Shrink.Steps.{one_step_reductions}
use rechnungsprobe.Shrink.Loop.{
  Checks, State, Pending, validities, first_accepted, gather, after_round, shrink_round,
  shrink_rounds,
}
use rechnungsprobe.Shrink.Gathering.{gather-IsGathered}
use rechnungsprobe.Shrink.Path.{All-mem}
use rechnungsprobe.Shrink.Size.{invoice_size}
use rechnungsprobe.Shrink.Smaller.{IsSmaller}
use rechnungsprobe.Shrink.Unique.{one_step_sound}

-- What holds of every pending reduction holds of the one found, whatever the validities.
found-All {κ} :
    (P : Reduction × Text → Type κ) (checks : Checks) (pending : Pending) (valid : List Bool)
    (r : Reduction)
    → All P pending
    → first_accepted checks pending valid ≡ some r
    → (document : Text) × P (r, document)
unfolding first_accepted
found-All P checks [] valid r all h = cc
found-All P checks ((q, d) ∷ rest) [] r all h = cc
found-All P checks ((q, d) ∷ rest) (v ∷ valid) r all h =
    elim (Bool-cases (v && checks.preserves_finding d)) [
      | inl accepted ↦
          let same : q ≡ r = cc (rw accepted at h) in (d, subst (λ x. P (x, d)) same all.0)
      | inr refused ↦ found-All P checks rest valid r all.1 (rw refused at h)
    ]

module _ ⦃host : Host⦄ where
  abbrev IsLess : State → State × Bool → Type 0
  IsLess s (t, true) = invoice_size t.current < invoice_size s.current
  IsLess s (t, false) = Unit

  after_round-IsLess :
      (s : State) (c : List Text) (a : ℕ) (o : Option Reduction)
      → ((r : Reduction) → o ≡ some r → IsSmaller s.current r)
      → IsLess s (after_round s c a o)
  after_round-IsLess s c a none h = tt
  after_round-IsLess s c a (some r) h = h r refl

  shrink_round-IsLess :
      (checks : Checks) (s : State) (p : State × Bool) → shrink_round checks s ≡ ok p → IsLess s p
  unfolding shrink_round
  shrink_round-IsLess checks s p h =
      let (rs, enumerated, h1) = >>=-eq-ok (one_step_reductions s.current) _ h in
      let ((c, a, pending), gathered, h2) = >>=-eq-ok (gather s.checked s.attempts rs) _ h1 in
      let (valid, judged, h3) = >>=-eq-ok (validities checks pending) _ h2 in
      let (g, _) = gather-IsGathered s.checked s.attempts rs gathered in
      let (_, _, _, smaller) = one_step_sound s.current rs enumerated in
      let whole : after_round s c a (first_accepted checks pending valid) ≡ p = cc h3 in
      subst (λ q. IsLess s q) whole
        (after_round-IsLess s c a (first_accepted checks pending valid) (λ r e.
          let (d, m) = found-All _ checks pending valid r g.serialized e in
          All-mem (IsSmaller s.current) rs smaller m.0))

  -- Rounds that accept a reduction, one after the other.
  pub data Rounds (checks : Checks) : State → State → Type 0 where
    here : {s : State} → Rounds checks s s
    round :
        {s t u : State}
        → shrink_round checks s ≡ ok (t, true)
        → Rounds checks t u
        → Rounds checks s u

  -- The loop's end: a round that accepts nothing, or a round that raises.
  pub data Ends (checks : Checks) (s : State) : Result State → Type 0 where
    finished :
        {t u : State}
        → Rounds checks s t
        → shrink_round checks t ≡ ok (u, false)
        → Ends checks s (ok u)
    raised :
        {t : State} {e : Error}
        → Rounds checks s t
        → shrink_round checks t ≡ err e
        → Ends checks s (err e)

  one_more :
      (checks : Checks) (s t : State) (result : Result State)
      → shrink_round checks s ≡ ok (t, true)
      → Ends checks t result
      → Ends checks s result
  one_more checks s t result h (finished r e) = finished (round h r) e
  one_more checks s t result h (raised r e) = raised (round h r) e

  abbrev continue : ℕ → Checks → Result (State × Bool) → Result State
  continue fuel checks result = result >>= λ (s', changed). elim changed [
    | true ↦ shrink_rounds fuel checks s'
    | false ↦ ok s'
  ]

  ends_after :
      (fuel : ℕ) (checks : Checks) (s : State) (result : Result (State × Bool))
      → shrink_round checks s ≡ result
      → ((t : State)
          → invoice_size t.current < invoice_size s.current
          → Ends checks t (shrink_rounds fuel checks t))
      → Ends checks s (continue fuel checks result)
  ends_after fuel checks s (err e) h later = raised here h
  ends_after fuel checks s (ok (t, true)) h later =
      one_more checks s t _ h (later t (shrink_round-IsLess checks s (t, true) h))
  ends_after fuel checks s (ok (t, false)) h later = finished here h

  -- With fuel above the size of the invoice the loop ends by a round that accepts nothing or by an
  -- error that a round raises, after rounds that each accept a reduction; the fuel does not run out.
  pub shrink_rounds_end :
      (fuel : ℕ) (checks : Checks) (s : State)
      → invoice_size s.current < fuel
      → Ends checks s (shrink_rounds fuel checks s)
  unfolding shrink_rounds
  shrink_rounds_end zero checks s h = absurd (omega arith)
  shrink_rounds_end (suc fuel) checks s h =
      ends_after fuel checks s (shrink_round checks s) refl
        (λ t less. shrink_rounds_end fuel checks t (omega arith))
