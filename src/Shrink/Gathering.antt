-- ===== src/Shrink/Gathering.antt =====
-- What the first loop of a shrinking round gathers: the new documents, and only those.
use mathlib.Core.List.{Memᴰ}
use mathlib.Core.Path.{subst}
use rechnungsprobe.Prelude.{
  ℕ, ◌+◌, Text, true, List, [], ◌∷◌, length, contains, text_eq_iff, ◌≡◌, ◌⊎◌, inl, inr, refl, arith,
  All, All-imp, Bool-cases, text_eq,
}
use rechnungsprobe.Errors.{ok, >>=-eq-ok}
use rechnungsprobe.Model.Invoice.{Host}
use rechnungsprobe.Model.Serialize.{serialize_invoice}
use rechnungsprobe.Shrink.Operations.{Reduction}
use rechnungsprobe.Shrink.Loop.{Pending, gather}

-- The pending reductions come with their documents, and each reduction's document is either
-- pending or was checked before.
pub record IsGathered ⦃host : Host⦄ (seen : List Text) (reductions : List Reduction)
    (pending : Pending) : Type 0 where
  pub serialized : All (λ p. Memᴰ p.0 reductions × (serialize_invoice p.0.invoice ≡ ok p.1)) pending
  pub covered :
      (r : Reduction)
      → Memᴰ r reductions
      → (document : Text) × (serialize_invoice r.invoice ≡ ok document)
        × ((contains document seen ≡ true) ⊎ ((q : Reduction) × Memᴰ (q, document) pending))

pub contains-cons :
    (x d : Text) (seen : List Text)
    → contains x (d ∷ seen) ≡ true
    → (d ≡ x) ⊎ (contains x seen ≡ true)
unfolding contains
contains-cons x d seen h = elim (Bool-cases (text_eq d x)) [
  | inl same ↦ inl ((text_eq_iff d x).0 same)
  | inr other ↦ inr (rw other at h)
]

place_added :
    (seen : List Text) (r : Reduction) (pending : Pending) (d x : Text)
    → (contains x (d ∷ seen) ≡ true) ⊎ ((p : Reduction) × Memᴰ (p, x) pending)
    → (contains x seen ≡ true) ⊎ ((p : Reduction) × Memᴰ (p, x) ((r, d) ∷ pending))
place_added seen r pending d x (inl known) = elim (contains-cons x d seen known) [
  | inl same ↦ inr (r, Memᴰ.head (cc same))
  | inr before ↦ inl before
]
place_added seen r pending d x (inr (p, m)) = inr (p, Memᴰ.tail m)

module _ ⦃host : Host⦄ where
  gather_passed :
      (seen : List Text) (r : Reduction) (rest : List Reduction) (pending : Pending) (d : Text)
      → serialize_invoice r.invoice ≡ ok d
      → contains d seen ≡ true
      → IsGathered seen rest pending
      → IsGathered seen (r ∷ rest) pending
  gather_passed seen r rest pending d document known g = record {
    serialized = All-imp _ _ (λ p h. (Memᴰ.tail h.0, h.1)) pending g.serialized;
    covered = covered;
  }
    where
      covered :
          (q : Reduction)
          → Memᴰ q (r ∷ rest)
          → (x : Text) × (serialize_invoice q.invoice ≡ ok x)
            × ((contains x seen ≡ true) ⊎ ((p : Reduction) × Memᴰ (p, x) pending))
      covered q (Memᴰ.head same) = (d, rw same document, inl known)
      covered q (Memᴰ.tail later) = g.covered q later

  gather_added :
      (seen : List Text) (r : Reduction) (rest : List Reduction) (pending : Pending) (d : Text)
      → serialize_invoice r.invoice ≡ ok d
      → IsGathered (d ∷ seen) rest pending
      → IsGathered seen (r ∷ rest) ((r, d) ∷ pending)
  gather_added seen r rest pending d document g = record {
    serialized = (
      (Memᴰ.head refl, document),
      All-imp _ _ (λ p h. (Memᴰ.tail h.0, h.1)) pending g.serialized,
    );
    covered = covered;
  }
    where
      covered :
          (q : Reduction)
          → Memᴰ q (r ∷ rest)
          → (x : Text) × (serialize_invoice q.invoice ≡ ok x)
            × ((contains x seen ≡ true) ⊎ ((p : Reduction) × Memᴰ (p, x) ((r, d) ∷ pending)))
      covered q (Memᴰ.head same) = (d, rw same document, inr (r, Memᴰ.head refl))
      covered q (Memᴰ.tail later) =
          let (x, written, known) = g.covered q later in
          (x, written, place_added seen r pending d x known)

  -- The loop over the reductions gathers as `IsGathered` says, and counts what is new.
  pub gather-IsGathered :
      (seen : List Text) (attempts : ℕ) (rs : List Reduction) {c : List Text} {a : ℕ}
      {pending : Pending}
      → gather seen attempts rs ≡ ok (c, a, pending)
      → IsGathered seen rs pending × (a ≡ attempts + length pending)
  unfolding gather
  gather-IsGathered seen attempts [] {c} {a} {pending} h =
      let none_left : [] ≡ pending = cc h in
      let count : attempts ≡ a = cc h in
      (
        subst (λ x. IsGathered seen [] x) none_left
            (record { serialized = tt; covered = λ r m. elim m [ ] }),
        rw (← none_left, ← count) (omega arith),
      )
  gather-IsGathered seen attempts (r ∷ rest) {c} {a} {pending} h =
      let (d, written, h') = >>=-eq-ok (serialize_invoice r.invoice) _ h in
      elim (Bool-cases (contains d seen)) [
        | inl known ↦
            let (g, count) = gather-IsGathered seen attempts rest (rw known at h') in
            (gather_passed seen r rest pending d written known g, count)
        | inr new ↦
            let ((c', a', later), h1, h2) =
              >>=-eq-ok (gather (d ∷ seen) (attempts + 1) rest) _ (rw new at h') in
            let (g, count) = gather-IsGathered (d ∷ seen) (attempts + 1) rest h1 in
            let whole : (r, d) ∷ later ≡ pending = cc h2 in
            let same : a' ≡ a = cc h2 in
            (
              subst (λ x. IsGathered seen (r ∷ rest) x) whole
                  (gather_added seen r rest later d written g),
              rw (← whole, ← same) (omega (arith, count)),
            )
      ]

  -- What was checked at the end was checked before or is pending.
  pub gather-checked :
      (seen : List Text) (attempts : ℕ) (rs : List Reduction) {c : List Text} {a : ℕ}
      {pending : Pending}
      → gather seen attempts rs ≡ ok (c, a, pending)
      → (x : Text) → contains x c ≡ true
      → (contains x seen ≡ true) ⊎ ((q : Reduction) × Memᴰ (q, x) pending)
  unfolding gather
  gather-checked seen attempts [] {c} {a} {pending} h x known =
      let same : seen ≡ c = cc h in inl (rw same known)
  gather-checked seen attempts (r ∷ rest) {c} {a} {pending} h x known =
      let (d, written, h') = >>=-eq-ok (serialize_invoice r.invoice) _ h in
      elim (Bool-cases (contains d seen)) [
        | inl old ↦ gather-checked seen attempts rest (rw old at h') x known
        | inr new ↦
            let ((c', a', later), h1, h2) =
              >>=-eq-ok (gather (d ∷ seen) (attempts + 1) rest) _ (rw new at h') in
            let whole : (r, d) ∷ later ≡ pending = cc h2 in
            let same : c' ≡ c = cc h2 in
            subst (λ p. (contains x seen ≡ true) ⊎ ((q : Reduction) × Memᴰ (q, x) p)) whole
              (place_added seen r later d x
                (gather-checked (d ∷ seen) (attempts + 1) rest h1 x (rw same known)))
      ]
