-- ===== src/Corpus/Applied.antt =====
-- The operations that a candidate records are those that made its invoice: applied to the seed one
-- after the other, with their tokens, they give it.
use mathlib.Core.Path.{subst}
use rechnungsprobe.Prelude.{
  ℕ, ◌-◌, ◌/◌, ◌%◌, Text, codes, Bool, true, false, not, all, leb, take, drop, length, List, [],
  ◌∷◌, ◌++◌, ◌≡◌, refl,
}
use rechnungsprobe.Errors.{Result, ok, ok-injective, >>=-eq-ok}
use rechnungsprobe.Model.Invoice.{Invoice, Host}
use rechnungsprobe.Mutate.Named.{mutate}
use rechnungsprobe.Corpus.{
  MutationRecord, Mutated, mutator_order, name_at, names_but, unique_token, is_invoice_id,
  candidate_digest, token_for, apply, interact, identify, mutate_seed,
}

module _ ⦃host : Host⦄ where
  -- From one invoice to another by the mutations recorded, in their order
  abbrev pub AreApplied : Invoice → List MutationRecord → Invoice → Type 0
  AreApplied i [] j = i ≡ j
  AreApplied i (m ∷ rest) j = (k : Invoice) × (mutate i m.name m.token ≡ ok k) × AreApplied k rest j

  abbrev IsApplied : Invoice → Mutated → Type 0
  IsApplied seed made = AreApplied seed made.1 made.0

  one_more :
      (i : Invoice) (operations : List MutationRecord) (j k : Invoice) (m : MutationRecord)
      → AreApplied i operations j
      → mutate j m.name m.token ≡ ok k
      → AreApplied i (operations ++ m ∷ []) k
  one_more i [] j k m h e = (k, rw h e, refl)
  one_more i (o ∷ rest) j k m (next, first, later) e =
      (next, first, one_more next rest j k m later e)

  apply-IsApplied :
      (seed : Invoice) (made : Mutated) (name : Text) (token : ℕ) (out : Mutated)
      → IsApplied seed made
      → apply made name token ≡ ok out
      → IsApplied seed out
  unfolding apply
  apply-IsApplied seed (i, operations) name token out h e =
      let (j, mutated, e1) = >>=-eq-ok (mutate i name token) _ e in
      subst (λ o. IsApplied seed o) (ok-injective e1)
        (one_more seed operations i j (record { name = name; token = token }) h mutated)

  perhaps :
      (seed : Invoice) (made : Mutated) (b : Bool) (name : Text) (token : ℕ) (out : Mutated)
      → IsApplied seed made
      → elim b as (λ _. Result Mutated) [ true ↦ apply made name token | false ↦ ok made ] ≡ ok out
      → IsApplied seed out
  perhaps seed made true name token out h e = apply-IsApplied seed made name token out h e
  perhaps seed made false name token out h e = subst (λ o. IsApplied seed o) (ok-injective e) h

  interact-IsApplied :
      (seed : Invoice) (campaign_seed index : ℕ) (primary : Text) (made out : Mutated)
      → IsApplied seed made
      → interact campaign_seed index primary made ≡ ok out
      → IsApplied seed out
  unfolding interact
  interact-IsApplied seed campaign_seed index primary made out h e =
      let names = names_but primary mutator_order in
      let name = name_at ((index - 20) / 20 % length names) names in
      let digits = take 16 (drop 32 (candidate_digest campaign_seed index)) in
      perhaps seed made (leb 20 index) name (token_for campaign_seed index name digits) out h e

  identify-IsApplied :
      (seed : Invoice) (campaign_seed index : ℕ) (made out : Mutated)
      → IsApplied seed made
      → identify campaign_seed index made ≡ ok out
      → IsApplied seed out
  unfolding identify
  identify-IsApplied seed campaign_seed index made out h e =
      perhaps seed made (all (λ operation. not (is_invoice_id operation.name)) made.1)
        (codes "invoice-id") (unique_token campaign_seed index) out h e

  pub mutate_seed-AreApplied :
      (seed : Invoice) (campaign_seed index : ℕ) (i : Invoice) (operations : List MutationRecord)
      → mutate_seed seed campaign_seed index ≡ ok (i, operations)
      → AreApplied seed operations i
  unfolding mutate_seed
  mutate_seed-AreApplied seed campaign_seed index i operations e =
      let primary = name_at (index % 20) mutator_order in
      let digits = take 16 (candidate_digest campaign_seed index) in
      let token = token_for campaign_seed index primary digits in
      let (first, applied, e1) = >>=-eq-ok (apply (seed, []) primary token) _ e in
      let (second, interacted, e2) = >>=-eq-ok (interact campaign_seed index primary first) _ e1 in
      identify-IsApplied seed campaign_seed index second (i, operations)
        (interact-IsApplied seed campaign_seed index primary first second
          (apply-IsApplied seed (seed, []) primary token first refl applied) interacted)
        e2
