-- ===== src/Corpus/Fresh.antt =====
-- What the candidates of a corpus are like.
use mathlib.Core.Path.{subst}
use rechnungsprobe.Prelude.{
  All, map, sym, ap, arith, ◌≤◌, contains-false_iff, ltb, leb, ◌&&◌, ◌^◌, ℕ, Text, text_eq,
  text_eq_iff, contains, Bool, true, false, not, ◌||◌, List, [], ◌∷◌, ◌≡◌, ◌≢◌, refl,
}
use rechnungsprobe.Errors.{ok, runtime_error, guard, guard-eq-ok, >>=-eq-ok, >>-eq-ok}
use rechnungsprobe.Model.Invoice.{Invoice, Host}
use rechnungsprobe.Model.Serialize.{serialize_invoice}
use rechnungsprobe.Model.Fingerprint.{semantic_fingerprint}
use rechnungsprobe.Corpus.Applied.{AreApplied, mutate_seed-AreApplied}
use rechnungsprobe.Corpus.Shards.{IsShard, shard_indices-IsShard}
use rechnungsprobe.Corpus.{
  Candidate, shard_indices, mutate_seed, generate_from, generate_candidates,
}

neither : (a b : Bool) → not (a || b) ≡ true → (a ≡ false) × (b ≡ false)
neither true b h = cc h
neither false true h = cc h
neither false false h = (refl, refl)

module _ ⦃host : Host⦄ where
  -- A candidate's fields are those of an invoice that its operations make of the seed.
  pub record IsMade (seed_invoice : Invoice) (c : Candidate) : Type 0 where
    pub invoice : Invoice
    pub made : mutate_seed seed_invoice c.campaign_seed c.index ≡ ok (invoice, c.operations)
    pub applied : AreApplied seed_invoice c.operations invoice
    pub written : serialize_invoice invoice ≡ ok c.xml
    pub printed : semantic_fingerprint invoice ≡ ok c.fingerprint
    pub hashed : c.xml_sha256 ≡ host.sha256 c.xml

  -- Candidates of this campaign, with fingerprints that are neither the seed's nor among those given
  -- nor equal to each other
  abbrev pub AreCandidates : Invoice → ℕ → Text → List Text → List Candidate → Type 0
  AreCandidates seed campaign_seed original seen [] = Unit
  AreCandidates seed campaign_seed original seen (c ∷ cs) =
      (c.campaign_seed ≡ campaign_seed)
      × IsMade seed c
      × (c.fingerprint ≢ original)
      × All (λ f. c.fingerprint ≢ f) seen
      × AreCandidates seed campaign_seed original (c.fingerprint ∷ seen) cs

  abbrev pub indices_of : List Candidate → List ℕ
  indices_of = map (λ c. c.index)

  generate_from-AreCandidates :
      (seed : Invoice) (sha original : Text) (campaign_seed : ℕ) (seen : List Text)
      (indices : List ℕ) (cs : List Candidate)
      → generate_from seed sha original campaign_seed seen indices ≡ ok cs
      → AreCandidates seed campaign_seed original seen cs × (indices_of cs ≡ indices)
  unfolding generate_from
  generate_from-AreCandidates seed sha original campaign_seed seen [] cs h =
      let whole : [] ≡ cs = cc h in
      subst (λ l. AreCandidates seed campaign_seed original seen l × (indices_of l ≡ [])) whole
        (tt, refl)
  generate_from-AreCandidates seed sha original campaign_seed seen (index ∷ rest) cs h =
      let ((invoice, operations), made, h1) =
        >>=-eq-ok (mutate_seed seed campaign_seed index) _ h in
      let (xml, written, h2) = >>=-eq-ok (serialize_invoice invoice) _ h1 in
      let (fingerprint, printed, h3) = >>=-eq-ok (semantic_fingerprint invoice) _ h2 in
      let (fresh, h4) =
        >>-eq-ok
          (guard (not (text_eq fingerprint original || contains fingerprint seen))
            (runtime_error "candidate generation produced a semantic collision"))
          _ h3 in
      let (others, later, h5) =
        >>=-eq-ok (generate_from seed sha original campaign_seed (fingerprint ∷ seen) rest) _ h4 in
      let (changed, new) =
        neither (text_eq fingerprint original) (contains fingerprint seen)
          (guard-eq-ok _ _ fresh) in
      let c : Candidate = record {
        index = index;
        campaign_seed = campaign_seed;
        seed_sha256 = sha;
        seed_fingerprint = original;
        operations = operations;
        fingerprint = fingerprint;
        xml_sha256 = host.sha256 xml;
        xml = xml;
      } in
      let whole : c ∷ others ≡ cs = cc h5 in
      let (fresh_ones, numbered) =
        generate_from-AreCandidates seed sha original campaign_seed (fingerprint ∷ seen) rest others
          later in
      subst (λ l. AreCandidates seed campaign_seed original seen l × (indices_of l ≡ index ∷ rest))
        whole
        (
          (
            refl,
            record {
              invoice = invoice;
              made = made;
              applied = mutate_seed-AreApplied seed campaign_seed index invoice operations made;
              written = written;
              printed = printed;
              hashed = refl;
            },
            λ e. cc (changed, (text_eq_iff fingerprint original).1 e),
            (contains-false_iff fingerprint seen).0 new,
            fresh_ones,
          ),
          ap (λ l. index ∷ l) numbered,
        )

  -- When `generate_candidates` returns, the seed invoice has a fingerprint, and the indices of the
  -- candidates are the shard's own and every `shard_count`th one after it below the count, in order.
  -- Each candidate's recorded operations, applied to the seed one after the other with their tokens,
  -- give an invoice whose document, digest and fingerprint the candidate has; and no two candidates,
  -- and no candidate and the seed, share a fingerprint.
  pub generate_candidates_sound :
      (seed : Invoice) (sha : Text) (count campaign_seed shard_index shard_count : ℕ)
      (cs : List Candidate)
      → generate_candidates seed sha count campaign_seed shard_index shard_count ≡ ok cs
      → (original : Text) × (semantic_fingerprint seed ≡ ok original)
        × IsShard shard_index shard_count count (indices_of cs)
        × AreCandidates seed campaign_seed original [] cs
  unfolding generate_candidates
  generate_candidates_sound seed sha count campaign_seed shard_index shard_count cs h =
      let (_, h1) = >>-eq-ok (guard (leb 1 count && leb count 100000) _) _ h in
      let (_, h2) = >>-eq-ok (guard (ltb campaign_seed (2 ^ 63)) _) _ h1 in
      let (coordinates, h3) =
        >>-eq-ok
          (guard (leb 1 shard_count && (leb shard_count 100 && ltb shard_index shard_count)) _) _
          h2 in
      let (original, printed, h4) = >>=-eq-ok (semantic_fingerprint seed) _ h3 in
      let (candidates, numbered) =
        generate_from-AreCandidates seed sha original campaign_seed []
          (shard_indices count shard_index count shard_count) cs h4 in
      let some_shards : 1 ≤ shard_count =
        let passed = guard-eq-ok _ _ coordinates in ground arith in
      (
        original,
        printed,
        subst (λ l. IsShard shard_index shard_count count l) (sym numbered)
            (shard_indices-IsShard count shard_index count shard_count some_shards (omega arith)),
        candidates,
      )
