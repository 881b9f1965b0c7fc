-- ===== src/Corpus.antt =====
-- `generate_candidates` of src/rechnungsprobe/corpus.py, from the parsed seed invoice on. Text goes
-- into SHA-256 as its code points, and a digest comes back in hexadecimal digits.
pub mod Applied
pub mod Shards
pub mod Fresh
use rechnungsprobe.Prelude.{
  ℕ, zero, suc, ◌+◌, ◌-◌, ◌*◌, ◌/◌, ◌%◌, ◌^◌, Text, codes, text_eq, contains, show_ℕ, Bool, true,
  false, not, ◌&&◌, ◌||◌, all, ltb, leb, List, [], ◌∷◌, ◌++◌, map, take, drop, length,
  if◌then◌else◌,
}
use rechnungsprobe.Errors.{Result, ok, err, security_error, runtime_error, guard, ◌>>=◌, ◌>>◌}
use rechnungsprobe.Model.Invoice.{Invoice, Host}
use rechnungsprobe.Model.Serialize.{serialize_invoice}
use rechnungsprobe.Model.Fingerprint.{semantic_fingerprint}
use rechnungsprobe.Mutate.Named.{mutators, mutate}

-- `version` is always "1" and is left out.
pub record MutationRecord : Type 0 where
  pub name : Text
  pub token : ℕ

pub record Candidate : Type 0 where
  pub index : ℕ
  pub campaign_seed : ℕ
  pub seed_sha256 : Text
  pub seed_fingerprint : Text
  pub operations : List MutationRecord
  pub fingerprint : Text
  pub xml_sha256 : Text
  pub xml : Text

unfoldable pub mutator_order : List Text
unfolding mutators
mutator_order = map (λ row. row.0) mutators

-- A list's element; every index of the code is below the length.
unfoldable pub name_at : ℕ → List Text → Text
name_at i [] = []
name_at zero (x ∷ xs) = x
name_at (suc i) (x ∷ xs) = name_at i xs

unfoldable pub names_but : Text → List Text → List Text
names_but name [] = []
names_but name (x ∷ xs) = let rest = names_but name xs in if text_eq x name then rest else x ∷ rest

abbrev hex_digit : ℕ → ℕ
hex_digit c = if leb c 57 then c - 48 else c - 87

-- `int.from_bytes(..., "big")` of the bytes whose hexadecimal digits are given
unfoldable pub from_hex : ℕ → Text → ℕ
from_hex n [] = n
from_hex n (c ∷ rest) = from_hex (n * 16 + hex_digit c) rest

-- `range(index, count, step)`, whose length `fuel` bounds.
unfoldable pub shard_indices : ℕ → ℕ → ℕ → ℕ → List ℕ
shard_indices zero index count step = []
shard_indices (suc fuel) index count step =
    let rest = shard_indices fuel (index + step) count step in
    if ltb index count then index ∷ rest else []

-- `(campaign_seed << 32) | index` for an index below 2 ^ 32
abbrev pub unique_token : ℕ → ℕ → ℕ
unique_token campaign_seed index = campaign_seed * 2 ^ 32 + index

abbrev pub is_invoice_id : Text → Bool
is_invoice_id name = text_eq name (codes "invoice-id")

abbrev pub Mutated : Type 0
Mutated = Invoice × List MutationRecord

module _ ⦃host : Host⦄ where
  unfoldable pub candidate_digest : ℕ → ℕ → Text
  unfolding show_ℕ
  candidate_digest campaign_seed index =
      host.sha256
        (codes "rechnungsprobe-campaign-v2" ++ (0 ∷ (show_ℕ campaign_seed ++ (0 ∷ show_ℕ index))))

  unfoldable pub token_for : ℕ → ℕ → Text → Text → ℕ
  unfolding from_hex
  token_for campaign_seed index name digits =
      if is_invoice_id name
      then unique_token campaign_seed index
      else from_hex 0 digits % 1000000000

  unfoldable pub apply : Mutated → Text → ℕ → Result Mutated
  apply (i, operations) name token = do
    mutated ← mutate i name token
    ok (mutated, operations ++ record { name = name; token = token } ∷ [])

  -- The second mutator, from the index on where each has been the first once.
  unfoldable pub interact : ℕ → ℕ → Text → Mutated → Result Mutated
  unfolding mutator_order name_at names_but candidate_digest token_for apply
  interact campaign_seed index primary_name made = elim (leb 20 index) [
    | true ↦
        let names = names_but primary_name mutator_order in
        let cycle = (index - 20) / 20 in
        let name = name_at (cycle % length names) names in
        let digits = take 16 (drop 32 (candidate_digest campaign_seed index)) in
        apply made name (token_for campaign_seed index name digits)
    | false ↦ ok made
  ]

  -- An invoice identifier of its own, where no operation has set one.
  unfoldable pub identify : ℕ → ℕ → Mutated → Result Mutated
  unfolding apply
  identify campaign_seed index made =
      elim (all (λ operation. not (is_invoice_id operation.name)) made.1) [
        | true ↦ apply made (codes "invoice-id") (unique_token campaign_seed index)
        | false ↦ ok made
      ]

  unfoldable pub mutate_seed : Invoice → ℕ → ℕ → Result Mutated
  unfolding mutator_order name_at candidate_digest token_for apply interact identify
  mutate_seed seed_invoice campaign_seed index = do
    let primary_name = name_at (index % 20) mutator_order
    let digits = take 16 (candidate_digest campaign_seed index)
    first ←
        apply (seed_invoice, []) primary_name (token_for campaign_seed index primary_name digits)
    second ← interact campaign_seed index primary_name first
    identify campaign_seed index second

  -- The loop over the indices, with the fingerprints so far.
  unfoldable pub generate_from :
      Invoice → Text → Text → ℕ → List Text → List ℕ → Result (List Candidate)
  unfolding mutate_seed
  generate_from seed_invoice seed_sha256 seed_fingerprint campaign_seed fingerprints [] = ok []
  generate_from seed_invoice seed_sha256 seed_fingerprint campaign_seed fingerprints
        (index ∷ rest) =
      do
        (invoice, operations) ← mutate_seed seed_invoice campaign_seed index
        xml ← serialize_invoice invoice
        fingerprint ← semantic_fingerprint invoice
        guard (not (text_eq fingerprint seed_fingerprint || contains fingerprint fingerprints))
            (runtime_error "candidate generation produced a semantic collision")
        candidates ←
            generate_from seed_invoice seed_sha256 seed_fingerprint campaign_seed
              (fingerprint ∷ fingerprints) rest
        ok (
            record {
              index = index;
              campaign_seed = campaign_seed;
              seed_sha256 = seed_sha256;
              seed_fingerprint = seed_fingerprint;
              operations = operations;
              fingerprint = fingerprint;
              xml_sha256 = host.sha256 xml;
              xml = xml;
            }
            ∷ candidates)

  unfoldable pub generate_candidates : Invoice → Text → ℕ → ℕ → ℕ → ℕ → Result (List Candidate)
  unfolding shard_indices generate_from
  generate_candidates seed_invoice seed_sha256 count campaign_seed shard_index shard_count = do
    guard (leb 1 count && leb count 100000)
        (security_error "candidate count must be between one and 100000")
    guard (ltb campaign_seed (2 ^ 63))
        (security_error "campaign seed must be a non-negative 63-bit integer")
    guard (leb 1 shard_count && (leb shard_count 100 && ltb shard_index shard_count))
        (security_error "corpus shard coordinates are invalid")
    seed_fingerprint ← semantic_fingerprint seed_invoice
    generate_from seed_invoice seed_sha256 seed_fingerprint campaign_seed []
        (shard_indices count shard_index count shard_count)
