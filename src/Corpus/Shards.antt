-- ===== src/Corpus/Shards.antt =====
-- The indices of a shard: from its own on, every `step`th one below the count.
use rechnungsprobe.Prelude.{
  ℕ, zero, suc, ◌+◌, ◌≤◌, ◌<◌, ltb, List, [], ◌∷◌, ◌≡◌, refl, arith, Bool-cases, inl, inr,
}
use rechnungsprobe.Corpus.{shard_indices}

-- A list that goes on as long as it is below the count, and no further
abbrev pub IsShard : ℕ → ℕ → ℕ → List ℕ → Type 0
IsShard index step count [] = count ≤ index
IsShard index step count (i ∷ rest) =
    (i ≡ index) × (index < count) × IsShard (index + step) step count rest

pub shard_indices-IsShard :
    (fuel index count step : ℕ)
    → 1 ≤ step
    → count ≤ index + fuel
    → IsShard index step count (shard_indices fuel index count step)
unfolding shard_indices
shard_indices-IsShard zero index count step h k = omega arith
shard_indices-IsShard (suc fuel) index count step h k = elim (Bool-cases (ltb index count)) [
  | inl below ↦
      rw below
        (refl, ground arith, shard_indices-IsShard fuel (index + step) count step h (omega arith))
  | inr above ↦ rw above (ground arith)
]
