-- ===== src/Campaign/Corpus.antt =====
-- `_validate_corpus` of src/rechnungsprobe/campaign.py, and the validity cache that follows from it. The
-- message on an invalid case leaves out the case's name and the validator's errors.
use rechnungsprobe.Prelude.{
  ℕ, zero, suc, Text, codes, pad, Bool, true, all, List, [], ◌∷◌, ◌++◌, map, take, drop, length,
}
use rechnungsprobe.Errors.{Result, ok, security_error, guard, ◌>>=◌, ◌>>◌}
use rechnungsprobe.Corpus.{Candidate}
use rechnungsprobe.Model.Invoice.{Host}
use rechnungsprobe.Campaign.{Settings, World, next_validation}
use rechnungsprobe.Campaign.Calls.{validated, put}

abbrev pub case_id : Candidate → Text
unfolding pad
case_id candidate = codes "case-" ++ pad 6 candidate.index

abbrev pub corpus_cases : Text → List Candidate → List (Text × Text)
corpus_cases seed candidates = (codes "seed", seed) ∷ map (λ c. (case_id c, c.xml)) candidates

-- The batches of 64; the fuel bounds their number.
unfoldable pub validate_cases : Settings → ℕ → List (Text × Text) → World → Result World
unfolding validated next_validation
validate_cases s zero cases w = ok w
validate_cases s (suc fuel) [] w = ok w
validate_cases s (suc fuel) (c ∷ cases) w = do
  let next = next_validation s w
  results ← validated s (take 64 (c ∷ cases)) next.0
  guard (all (λ row. row.1.valid) results)
      (security_error "case is invalid under the pinned profile")
  validate_cases s fuel (drop 64 (c ∷ cases)) next.1

unfoldable pub validate_corpus : Settings → Text → List Candidate → World → Result World
unfolding validate_cases
validate_corpus s seed candidates w =
    let cases = corpus_cases seed candidates in validate_cases s (length cases) cases w

module _ ⦃host : Host⦄ where
  -- `{sha256(candidate.xml): True for candidate in candidates}`
  unfoldable pub cache_of : List Candidate → List (Text × Bool) → List (Text × Bool)
  unfolding put
  cache_of [] cache = cache
  cache_of (c ∷ rest) cache = cache_of rest (put (host.sha256 c.xml) true cache)
