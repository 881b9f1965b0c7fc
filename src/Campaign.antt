-- ===== src/Campaign.antt =====
-- src/rechnungsprobe/campaign.py: the state of a campaign, its settings and the signature of a finding;
-- the children hold its steps. A call of the validator or of the target gets a workspace that no other
-- call gets, so a function of the workspace stands for a validator or a target that answers
-- differently each time.
pub mod Signature
pub mod Calls
pub mod Corpus
pub mod Cache
pub mod Counters
pub mod Finding
pub mod Run
pub mod Minimal
use rechnungsprobe.Prelude.{ℕ, ◌+◌, Text, codes, pad, Bool, Option, List, ◌++◌, ◌∷◌, []}
use rechnungsprobe.Prelude.Int.{ℤ}
use rechnungsprobe.Errors.{Result}
use rechnungsprobe.Json.Strict.{Runtime}
use rechnungsprobe.Model.Xml.{Element}
use rechnungsprobe.Predicates.{ValidationResult}
use rechnungsprobe.Process.{ProcessPolicy}
use rechnungsprobe.Target.{TargetResult}
use rechnungsprobe.Replay.Defs.{ReplayTarget, ReplayPredicate}

-- The arguments of `run_campaign`, with the functions that it takes from outside: `bytes_sha256` is
-- SHA-256 of bytes and `tree_of` the XML parser.
pub record Settings : Type 0 where
  pub target : ReplayTarget
  pub predicate : ReplayPredicate
  pub policy : ProcessPolicy
  pub reproductions : ℕ
  pub synthetic : Bool
  pub validator : List (Text × Text) → Text → Result (List (Text × ValidationResult))
  pub runner : ReplayTarget → Text → Text → ProcessPolicy → Result TargetResult
  pub python : Runtime
  pub tree_of : Text → Result Element
  pub bytes_sha256 : Text → Text
  pub validation_root : Text
  pub target_root : Text

-- `_WorkspaceSequence`, with the `validity_cache` of `run_campaign`
pub record World : Type 0 where
  pub validation_index : ℕ
  pub target_index : ℕ
  pub validity_cache : List (Text × Bool)

unfoldable pub next_validation : Settings → World → Text × World
unfolding pad
next_validation s w = (
  s.validation_root ++ codes "/validation-" ++ pad 8 w.validation_index,
  record w { validation_index = w.validation_index + 1 },
)

unfoldable pub next_target : Settings → World → Text × World
unfolding pad
next_target s w = (
  s.target_root ++ codes "/target-" ++ pad 8 w.target_index,
  record w { target_index = w.target_index + 1 },
)
