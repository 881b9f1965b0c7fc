-- ===== src/Lib.antt =====
-- Rechnungsprobe tests software that reads electronic invoices: it mutates a valid seed invoice into
-- a corpus of candidates, runs a target on them, classifies what it finds and shrinks a finding to a
-- small invoice. This library models the parts that decide, and leaves the operating system out.
--
-- Parts, with their files in the repository:
--   Model (src/rechnungsprobe/model.py): `Invoice` with its parties and lines (Model.Invoice), the
--     `validate` methods (Model.Validate), totals (Model.Totals), the element tree and its text
--     (Model.Xml, Model.Serialize), canonical JSON and `semantic_fingerprint` (Model.Fingerprint).
--     `parse_invoice` over an element tree is in Model.Parse.
--   Shrink (src/rechnungsprobe/shrink.py): the declared reductions (Shrink.Operations, Shrink.Parties,
--     Shrink.Lines, Shrink.Steps) and the functions `shrink_invoice` and `verify_one_minimal`
--     (Shrink.Loop). `State` holds the variables of the `while` loop, `shrink_round` is its body. The
--     other modules are proofs: Accepting, Gathering and Path describe a round, Size, Smaller and
--     Decrease a measure, Stale a candidate that the loop never tries.
--   Mutate (src/rechnungsprobe/mutators.py): the mutators and `mutate`.
--   Corpus (src/rechnungsprobe/corpus.py): `generate_candidates`, from the parsed seed on.
--   Comparison (src/rechnungsprobe/comparison.py): `compare_semantics`.
--   Findings (src/rechnungsprobe/findings.py): `classify_finding`.
--   Xmlsafe (src/rechnungsprobe/xmlsafe.py): the Expat handlers of `parse_xml_bytes`.
--   Security (src/rechnungsprobe/security.py): the checks of `safe_extract_zip` on members.
--   Json (src/rechnungsprobe/reporting.py): the values of `json.loads`; `strict_json` (Json.Strict).
--   Process (src/rechnungsprobe/process.py): the two threads of `run_bounded_process` that read output,
--     as a step relation over all their interleavings (Process.Readers), in which a read may wait for
--     as long as it likes, so that a thread that `join(timeout=2)` gives up on is a state in which it has
--     not stopped; and its checks and the loop
--     that watches the process (Process.Monitor).
--   Target (src/rechnungsprobe/target.py): its data.
--   Predicates (src/rechnungsprobe/predicates.py): crash, timeout, output validity, declared
--     field loss (Predicates.Loss), JSON (Predicates.Pointer) and the bounds on JSON output.
--   Provenance, Profiles, Reporting (the files of these names in src/rechnungsprobe): what a finding
--     record holds and the checks made when it is built.
--   Replay (src/rechnungsprobe/replay.py): the payload that `replay_json` writes (Replay.Write) and what
--     `parse_replay_json` reads from it (Replay.Read).
--   Campaign (src/rechnungsprobe/campaign.py): `World` holds the two workspace counters and the validity
--     cache; the callbacks of shrinking are in Campaign.Calls, the check of the corpus in
--     Campaign.Corpus, shrinking, reproduction and the record of a finding in Campaign.Finding, the loop
--     over the candidates in Campaign.Run.
-- The corpus uses the mutators, the model's serialisation and its fingerprint. Shrinking is modelled
-- twice: Shrink.Loop calls the target and the validator through pure functions, `Checks`, and
-- Shrink.Calls through `Calls`, which change a state and may raise an error. The campaign uses the
-- second with its own callbacks, over `World`.
--
-- A text is the list of its code points, and a document's bytes are the UTF-8 encoding of its text.
-- Decimal models Python's decimals with the default context, 28 digits and rounding half to even; a
-- NaN or an infinity is `special`, and the limits of the context on exponents are left out. `Host`
-- is what the program takes from its runtime: the Unicode class of `str.isalpha`, and SHA-256.
-- `Reader` is what it reads with: `Decimal(text)`, `date.fromisoformat` and `str.strip`. Where
-- a theorem on `Checks` needs that the batch callback agrees with the single one, it says so
-- (`IsConsistent`). Standard output and error are lists of bytes. A number of seconds is a whole number
-- of 10^-18 seconds in place of a float. A dictionary is the list of its entries. The validator and the target are functions of
-- their arguments and of the workspace, which is a new one for each call. An error is a value of `Error`; a `ModelError`
-- carries the place and field that its message names. An operation of shrinking is a constructor
-- with its parts in place of the formatted string.
--
-- The `while` loop of `shrink_invoice` takes fuel. Each accepted reduction makes the invoice's size
-- smaller, so fuel above `invoice_size` of the start is enough. `digits` takes its number as fuel and
-- `shard_indices` the count, which bound their steps.
--
-- Not modelled: Expat and the reading of files, `json.loads` and the UTF-8 decoder (`Runtime` stands for
-- them), the scan of a directory, the start and the killing of processes, containers, the running of
-- targets, files and capsules, the JSON and JUnit documents of reports, quality gates, the official
-- validator, the command line and the release tools. `run_campaign` is modelled without the files that
-- it writes, from the resolved target on.
pub mod Prelude
pub mod Errors
pub mod Decimal
pub mod Model
pub mod Shrink
pub mod Mutate
pub mod Findings
pub mod Comparison
pub mod Xmlsafe
pub mod Security
pub mod Corpus
pub mod Json
pub mod Process
pub mod Target
pub mod Provenance
pub mod Profiles
pub mod Reporting
pub mod Replay
pub mod Predicates
pub mod Campaign
mod Samples
mod Examples
