-- ===== src/Examples/Campaign.antt =====
-- The corpus, the mutators, comparison, classification and the checks of files at concrete inputs.
use mathlib.Core.List.{List, [], ◌∷◌}
use rechnungsprobe.Prelude.{ℕ, Text, codes, length, ◌≤◌, ◌≡◌, ◌↔◌, refl, All}
use rechnungsprobe.Errors.{ok}
use rechnungsprobe.Model.Invoice.{Invoice}
use rechnungsprobe.Model.Fingerprint.{semantic_fingerprint}
use rechnungsprobe.Mutate.Named.{mutate}
use rechnungsprobe.Findings.{totals_or_tax_changed, classify_finding}
use rechnungsprobe.Findings.Classify.{IsUnlimited, NamesTotal, classify-totals_iff}
use rechnungsprobe.Comparison.{changed_fields}
use rechnungsprobe.Comparison.Exact.{IsSame, changed_fields_iff}
use rechnungsprobe.Xmlsafe.{Event, start, end, characters, Preflight, default_limits, preflight}
use rechnungsprobe.Xmlsafe.Bounds.{IsHarmless}
use rechnungsprobe.Xmlsafe.Events.{elements, all_attributes, all_text, AreNested, preflight_bounded}
use rechnungsprobe.Security.{ZipInfo, ZipLimits, Validated, directory, file, validate_archive}
use rechnungsprobe.Security.Members.{AreSafe, validate_archive_safe}
use rechnungsprobe.Corpus.{Candidate, generate_candidates}
use rechnungsprobe.Corpus.Shards.{IsShard}
use rechnungsprobe.Corpus.Fresh.{AreCandidates, indices_of, generate_candidates_sound}
use rechnungsprobe.Samples.{plain_host, sample_invoice}
use rechnungsprobe.Examples.{program}
use rechnungsprobe.Examples.Shrinking.{value_or}

candidates : List Candidate
unfolding program
candidates = value_or [] (generate_candidates sample_invoice (codes "00") 3 7 0 2)

sample_generates : generate_candidates sample_invoice (codes "00") 3 7 0 2 ≡ ok candidates
unfolding program candidates
sample_generates = refl

generate_candidates_sound_example :
    (original : Text) × (semantic_fingerprint sample_invoice ≡ ok original)
    × IsShard 0 2 3 (indices_of candidates)
    × AreCandidates sample_invoice 7 original [] candidates
generate_candidates_sound_example =
    generate_candidates_sound sample_invoice (codes "00") 3 7 0 2 candidates sample_generates

abbrev named_invoice : Invoice
named_invoice = record sample_invoice { identifier = codes "RP-00000042" }

-- The identifier of the mutated invoice has eight digits.
sample_mutates : mutate sample_invoice (codes "invoice-id") 42 ≡ ok named_invoice
unfolding program
sample_mutates = refl

sample_changes : changed_fields sample_invoice named_invoice ≡ codes "identifier" ∷ []
unfolding program
sample_changes = refl

changed_fields_iff_example :
    (changed_fields sample_invoice named_invoice ≡ []) ↔ IsSame sample_invoice named_invoice
changed_fields_iff_example = changed_fields_iff sample_invoice named_invoice

abbrev lost : List Text
lost = codes "identifier" ∷ codes "tax_total" ∷ []

classify-totals_iff_example :
    (classify_finding (codes "declared-field-loss") (codes "exited") lost
      ≡ ok totals_or_tax_changed)
    ↔ (IsUnlimited (codes "exited")
        × (codes "declared-field-loss" ≡ codes "declared-field-loss")
        × NamesTotal lost)
classify-totals_iff_example =
    classify-totals_iff (codes "declared-field-loss") (codes "exited") lost

abbrev events : List Event
events =
    start (codes "u}Invoice") ((codes "a", codes "b") ∷ [])
    ∷ characters (codes "text")
    ∷ start (codes "u}EmbeddedDocumentBinaryObject") []
    ∷ characters (codes "AAAA")
    ∷ end (codes "u}EmbeddedDocumentBinaryObject")
    ∷ end (codes "u}Invoice")
    ∷ []

abbrev finished : Preflight
finished = record {
  depth = 0;
  element_count = 2;
  attribute_count = 1;
  text_count = 8;
  open_elements = [];
}

sample_preflight : preflight default_limits 100 events ≡ ok finished
unfolding program
sample_preflight = refl

preflight_bounded_example :
    (100 ≤ default_limits.max_bytes)
    × (elements events ≤ default_limits.max_elements)
    × (all_attributes events ≤ default_limits.max_attributes)
    × (all_text events ≤ default_limits.max_text)
    × AreNested default_limits [] events
    × All (IsHarmless default_limits) events
preflight_bounded_example = preflight_bounded default_limits 100 events finished sample_preflight

abbrev zip_limits : ZipLimits
zip_limits = record {
  max_members = 512;
  max_member_bytes = 16777216;
  max_total_bytes = 67108864;
  max_compression_ratio = 100;
}

abbrev member : Text → ℕ → ZipInfo
member name size = record {
  filename = name;
  create_system = 3;
  external_attr = 0;
  flag_bits = 0;
  file_size = size;
  compress_size = size;
}

abbrev entries : List ZipInfo
entries = member (codes "d/") 0 ∷ member (codes "d\\./f.xml") 12 ∷ []

abbrev validated_members : List Validated
validated_members =
    record { entry = member (codes "d/") 0; parts = codes "d" ∷ []; kind = directory }
    ∷ record {
      entry = member (codes "d\\./f.xml") 12;
      parts = codes "d" ∷ codes "f.xml" ∷ [];
      kind = file;
    }
    ∷ []

sample_archive : validate_archive (λ t. t) zip_limits entries ≡ ok validated_members
unfolding program
sample_archive = refl

validate_archive_safe_example :
    (length entries ≤ zip_limits.max_members)
    × AreSafe (λ t. t) zip_limits [] 0 entries validated_members
validate_archive_safe_example =
    validate_archive_safe (λ t. t) zip_limits entries validated_members sample_archive
