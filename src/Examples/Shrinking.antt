-- ===== src/Examples/Shrinking.antt =====
-- Shrinking at a concrete invoice.
use rechnungsprobe.Prelude.{◌<◌, Text, codes, ◌≡◌, ◌↔◌, refl, arith, true, none, [], ◌∷◌, List}
use rechnungsprobe.Errors.{Result, ok, err}
use rechnungsprobe.Prelude.{All}
use rechnungsprobe.Model.Serialize.{serialize_invoice}
use rechnungsprobe.Model.Fingerprint.{semantic_fingerprint}
use rechnungsprobe.Shrink.Operations.{Reduction, text_reductions}
use rechnungsprobe.Shrink.Steps.{one_step_reductions}
use rechnungsprobe.Shrink.Unique.{AreFresh, one_step_sound}
use rechnungsprobe.Shrink.Smaller.{IsSmaller}
use rechnungsprobe.Shrink.Size.{IsShorter, text_reductions-IsShorter}
use rechnungsprobe.Shrink.Loop.{
  State, ShrinkResult, MinimalityResult, shrink_rounds, shrink_invoice, verify_one_minimal,
}
use rechnungsprobe.Shrink.Size.{number_size, invoice_size}
use rechnungsprobe.Shrink.Sound.{IsShrunk, shrink_invoice_sound}
use rechnungsprobe.Shrink.Verify.{IsOneMinimal, verify_exact}
use rechnungsprobe.Shrink.Terminates.{Ends, shrink_rounds_end}
use rechnungsprobe.Samples.{plain_host, sample_invoice, sample_checks}
use rechnungsprobe.Examples.{program}

-- The value of a result, or the other value.
abbrev pub value_or {ℓ} : {A : Type ℓ} → A → Result A → A
value_or a (ok b) = b
value_or a (err e) = a

abbrev nothing_shrunk : ShrinkResult
nothing_shrunk = record { invoice = sample_invoice; attempts = 0; accepted = []; fingerprint = [] }

shrunk : ShrinkResult
unfolding program
shrunk = value_or nothing_shrunk (shrink_invoice 20 sample_checks sample_invoice)

sample_shrinks : shrink_invoice 20 sample_checks sample_invoice ≡ ok shrunk
unfolding program shrunk
sample_shrinks = refl

shrink_invoice_sound_example : IsShrunk sample_checks sample_invoice shrunk.accepted shrunk.invoice
shrink_invoice_sound_example =
    shrink_invoice_sound 20 sample_checks sample_invoice shrunk (λ documents. refl) sample_shrinks

abbrev nothing_verified : MinimalityResult
nothing_verified = record { minimal = true; attempts = 0; reducing_operation = none }

verified : MinimalityResult
unfolding program
verified = value_or nothing_verified (verify_one_minimal sample_checks sample_invoice)

sample_verifies : verify_one_minimal sample_checks sample_invoice ≡ ok verified
unfolding program verified
sample_verifies = refl

verify_exact_example : (verified.minimal ≡ true) ↔ IsOneMinimal sample_checks sample_invoice
verify_exact_example =
    verify_exact sample_checks sample_invoice verified (λ documents. refl) sample_verifies

abbrev start : State
start = record {
  current = sample_invoice;
  attempts = 1;
  accepted = [];
  checked = value_or [] (serialize_invoice sample_invoice) ∷ [];
}

sample_size : invoice_size sample_invoice < 200
unfolding program number_size
sample_size = omega arith

shrink_rounds_end_example : Ends sample_checks start (shrink_rounds 200 sample_checks start)
shrink_rounds_end_example = shrink_rounds_end 200 sample_checks start sample_size

reductions : List Reduction
unfolding program
reductions = value_or [] (one_step_reductions sample_invoice)

sample_reduces : one_step_reductions sample_invoice ≡ ok reductions
unfolding program reductions
sample_reduces = refl

one_step_sound_example :
    (original : Text) × (semantic_fingerprint sample_invoice ≡ ok original)
    × AreFresh original [] reductions
    × All (IsSmaller sample_invoice) reductions
one_step_sound_example = one_step_sound sample_invoice reductions sample_reduces

text_reductions-IsShorter_example : All (IsShorter (codes "abcd")) (text_reductions (codes "abcd"))
text_reductions-IsShorter_example = text_reductions-IsShorter (codes "abcd")
