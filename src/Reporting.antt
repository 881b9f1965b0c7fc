-- ===== src/Reporting.antt =====
-- `FindingRecord` of src/rechnungsprobe/reporting.py and the checks that it makes when it is built.
use rechnungsprobe.Prelude.{
  ℕ, Text, codes, contains, Bool, true, false, not, ◌&&◌, ◌||◌, leb, all, text_eq, Option, none,
  some, List, [], ◌∷◌, ◌++◌, length, ◌==◌, if◌then◌else◌,
}
use rechnungsprobe.Prelude.Int.{ℤ}
use rechnungsprobe.Prelude.Eq.{is_equal, text_Eq, bool_Eq, int_Eq, option_Eq}
use rechnungsprobe.Errors.{Result, security_error, guard, ◌>>◌}
use rechnungsprobe.Provenance.{FindingProvenance, is_sha256}

pub record FindingRecord : Type 0 where
  pub case_id : Text
  pub predicate : Text
  pub profile_id : Text
  pub target_digest : Text
  pub invoice_sha256 : Text
  pub fingerprint : Text
  pub termination : Text
  pub returncode : Option ℤ
  pub details : List Text
  pub mutations : List Text
  pub one_minimal : Bool
  pub reproductions : ℕ
  pub synthetic : Bool
  pub provenance : Option FindingProvenance

abbrev pub terminations : List Text
terminations =
    codes "exited"
    ∷ codes "timeout"
    ∷ codes "output_limit"
    ∷ codes "memory_limit"
    ∷ codes "cpu_limit"
    ∷ codes "process_limit"
    ∷ codes "file_limit"
    ∷ []

abbrev is_bounded_text : Text → Bool
is_bounded_text value = not (length value == 0) && leb (length value) 2000

unfoldable pub is_bounded : FindingRecord → Bool
unfolding is_sha256
is_bounded r =
    not (length r.case_id == 0)
    && leb (length r.case_id) 80
    && all is_bounded_text (
        r.case_id
        ∷ r.predicate
        ∷ r.profile_id
        ∷ r.target_digest
        ∷ r.fingerprint
        ∷ (r.details ++ r.mutations))
    && is_sha256 r.target_digest
    && is_sha256 r.invoice_sha256
    && is_sha256 r.fingerprint
    && contains r.termination terminations
    && leb (length r.details) 64
    && leb (length r.mutations) 64
    && leb 1 r.reproductions
    && leb r.reproductions 100

-- `profile.get("identifier")`
abbrev identifier_of : List (Text × Text) → Option Text
identifier_of [] = none
identifier_of ((key, value) ∷ rest) =
    let later = identifier_of rest in if text_eq key (codes "identifier") then some value else later

unfoldable pub agrees : FindingRecord → FindingProvenance → Bool
agrees r p =
    is_equal p.target_digest r.target_digest
    && is_equal (identifier_of p.profile) (some r.profile_id)
    && length p.observations == r.reproductions
    && is_equal p.minimization.one_minimal r.one_minimal
    && all (λ o. is_equal o.termination r.termination && is_equal o.returncode r.returncode)
        p.observations

abbrev agrees_with : FindingRecord → Option FindingProvenance → Bool
unfolding agrees
agrees_with r none = true
agrees_with r (some p) = agrees r p

abbrev has_provenance : Option FindingProvenance → Bool
has_provenance none = false
has_provenance (some p) = true

-- `__post_init__`
unfoldable pub check_record : FindingRecord → Result (Unit {0})
unfolding is_bounded agrees_with
check_record r = do
  guard (r.synthetic || has_provenance r.provenance)
      (security_error "real finding record requires provenance")
  guard (is_bounded r) (security_error "finding record is invalid or exceeds its limits")
  guard (agrees_with r r.provenance) (security_error "finding record and provenance disagree")
