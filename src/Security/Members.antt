-- ===== src/Security/Members.antt =====
-- What the members of an archive are like when the checks accept them.
use mathlib.Core.Path.{subst}
use rechnungsprobe.Prelude.{
  ℕ, ◌+◌, ◌*◌, ◌⊎◌, inl, inr, All, Bool-cases, ==_iff, arith, contains-false_iff, ◌%◌, ◌≤◌, Text,
  contains, Bool, true, false, not, leb, ◌==◌, List, [], ◌∷◌, length, ◌≡◌, ◌≢◌, refl, leb→le,
}
use rechnungsprobe.Security.Parts.{IsRelative, IsPart, safe_member_parts-AreParts}
use rechnungsprobe.Errors.{ok, security_error, guard, guard-eq-ok, >>=-eq-ok, >>-eq-ok}
use rechnungsprobe.Security.{
  ZipInfo, Kind, ZipLimits, Validated, safe_member_parts, file_type, entry_kind, joined,
  is_suspicious, validate_entries, validate_archive,
}

not-true : (b : Bool) → not b ≡ true → b ≡ false
not-true true h = cc h
not-true false h = refl

no_link : (entry : ZipInfo) (kind : Kind) → entry_kind entry ≡ ok kind → file_type entry ≢ 40960
unfolding entry_kind
no_link entry kind h link = cc (rw link at h)

-- An empty member, or one that is compressed and not by more than the ratio
abbrev pub IsDense : ZipLimits → ZipInfo → Type 0
IsDense limits entry =
    (entry.file_size ≡ 0)
    ⊎ ((entry.compress_size ≢ 0)
        × (entry.file_size ≤ limits.max_compression_ratio * entry.compress_size))

unsuspicious-IsDense :
    (limits : ZipLimits) (entry : ZipInfo)
    → is_suspicious limits entry ≡ false
    → IsDense limits entry
unsuspicious-IsDense limits entry h = elim (Bool-cases (entry.file_size == 0)) [
  | inl empty ↦ inl ((==_iff _ _).0 empty)
  | inr full ↦ inr (λ e. ground arith, ground arith)
]

module _ (casefold : Text → Text) (limits : ZipLimits) where
  -- A member that is safe to write, whose name is none of those seen.
  pub record IsSafe (seen : List Text) (total : ℕ) (v : Validated) : Type 0 where
    pub parts : safe_member_parts v.entry.filename ≡ ok v.parts
    pub relative : IsRelative v.entry.filename
    pub inside : All IsPart v.parts
    pub new : All (λ name. casefold (joined v.parts) ≢ name) seen
    pub kind : entry_kind v.entry ≡ ok v.kind
    pub unlinked : file_type v.entry ≢ 40960
    pub plain : (v.entry.flag_bits % 2 == 1) ≡ false
    pub bounded : v.entry.file_size ≤ limits.max_member_bytes
    pub within : total + v.entry.file_size ≤ limits.max_total_bytes
    pub dense : IsDense limits v.entry

  abbrev pub AreSafe : List Text → ℕ → List ZipInfo → List Validated → Type 0
  AreSafe seen total [] [] = Unit
  AreSafe seen total [] (v ∷ vs) = ⊥
  AreSafe seen total (entry ∷ rest) [] = ⊥
  AreSafe seen total (entry ∷ rest) (v ∷ vs) =
      (v.entry ≡ entry)
      × IsSafe seen total v
      × AreSafe (casefold (joined v.parts) ∷ seen) (total + v.entry.file_size) rest vs

  validate_entries-AreSafe :
      (seen : List Text) (total : ℕ) (entries : List ZipInfo) (validated : List Validated)
      → validate_entries casefold limits seen total entries ≡ ok validated
      → AreSafe seen total entries validated
  unfolding validate_entries
  validate_entries-AreSafe seen total [] validated h =
      let whole : [] ≡ validated = cc h in subst (λ vs. AreSafe seen total [] vs) whole tt
  validate_entries-AreSafe seen total (entry ∷ rest) validated h =
      let (parts, parted, h1) = >>=-eq-ok (safe_member_parts entry.filename) _ h in
      let normalized = casefold (joined parts) in
      let (new, h2) =
        >>-eq-ok
          (guard (not (contains normalized seen)) (security_error "duplicate archive member")) _
          h1 in
      let (kind, kinded, h3) = >>=-eq-ok (entry_kind entry) _ h2 in
      let (plain, h4) = >>-eq-ok (guard (not (entry.flag_bits % 2 == 1)) _) _ h3 in
      let (bounded, h5) = >>-eq-ok (guard (leb entry.file_size limits.max_member_bytes) _) _ h4 in
      let (within, h6) =
        >>-eq-ok (guard (leb (total + entry.file_size) limits.max_total_bytes) _) _ h5 in
      let (dense, h7) = >>-eq-ok (guard (not (is_suspicious limits entry)) _) _ h6 in
      let (others, later, h8) =
        >>=-eq-ok
          (validate_entries casefold limits (casefold (joined parts) ∷ seen)
            (total + entry.file_size) rest)
          _ h7 in
      let whole : record { entry = entry; parts = parts; kind = kind } ∷ others ≡ validated =
        cc h8 in
      subst (λ vs. AreSafe seen total (entry ∷ rest) vs) whole
        (
          refl,
          record {
            parts = parted;
            relative = (safe_member_parts-AreParts entry.filename parts parted).0;
            inside = (safe_member_parts-AreParts entry.filename parts parted).1;
            new = (contains-false_iff normalized seen).0 (not-true _ (guard-eq-ok _ _ new));
            kind = kinded;
            unlinked = no_link entry kind kinded;
            plain = not-true _ (guard-eq-ok _ _ plain);
            bounded = leb→le _ _ (guard-eq-ok _ _ bounded);
            within = leb→le _ _ (guard-eq-ok _ _ within);
            dense = unsuspicious-IsDense limits entry (not-true _ (guard-eq-ok _ _ dense));
          },
          validate_entries-AreSafe (casefold (joined parts) ∷ seen) (total + entry.file_size) rest
              others later,
        )

  -- When the members of an archive are accepted, they are at most the allowed number, and in their
  -- order each has a name that begins neither with a slash or backslash nor with a drive letter and
  -- colon, and parts none of which is empty, a dot or two dots, or holds a slash, a backslash or a
  -- NUL; a case-folded name that no earlier one has; is no link and not encrypted; does not exceed
  -- the member size or, with those before it, the total size; and is empty, or compressed by no more
  -- than the ratio.
  pub validate_archive_safe :
      (entries : List ZipInfo) (validated : List Validated)
      → validate_archive casefold limits entries ≡ ok validated
      → (length entries ≤ limits.max_members) × AreSafe [] 0 entries validated
  unfolding validate_archive
  validate_archive_safe entries validated h =
      let (few, h1) = >>-eq-ok _ _ h in
      (leb→le _ _ (guard-eq-ok _ _ few), validate_entries-AreSafe [] 0 entries validated h1)
