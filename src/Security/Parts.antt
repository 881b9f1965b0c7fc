-- ===== src/Security/Parts.antt =====
-- The parts of the name of an archive member that `_safe_member_parts` accepts.
use mathlib.Core.Path.{subst}
use rechnungsprobe.Prelude.{
  ℕ, ◌≤◌, ◌<◌, Text, codes, text_eq, text_eq_iff, Bool, true, false, not, ◌||◌, any, ◌==◌, List, [],
  ◌∷◌, length, ◌≡◌, ◌≢◌, ◌⊎◌, inl, inr, refl, sym, arith, All, Bool-cases, if◌then◌else◌,
}
use rechnungsprobe.Errors.{ok, security_error, guard, guard-eq-ok, ◌>>◌, >>-eq-ok}
use rechnungsprobe.Security.{
  portable, pieces, named_parts, posix_parts, glue, first_is, has_drive, is_empty, is_unsafe_part,
  safe_member_parts,
}

-- A character that is no separator and not the NUL
abbrev pub IsPathCharacter : ℕ → Type 0
IsPathCharacter c = (c ≢ b'/') × (c ≢ 92) × (c ≢ 0)

-- A name that stays in its directory
pub record IsPart (part : Text) : Type 0 where
  pub nonempty : 1 ≤ length part
  pub no_dot : part ≢ codes "."
  pub no_parent : part ≢ codes ".."
  pub characters : All IsPathCharacter part

abbrev pub IsNoLetter : ℕ → Type 0
IsNoLetter c = (c < 65) ⊎ ((90 < c) × (c < 97)) ⊎ (122 < c)

-- A name that begins neither with a slash of either kind nor with a drive
abbrev pub IsRelative : Text → Type 0
IsRelative [] = ⊥
IsRelative (c ∷ []) = (c ≢ b'/') × (c ≢ 92)
IsRelative (c ∷ (d ∷ rest)) = (c ≢ b'/') × (c ≢ 92) × (IsNoLetter c ⊎ (d ≢ b':'))

abbrev IsPlain : ℕ → Type 0
IsPlain c = (c ≢ 92) × (c ≢ 0)

turned : (c : ℕ) → (if c == 92 then b'/' else c) ≢ 92
turned c h = ground arith

portable-IsPlain :
    (name : Text) → any (λ c. c == 0) (portable name) ≡ false → All IsPlain (portable name)
unfolding portable
portable-IsPlain [] h = tt
portable-IsPlain (c ∷ rest) h =
    ((turned c, λ e. ground arith), portable-IsPlain rest (ground arith))

glue-plain :
    (c : ℕ) (parts : List Text)
    → IsPathCharacter c
    → All (All IsPathCharacter) parts
    → All (All IsPathCharacter) (glue c parts)
glue-plain c [] h k = ((h, tt), tt)
glue-plain c (part ∷ rest) h k = ((h, k.0), k.1)

pieces-plain : (t : Text) → All IsPlain t → All (All IsPathCharacter) (pieces t)
unfolding pieces
pieces-plain [] h = (tt, tt)
pieces-plain (c ∷ rest) h = elim (Bool-cases (c == b'/')) [
  | inl slash ↦ rw slash (tt, pieces-plain rest h.1)
  | inr other ↦
      rw other
        (glue-plain c (pieces rest) (λ e. ground arith, h.0.0, h.0.1) (pieces-plain rest h.1))
]

unsafe-IsPart : (part : Text) → is_unsafe_part part ≡ false → All IsPathCharacter part → IsPart part
unsafe-IsPart [] h k = cc h
unsafe-IsPart (c ∷ part) h k = record {
  nonempty = omega arith;
  no_dot = λ e. ground (arith, text_eq_iff (c ∷ part) (codes "."));
  no_parent = λ e. ground (arith, text_eq_iff (c ∷ part) (codes ".."));
  characters = k;
}

either : (a b : Bool) → (a || b) ≡ false → (a ≡ false) × (b ≡ false)
either true b h = cc h
either false b h = (refl, h)

named_parts-AreParts :
    (parts : List Text)
    → All (All IsPathCharacter) parts
    → any is_unsafe_part (named_parts parts) ≡ false
    → All IsPart (named_parts parts)
unfolding named_parts
named_parts-AreParts [] k h = tt
named_parts-AreParts (part ∷ rest) k h =
    elim (Bool-cases (is_empty part || text_eq part (codes "."))) [
      | inl dropped ↦ rw dropped (named_parts-AreParts rest k.1 (rw dropped at h))
      | inr kept ↦
          let (safe, others) = either (is_unsafe_part part) _ (rw kept at h) in
          rw kept (unsafe-IsPart part safe k.0, named_parts-AreParts rest k.1 others)
    ]

unrooted : (t : Text) → first_is b'/' t ≡ false → posix_parts t ≡ named_parts (pieces t)
unfolding posix_parts pieces named_parts
unrooted [] h = refl
unrooted (c ∷ rest) h = rw h refl

relative :
    (name : Text)
    → is_empty (portable name) ≡ false
    → first_is b'/' (portable name) ≡ false
    → has_drive (portable name) ≡ false
    → IsRelative name
unfolding portable
relative [] h k d = cc h
relative (c ∷ []) h k d = (λ e. ground arith, λ e. ground arith)
relative (c ∷ (x ∷ rest)) h k d = (λ e. ground arith, λ e. ground arith, no_drive)
  where
    no_drive : IsNoLetter c ⊎ (x ≢ b':')
    no_drive = elim (Bool-cases (x == b':')) [
      | inl colon ↦ inl (ground arith)
      | inr other ↦ inr (λ e. ground arith)
    ]

-- The guards of a name
pub safe_member_parts-AreParts :
    (name : Text) (parts : List Text)
    → safe_member_parts name ≡ ok parts
    → IsRelative name × All IsPart parts
unfolding safe_member_parts
safe_member_parts-AreParts name parts h =
    let path = portable name in
    let split = posix_parts path in
    let unsafe = security_error "unsafe archive path" in
    let (named, h1) = >>-eq-ok _ (guard (not (any is_unsafe_part split)) unsafe >> ok split) h in
    let (safe, h2) = >>-eq-ok (guard (not (any is_unsafe_part split)) unsafe) (ok split) h1 in
    let (some_name, rest) = either (is_empty path) _ (not-true _ (guard-eq-ok _ _ named)) in
    let (no_root, rest') = either (first_is b'/' path) _ rest in
    let (no_drive, no_nul) = either (has_drive path) _ rest' in
    let same = unrooted path no_root in
    let clean = not-true (any is_unsafe_part split) (guard-eq-ok _ unsafe safe) in
    (
      relative name some_name no_root no_drive,
      subst (λ l. All IsPart l) (cc (sym same, h2))
          (named_parts-AreParts (pieces path) (pieces-plain path (portable-IsPlain name no_nul))
            (subst (λ l. any is_unsafe_part l ≡ false) same clean)),
    )
  where
    not-true : (b : Bool) → not b ≡ true → b ≡ false
    not-true true e = cc e
    not-true false e = refl
