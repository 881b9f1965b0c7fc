-- ===== src/Security.antt =====
-- The checks that `safe_extract_zip` of src/rechnungsprobe/security.py makes on the members of an
-- archive before it writes a file. `casefold` is Python's.
pub mod Parts
pub mod Members
use rechnungsprobe.Prelude.{
  ℕ, ◌+◌, ◌*◌, ◌/◌, ◌%◌, Text, codes, text_eq, contains, Bool, true, false, not, ◌&&◌, ◌||◌, any,
  ltb, leb, ◌==◌, List, [], ◌∷◌, ◌++◌, map, length, if◌then◌else◌,
}
use rechnungsprobe.Errors.{Result, ok, err, security_error, guard, ◌>>=◌, ◌>>◌}

-- The fields of `zipfile.ZipInfo` that the checks read
pub record ZipInfo : Type 0 where
  pub filename : Text
  pub create_system : ℕ
  pub external_attr : ℕ
  pub flag_bits : ℕ
  pub file_size : ℕ
  pub compress_size : ℕ

pub data Kind : Type 0 where
  directory file : Kind

-- The limits that are arguments of `safe_extract_zip`, the ratio as a whole number.
pub record ZipLimits : Type 0 where
  pub max_members : ℕ
  pub max_member_bytes : ℕ
  pub max_total_bytes : ℕ
  pub max_compression_ratio : ℕ

pub record Validated : Type 0 where
  pub entry : ZipInfo
  pub parts : List Text
  pub kind : Kind

-- `name.replace("\\", "/")`
unfoldable pub portable : Text → Text
portable [] = []
portable (c ∷ rest) = (if c == 92 then b'/' else c) ∷ portable rest

abbrev pub first_is : ℕ → Text → Bool
first_is c [] = false
first_is c (x ∷ rest) = x == c

abbrev is_letter : ℕ → Bool
is_letter c = leb 65 c && leb c 90 || (leb 97 c && leb c 122)

-- `_DRIVE_PREFIX.match`
abbrev pub has_drive : Text → Bool
has_drive [] = false
has_drive (c ∷ rest) = is_letter c && first_is b':' rest

abbrev pub is_empty : Text → Bool
is_empty [] = true
is_empty (c ∷ rest) = false

abbrev glue : ℕ → List Text → List Text
glue c [] = (c ∷ []) ∷ []
glue c (part ∷ rest) = (c ∷ part) ∷ rest

-- The pieces of a path between its slashes
unfoldable pub pieces : Text → List Text
pieces [] = [] ∷ []
pieces (c ∷ rest) = let more = pieces rest in if c == b'/' then [] ∷ more else glue c more

-- Empty pieces and dots fall away.
unfoldable pub named_parts : List Text → List Text
named_parts [] = []
named_parts (part ∷ rest) =
    let more = named_parts rest in
    if is_empty part || text_eq part (codes ".") then more else part ∷ more

-- The root of an absolute path: a slash, or two where the path begins with exactly two
abbrev root : Text → Text
root [] = codes "/"
root (c ∷ []) = if c == b'/' then codes "//" else codes "/"
root (c ∷ (d ∷ rest)) = if c == b'/' && not (d == b'/') then codes "//" else codes "/"

-- `PurePosixPath(name).parts`: the root of an absolute path is its first part.
unfoldable pub posix_parts : Text → List Text
unfolding pieces named_parts
posix_parts [] = []
posix_parts (c ∷ rest) =
    let names = named_parts (pieces (c ∷ rest)) in if c == b'/' then root rest ∷ names else names

abbrev pub is_unsafe_part : Text → Bool
is_unsafe_part part = is_empty part || (text_eq part (codes ".") || text_eq part (codes ".."))

unfoldable pub safe_member_parts : Text → Result (List Text)
unfolding portable posix_parts
safe_member_parts name = do
  let portable_name = portable name
  guard
      (not (
        is_empty portable_name
        || (first_is b'/' portable_name
            || (has_drive portable_name || any (λ c. c == 0) portable_name))))
      (security_error "unsafe archive path")
  let parts = posix_parts portable_name
  guard (not (any is_unsafe_part parts)) (security_error "unsafe archive path")
  ok parts

-- `stat.S_IFMT` of the mode in `external_attr`
unfoldable pub file_type : ZipInfo → ℕ
file_type entry =
    if entry.create_system == 3 then entry.external_attr / 65536 % 65536 / 4096 * 4096 else 0

-- `ZipInfo.is_dir`: the name ends in a slash.
unfoldable pub is_dir : Text → Bool
is_dir [] = false
is_dir (c ∷ []) = c == b'/'
is_dir (c ∷ (d ∷ rest)) = is_dir (d ∷ rest)

unfoldable pub entry_kind : ZipInfo → Result Kind
unfolding file_type is_dir
entry_kind entry = do
  guard (not (file_type entry == 40960)) (security_error "archive link is not allowed")
  guard (file_type entry == 0 || (file_type entry == 32768 || file_type entry == 16384))
      (security_error "special archive entry is not allowed")
  ok (if file_type entry == 16384 || is_dir entry.filename then directory else file)

-- `"/".join(parts)`
unfoldable pub joined : List Text → Text
joined [] = []
joined (part ∷ []) = part
joined (part ∷ (next ∷ rest)) = part ++ (b'/' ∷ joined (next ∷ rest))

abbrev pub is_suspicious : ZipLimits → ZipInfo → Bool
is_suspicious limits entry =
    not (entry.file_size == 0)
    && (entry.compress_size == 0
        || ltb (limits.max_compression_ratio * entry.compress_size) entry.file_size)

module _ (casefold : Text → Text) (limits : ZipLimits) where
  -- The loop over the entries, with the names seen and the bytes declared so far.
  unfoldable pub validate_entries : List Text → ℕ → List ZipInfo → Result (List Validated)
  unfolding safe_member_parts entry_kind joined
  validate_entries seen total [] = ok []
  validate_entries seen total (entry ∷ rest) = do
    parts ← safe_member_parts entry.filename
    let normalized = casefold (joined parts)
    guard (not (contains normalized seen)) (security_error "duplicate archive member")
    kind ← entry_kind entry
    guard (not (entry.flag_bits % 2 == 1))
        (security_error "encrypted archive members are not allowed")
    guard (leb entry.file_size limits.max_member_bytes)
        (security_error "archive member exceeds the size limit")
    guard (leb (total + entry.file_size) limits.max_total_bytes)
        (security_error "archive exceeds the total size limit")
    guard (not (is_suspicious limits entry))
        (security_error "archive member has a suspicious compression ratio")
    validated ← validate_entries (normalized ∷ seen) (total + entry.file_size) rest
    ok (record { entry = entry; parts = parts; kind = kind } ∷ validated)

  unfoldable pub validate_archive : List ZipInfo → Result (List Validated)
  unfolding validate_entries
  validate_archive entries = do
    guard (leb (length entries) limits.max_members) (security_error "archive has too many members")
    validate_entries [] 0 entries
