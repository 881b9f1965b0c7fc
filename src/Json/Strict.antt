-- ===== src/Json/Strict.antt =====
-- `strict_json` of src/rechnungsprobe/reporting.py. `Runtime` is what it takes from Python: the strict
-- UTF-8 decoder, `json.loads` with the hooks that refuse duplicate keys, long and non-finite numbers,
-- and the digits of `str.isdigit` and `int`. `json.loads` raises no `RecursionError` on a document that
-- is nested at most 64 deep.
use rechnungsprobe.Prelude.{
  ℕ, suc, Text, Bool, true, false, not, ◌||◌, ◌==◌, leb, Option, none, some, [], ◌∷◌, length,
  if◌then◌else◌,
}
use rechnungsprobe.Prelude.Int.{ℤ, pos, negsuc, ltb_ℤ, ◌+ℤ◌}
use rechnungsprobe.Errors.{
  Result, ok, err, security_error, value_error, overflow_error, guard, ◌>>=◌, ◌>>◌,
}
use rechnungsprobe.Json.{Json}

pub record Runtime : Type 0 where
  pub decode : Text → Option Text
  pub loads : Text → Result Json
  pub is_digit : ℕ → Bool
  -- `int`; `none` for `ValueError`
  pub int_of : Text → Option ℕ

pub record Scan : Type 0 where
  pub depth : ℤ
  pub structural_tokens : ℕ
  pub in_string : Bool
  pub escaped : Bool

abbrev pub is_opening : ℕ → Bool
is_opening c = c == 91 || c == 123

abbrev pub is_closing : ℕ → Bool
is_closing c = c == 93 || c == 125

abbrev pub is_separator : ℕ → Bool
is_separator c = c == 44 || c == 58

-- A character inside a string
unfoldable pub scan_inside : Scan → ℕ → Scan
scan_inside s c =
    if s.escaped
    then record s { escaped = false }
    else if c == 92
    then record s { escaped = true }
    else if c == 34
    then record s { in_string = false }
    else s

-- The chain of tests on a character outside a string
unfoldable pub scan_outside : Scan → ℕ → Result Scan
scan_outside s c =
    if c == 34
    then ok (record s { in_string = true })
    else if is_opening c
    then (guard (not (ltb_ℤ (pos 64) (s.depth +ℤ pos 1)))
          (security_error "JSON document exceeds the nesting limit")
        >> ok (record s { depth = s.depth +ℤ pos 1; structural_tokens = suc s.structural_tokens }))
    else if is_closing c
    then ok (record s { depth = s.depth +ℤ negsuc 0 })
    else if is_separator c
    then ok (record s { structural_tokens = suc s.structural_tokens })
    else ok s

unfoldable pub scan : Scan → Text → Result Scan
unfolding scan_inside scan_outside
scan s [] = ok s
scan s (c ∷ rest) =
    let inside = scan (scan_inside s c) rest in
    let outside =
      (scan_outside s c >>= λ t.
      guard (leb t.structural_tokens 100000)
        (security_error "JSON document exceeds the structural limit")
      >> scan t rest) in
    if s.in_string then inside else outside

abbrev pub scan_start : Scan
scan_start = record { depth = pos 0; structural_tokens = 0; in_string = false; escaped = false }

-- The handlers around `json.loads`
abbrev pub strict : {A : Type 0} → Result A → Result A
strict (err (value_error message)) = err (security_error "document is not strict JSON")
strict (err overflow_error) = err (security_error "document is not strict JSON")
strict other = other

abbrev pub decoded : Option Text → Result Text
decoded none = err (security_error "document is not strict JSON")
decoded (some text) = ok text

unfoldable pub strict_json : Runtime → Text → ℕ → Result Json
unfolding scan
strict_json python document max_bytes = do
  guard (leb (length document) max_bytes) (security_error "JSON document exceeds the size limit")
  text ← decoded (python.decode document)
  _ ← scan scan_start text
  strict (python.loads text)
