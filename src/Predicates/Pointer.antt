-- ===== src/Predicates/Pointer.antt =====
-- `JsonPredicate` of src/rechnungsprobe/predicates.py, and the `evaluate` of every predicate.
use rechnungsprobe.Prelude.{
  ℕ, zero, suc, Text, codes, Bool, true, false, not, ◌&&◌, ◌==◌, leb, all, Option, none, some, List,
  [], ◌∷◌, ◌++◌, length, if◌then◌else◌,
}
use rechnungsprobe.Prelude.Eq.{is_equal, text_Eq, int_Eq, bool_Eq}
use rechnungsprobe.Errors.{Result, ok, err, security_error, value_error, guard, ◌>>=◌, ◌>>◌}
use rechnungsprobe.Json.{
  Json, Items, null, bool, integer, string, array, object, no_items, item, get,
}
use rechnungsprobe.Json.Strict.{Runtime, strict_json}
use rechnungsprobe.Target.{TargetResult}
use rechnungsprobe.Predicates.{PredicateEvaluation, check_json_bounds}
use rechnungsprobe.Replay.Defs.{JsonScalar, text, number, flag, nothing}

-- `str.split("/")`: the parts, of which there is always one.
unfoldable pub split_parts : Text → List Text
split_parts [] = [] ∷ []
split_parts (c ∷ rest) =
    let others = split_parts rest in
    if c == 47
    then [] ∷ others
    else elim others [ [] ↦ (c ∷ []) ∷ [] | first ∷ more ↦ (c ∷ first) ∷ more ]

-- `str.replace(a + b, c)` for a pattern of two characters that cannot overlap itself
unfoldable pub replace_pair : ℕ → ℕ → ℕ → Text → Text
replace_pair a b c [] = []
replace_pair a b c (x ∷ []) = x ∷ []
replace_pair a b c (x ∷ (y ∷ rest)) =
    let replaced = replace_pair a b c rest in
    let kept = replace_pair a b c (y ∷ rest) in if x == a && y == b then c ∷ replaced else x ∷ kept

-- `raw_part.replace("~1", "/").replace("~0", "~")`
unfoldable pub unescape : Text → Text
unfolding replace_pair
unescape part = replace_pair 126 48 126 (replace_pair 126 49 47 part)

abbrev pub item_at : Items → ℕ → Option Json
item_at no_items n = none
item_at (item value rest) zero = some value
item_at (item value rest) (suc n) = item_at rest n

abbrev unresolved : {A : Type 0} → Result A
unresolved = err (security_error "JSON pointer does not resolve")

abbrev found : Option Json → Result Json
found none = unresolved
found (some value) = ok value

-- `str.isdigit`
abbrev pub all_digits : Runtime → Text → Bool
all_digits python part = not (length part == 0) && all python.is_digit part

-- `int(part)` raises `ValueError` for digits that are not decimal, as in "²".
abbrev index_of : Option ℕ → Result ℕ
index_of none = err (value_error "invalid literal for int() with base 10")
index_of (some n) = ok n

unfoldable pub resolve_part : Runtime → Json → Text → Result Json
resolve_part python (object members) part = found (get part members)
resolve_part python (array items) part = do
  guard (all_digits python part) (security_error "JSON pointer does not resolve")
  n ← index_of (python.int_of part)
  found (item_at items n)
resolve_part python other part = unresolved

unfoldable pub resolve : Runtime → Json → List Text → Result Json
unfolding resolve_part unescape
resolve python current [] = ok current
resolve python current (raw_part ∷ rest) = do
  next ← resolve_part python current (unescape raw_part)
  resolve python next rest

unfoldable pub json_pointer : Runtime → Json → Text → Result Json
unfolding resolve split_parts
json_pointer python value [] = ok value
json_pointer python value (c ∷ rest) = do
  guard (c == 47 && leb (length (c ∷ rest)) 1000) (security_error "JSON pointer is invalid")
  resolve python value (split_parts rest)

-- Equal, and of the same type
unfoldable pub is_expected : Json → JsonScalar → Bool
is_expected (string a) (text b) = is_equal a b
is_expected (integer a) (number b) = is_equal a b
is_expected (bool a) (flag b) = is_equal a b
is_expected null nothing = true
is_expected value expected = false

unfoldable pub evaluate_json :
    Runtime → Text → JsonScalar → TargetResult → Result PredicateEvaluation
unfolding json_pointer is_expected
evaluate_json python pointer expected result = do
  guard (leb (length result.process.stdout) 1048576)
      (security_error "JSON output exceeds the size limit")
  value ← strict_json python result.process.stdout 1048576
  _ ← check_json_bounds value
  actual ← json_pointer python value pointer
  ok (record {
    predicate = codes "stdout-json";
    matched = is_expected actual expected;
    details = (codes "pointer=" ++ pointer) ∷ [];
  })
