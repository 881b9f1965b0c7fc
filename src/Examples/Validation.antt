-- ===== src/Examples/Validation.antt =====
-- Validation, parsing and the bounds on JSON output at concrete inputs.
use rechnungsprobe.Prelude.{[], ◌≤◌, ◌≡◌, ◌↔◌, refl, codes}
use rechnungsprobe.Json.{Json, null, array, object, no_items, item, no_members, member}
use rechnungsprobe.Predicates.{check_json_bounds}
use rechnungsprobe.Prelude.{List, Text, ◌∷◌, All}
use rechnungsprobe.Predicates.Loss.{lost_fields}
use rechnungsprobe.Predicates.Kept.{IsKept, lost_fields-AreKept}
use rechnungsprobe.Predicates.Bounds.{value_count, IsFlat, check_json_bounds_lem}
use rechnungsprobe.Errors.{ok}
use rechnungsprobe.Model.Xml.{Element, branch, ubl}
use rechnungsprobe.Model.Serialize.{invoice_tree}
use rechnungsprobe.Model.Parse.Document.{parse_tree}
use rechnungsprobe.Examples.Shrinking.{value_or}
use rechnungsprobe.Model.Validate.{validate}
use rechnungsprobe.Model.Validate.Exact.{IsValid, validate_exact}
use rechnungsprobe.Samples.{plain_reader, plain_host, sample_invoice}
use rechnungsprobe.Examples.{program}

sample_validates : validate sample_invoice ≡ ok tt
unfolding program
sample_validates = refl

validate_exact_example : (validate sample_invoice ≡ ok tt) ↔ IsValid sample_invoice
validate_exact_example = validate_exact sample_invoice

unfoldable pub tree : Element
unfolding program
tree = value_or (branch ubl "Invoice" []) (invoice_tree sample_invoice)

-- The tree that the sample invoice is written to is read back as the invoice.
sample_parses : parse_tree tree ≡ ok sample_invoice
unfolding program tree
sample_parses = refl

abbrev sample_json : Json
sample_json = object (member (codes "a") (array (item null (item null no_items))) no_members)

sample_json_passes : check_json_bounds sample_json ≡ ok 9996
unfolding program
sample_json_passes = refl

check_json_bounds_lem_example : (value_count sample_json ≤ 10000) × IsFlat 0 sample_json
check_json_bounds_lem_example = check_json_bounds_lem sample_json 9996 sample_json_passes

abbrev fields : List Text
fields = codes "identifier" ∷ codes "lines.price" ∷ []

sample_keeps : lost_fields fields sample_invoice sample_invoice ≡ ok []
unfolding program
sample_keeps = refl

lost_fields-AreKept_example : All (IsKept sample_invoice sample_invoice) fields
lost_fields-AreKept_example = lost_fields-AreKept fields sample_invoice sample_invoice sample_keeps
