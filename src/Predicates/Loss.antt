-- ===== src/Predicates/Loss.antt =====
-- `DeclaredFieldLossPredicate` of src/rechnungsprobe/predicates.py. `tree_of` is the XML parser.
use rechnungsprobe.Prelude.{
  Text, codes, text_eq, contains, Bool, true, false, not, ◌&&◌, leb, Option, none, some, List, [],
  ◌∷◌, map, all, length, if◌then◌else◌,
}
use rechnungsprobe.Errors.{Result, ok, err, model_error, security_error, guard, ◌>>=◌, ◌>>◌}
use rechnungsprobe.Decimal.{Decimal, normalize, format_plain}
use rechnungsprobe.Model.Invoice.{Date, InvoiceLine, Invoice, Host, Reader, isoformat}
use rechnungsprobe.Model.Xml.{Element}
use rechnungsprobe.Model.Parse.Document.{parse_tree}
use rechnungsprobe.Target.{TargetResult}
use rechnungsprobe.Predicates.{EvaluationContext, PredicateEvaluation}

-- What a selector selects: a scalar, or one for each line
pub data Selected : Type 0 where
  one : Option Text → Selected
  many : List (Option Text) → Selected

unfoldable pub scalar_decimal : Decimal → Option Text
scalar_decimal value = some (format_plain (normalize value))

abbrev pub scalar_date : Option Date → Option Text
scalar_date none = none
scalar_date (some d) = some (isoformat d)

abbrev pub each : (InvoiceLine → Option Text) → Invoice → Selected
each get i = many (map get i.lines)

-- `_FIELD_SELECTORS`, each with what `_field_value` returns for it
unfoldable pub field_selectors : List (Text × (Invoice → Selected))
unfolding scalar_decimal
field_selectors =
    (codes "identifier", λ i. one (some i.identifier))
    ∷ (codes "buyer_reference", λ i. one (some i.buyer_reference))
    ∷ (codes "issue_date", λ i. one (some (isoformat i.issue_date)))
    ∷ (codes "payment_terms", λ i. one (some i.payment_terms))
    ∷ (codes "payment_due_date", λ i. one (scalar_date i.payment_due_date))
    ∷ (codes "seller.endpoint", λ i. one (some i.seller.endpoint))
    ∷ (codes "seller.registration_name", λ i. one (some i.seller.registration_name))
    ∷ (codes "seller.party_identifier", λ i. one i.seller.party_identifier)
    ∷ (codes "buyer.endpoint", λ i. one (some i.buyer.endpoint))
    ∷ (codes "buyer.registration_name", λ i. one (some i.buyer.registration_name))
    ∷ (codes "lines.identifier", each λ l. some l.identifier)
    ∷ (codes "lines.name", each λ l. some l.name)
    ∷ (codes "lines.description", each λ l. l.description)
    ∷ (codes "lines.note", each λ l. l.note)
    ∷ (codes "lines.quantity", each λ l. scalar_decimal l.quantity)
    ∷ (codes "lines.price", each λ l. scalar_decimal l.price)
    ∷ (codes "lines.vat_rate", each λ l. scalar_decimal l.vat_rate)
    ∷ []

unfoldable pub selected_by : Text → List (Text × (Invoice → Selected)) → Invoice → Result Selected
selected_by selector [] i = err (security_error "unsupported field selector")
selected_by selector ((key, get) ∷ rest) i =
    let later = selected_by selector rest i in if text_eq key selector then ok (get i) else later

unfoldable pub field_value : Invoice → Text → Result Selected
unfolding selected_by field_selectors
field_value i selector = selected_by selector field_selectors i

abbrev pub option_eq : Option Text → Option Text → Bool
option_eq none none = true
option_eq (some a) (some b) = text_eq a b
option_eq a b = false

abbrev pub options_eq : List (Option Text) → List (Option Text) → Bool
options_eq [] [] = true
options_eq (a ∷ xs) (b ∷ ys) = option_eq a b && options_eq xs ys
options_eq xs ys = false

abbrev pub selected_eq : Selected → Selected → Bool
selected_eq (one a) (one b) = option_eq a b
selected_eq (many a) (many b) = options_eq a b
selected_eq a b = false

abbrev are_distinct : List Text → Bool
are_distinct [] = true
are_distinct (x ∷ xs) = not (contains x xs) && are_distinct xs

-- `__post_init__`
unfoldable pub check_fields : List Text → Result (Unit {0})
unfolding field_selectors
check_fields fields = do
  guard (leb 1 (length fields) && (leb (length fields) 32 && are_distinct fields))
      (security_error "field selector list is invalid")
  guard (all (λ field. contains field (map (λ row. row.0) field_selectors)) fields)
      (security_error "unsupported field selector")

unfoldable pub lost_fields : List Text → Invoice → Invoice → Result (List Text)
unfolding field_value
lost_fields [] source output = ok []
lost_fields (field ∷ rest) source output = do
  before ← field_value source field
  after ← field_value output field
  lost ← lost_fields rest source output
  ok (if selected_eq before after then lost else field ∷ lost)

abbrev evaluation : Bool → List Text → PredicateEvaluation
evaluation matched details = record {
  predicate = codes "declared-field-loss";
  matched = matched;
  details = details;
}

abbrev is_nonempty : List Text → Bool
is_nonempty [] = false
is_nonempty (x ∷ xs) = true

-- The `try`: errors of the model and of security are a match, others pass.
abbrev compared : List Text → Result (Invoice × Invoice) → Result PredicateEvaluation
compared fields (err (model_error e)) =
    ok (evaluation true (codes "output is not a comparable supported invoice" ∷ []))
compared fields (err (security_error e)) =
    ok (evaluation true (codes "output is not a comparable supported invoice" ∷ []))
compared fields (err e) = err e
compared fields (ok (source, output)) = do
  lost ← lost_fields fields source output
  ok (evaluation (is_nonempty lost) lost)

module _ ⦃host : Host⦄ ⦃reader : Reader⦄ (tree_of : Text → Result Element) where
  unfoldable pub parse_both : Text → Text → Result (Invoice × Invoice)
  parse_both input output_xml = do
    source_tree ← tree_of input
    source ← parse_tree source_tree
    output_tree ← tree_of output_xml
    output ← parse_tree output_tree
    ok (source, output)

  unfoldable pub evaluate_loss :
      List Text → TargetResult → EvaluationContext → Result PredicateEvaluation
  unfolding parse_both lost_fields
  evaluate_loss fields result context = elim result.output_xml [
    | none ↦ ok (evaluation true (codes "output XML is missing" ∷ []))
    | some xml ↦ compared fields (parse_both context.input_xml xml)
  ]
