-- ===== src/Errors.antt =====
-- The errors that the program raises: `ModelError` of src/rechnungsprobe/model.py with what its
-- message names, the others by their message.
use rechnungsprobe.Prelude.{ℕ, String, Bool, true, false, ◌≡◌, refl}

-- What a message's prefix names.
pub data Place : Type 0 where
  document seller buyer : Place
  line_at : ℕ → Place

pub data ModelError : Type 0 where
  invalid_length : Place → String → ModelError
  control_character : Place → String → ModelError
  not_finite : Place → String → ModelError
  not_positive : Place → String → ModelError
  negative_number : Place → String → ModelError
  out_of_bounds : Place → String → ModelError
  country_code_form : Place → ModelError
  endpoint_form : Place → ModelError
  vat_category_form : Place → ModelError
  period_incomplete : Place → ModelError
  period_reversed : Place → ModelError
  classification_incomplete : Place → ModelError
  unsupported_currency : ModelError
  line_count : ModelError
  duplicate_line_identifier : ModelError
  several_vat_rates : ModelError
  due_date_before_issue : ModelError
  fingerprint_not_finite : ModelError
  -- Errors of parsing, with the path or the name in the message
  missing : String → ModelError
  not_a_decimal not_a_date : String → ModelError
  not_matching : String → ModelError

pub data Error : Type 0 where
  model_error : ModelError → Error
  -- `decimal.InvalidOperation`
  invalid_operation : Error
  value_error : String → Error
  security_error : String → Error
  runtime_error : String → Error
  index_error : Error
  overflow_error : Error
  type_error : Error
  key_error : Error
  -- The fuel of a loop of the model ran out; the program has no such error.
  out_of_fuel : Error

-- What a call gives: the error it raises, or its value.
pub data Result {ℓ} (A : Type ℓ) : Type ℓ where
  err : Error → Result A
  ok : A → Result A

pub ok-injective {ℓ} : {A : Type ℓ} {a b : A} → ok a ≡ ok b → a ≡ b
ok-injective h = cc h

infixl 5 ◌>>=◌ ◌>>◌
-- `if not test: raise error`.
abbrev pub guard : (test : Bool) (error : Error) → Result (Unit {0})
guard false error = err error
guard true error = ok tt

pub guard-eq-ok : (b : Bool) (e : Error) → guard b e ≡ ok tt → b ≡ true
guard-eq-ok true e h = refl
guard-eq-ok false e h = cc

-- Statements in sequence, the second with the value of the first.
abbrev pub ◌>>=◌ {ℓ κ} :
    {A : Type ℓ} {B : Type κ} (first : Result A) (next : A → Result B) → Result B
err error >>= next = err error
ok value >>= next = next value

abbrev pub ◌>>◌ {ℓ} : {B : Type ℓ} (check : Result (Unit {0})) (later : Result B) → Result B
check >> later = check >>= λ _. later

pub >>=-eq-ok {ℓ κ} :
    {B : Type κ} {A : Type ℓ} (first : Result A) (next : A → Result B) {result : B}
    → (first >>= next) ≡ ok result
    → (value : A) × (first ≡ ok value) × (next value ≡ ok result)
>>=-eq-ok (err error) next h = cc
>>=-eq-ok (ok value) next h = (value, refl, h)

pub >>-eq-ok {ℓ} :
    {B : Type ℓ} (m : Result (Unit {0})) (k : Result B) {b : B}
    → (m >> k) ≡ ok b
    → (m ≡ ok tt) × (k ≡ ok b)
>>-eq-ok (ok tt) k h = (refl, h)
>>-eq-ok (err e) k h = cc
