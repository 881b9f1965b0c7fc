-- ===== src/Predicates/Bounds.antt =====
-- The JSON values that `check_json_bounds` lets through.
use rechnungsprobe.Prelude.{ℕ, zero, suc, ◌+◌, ◌≤◌, length, leb, ◌≡◌, arith, leb→le}
use rechnungsprobe.Errors.{ok, security_error, guard, guard-eq-ok, ◌>>◌, >>=-eq-ok, >>-eq-ok}
use rechnungsprobe.Json.{
  Json, Items, Members, null, bool, integer, real, string, array, object, no_items, item,
  no_members, member,
}
use rechnungsprobe.Predicates.{check_value, check_items, check_members, check_json_bounds}

mutual
  -- The values in a value, itself counted
  pub value_count : Json → ℕ
  value_count (array items) = suc (items_count items)
  value_count (object members) = suc (members_count members)
  value_count value = 1

  pub items_count : Items → ℕ
  items_count no_items = 0
  items_count (item value rest) = value_count value + items_count rest

  pub members_count : Members → ℕ
  members_count no_members = 0
  members_count (member key value rest) = value_count value + members_count rest

mutual
  -- No value lies deeper than 32 levels, and no key is longer than 1000 characters.
  pub IsFlat : ℕ → Json → Type 0
  IsFlat depth (array items) = (depth ≤ 32) × AreFlat (suc depth) items
  IsFlat depth (object members) = (depth ≤ 32) × AreFlatMembers (suc depth) members
  IsFlat depth value = depth ≤ 32

  pub AreFlat : ℕ → Items → Type 0
  AreFlat depth no_items = Unit
  AreFlat depth (item value rest) = IsFlat depth value × AreFlat depth rest

  pub AreFlatMembers : ℕ → Members → Type 0
  AreFlatMembers depth no_members = Unit
  AreFlatMembers depth (member key value rest) =
      (length key ≤ 1000) × IsFlat depth value × AreFlatMembers depth rest

leaf-IsFlat :
    (depth budget left : ℕ)
    → (guard (leb depth 32) (security_error "JSON output exceeds structural limits") >> ok budget)
      ≡ ok left
    → (left + 1 ≡ suc budget) × (depth ≤ 32)
leaf-IsFlat depth budget left h =
    let (shallow, h1) =
      >>-eq-ok (guard (leb depth 32) (security_error "JSON output exceeds structural limits"))
        (ok budget) h in
    let same : budget ≡ left = cc h1 in (omega arith, leb→le _ _ (guard-eq-ok _ _ shallow))

mutual
  unfolding check_value value_count IsFlat

  check_value-IsFlat :
      (value : Json) (depth budget left : ℕ)
      → check_value value depth budget ≡ ok left
      → (left + value_count value ≡ budget) × IsFlat depth value
  check_value-IsFlat value depth zero left h = cc h
  check_value-IsFlat null depth (suc budget) left h = leaf-IsFlat depth budget left h
  check_value-IsFlat (bool b) depth (suc budget) left h = leaf-IsFlat depth budget left h
  check_value-IsFlat (integer n) depth (suc budget) left h = leaf-IsFlat depth budget left h
  check_value-IsFlat (real n) depth (suc budget) left h = leaf-IsFlat depth budget left h
  check_value-IsFlat (string s) depth (suc budget) left h = leaf-IsFlat depth budget left h
  check_value-IsFlat (array items) depth (suc budget) left h =
      let (shallow, h1) = >>-eq-ok (guard (leb depth 32) _) _ h in
      let (count, flat) = check_items-AreFlat items (suc depth) budget left h1 in
      (omega arith, (leb→le _ _ (guard-eq-ok _ _ shallow), flat))
  check_value-IsFlat (object members) depth (suc budget) left h =
      let (shallow, h1) = >>-eq-ok (guard (leb depth 32) _) _ h in
      let (count, flat) = check_members-AreFlat members (suc depth) budget left h1 in
      (omega arith, (leb→le _ _ (guard-eq-ok _ _ shallow), flat))

  check_items-AreFlat :
      (items : Items) (depth budget left : ℕ)
      → check_items items depth budget ≡ ok left
      → (left + items_count items ≡ budget) × AreFlat depth items
  check_items-AreFlat no_items depth budget left h =
      let same : budget ≡ left = cc h in (omega arith, tt)
  check_items-AreFlat (item value rest) depth budget left h =
      let (middle, first, later) = >>=-eq-ok (check_value value depth budget) _ h in
      let (count, flat) = check_value-IsFlat value depth budget middle first in
      let (counts, flats) = check_items-AreFlat rest depth middle left later in
      (omega arith, (flat, flats))

  check_members-AreFlat :
      (members : Members) (depth budget left : ℕ)
      → check_members members depth budget ≡ ok left
      → (left + members_count members ≡ budget) × AreFlatMembers depth members
  check_members-AreFlat no_members depth budget left h =
      let same : budget ≡ left = cc h in (omega arith, tt)
  check_members-AreFlat (member key value rest) depth budget left h =
      let (short, h1) = >>-eq-ok (guard (leb (length key) 1000) _) _ h in
      let (middle, first, later) = >>=-eq-ok (check_value value depth budget) _ h1 in
      let (count, flat) = check_value-IsFlat value depth budget middle first in
      let (counts, flats) = check_members-AreFlat rest depth middle left later in
      (omega arith, (leb→le _ _ (guard-eq-ok _ _ short), flat, flats))

-- A JSON value that `check_json_bounds` lets through has at most 10000 values, itself counted, no
-- value below level 32 and no key of more than 1000 characters.
pub check_json_bounds_lem :
    (value : Json) (left : ℕ)
    → check_json_bounds value ≡ ok left
    → (value_count value ≤ 10000) × IsFlat 0 value
unfolding check_json_bounds
check_json_bounds_lem value left h =
    let (count, flat) = check_value-IsFlat value 0 10000 left h in (omega arith, flat)
