-- ===== src/Json.antt =====
-- The values that `json.loads` returns, and the tests that the program makes on them. An object is
-- the list of its members; `strict_json` of src/rechnungsprobe/reporting.py admits no key twice.
pub mod Strict
use rechnungsprobe.Prelude.{
  Text, text_eq, contains, Bool, true, false, ◌&&◌, all, Option, none, some, List, [], ◌∷◌, map,
  ◌≡◌, refl, if◌then◌else◌,
}
use rechnungsprobe.Prelude.Int.{ℤ}

mutual
  pub data Json : Type 0 where
    null : Json
    bool : Bool → Json
    integer : ℤ → Json
    -- A float, by its text
    real : Text → Json
    string : Text → Json
    array : Items → Json
    object : Members → Json

  pub data Items : Type 0 where
    no_items : Items
    item : Json → Items → Items

  pub data Members : Type 0 where
    no_members : Members
    member : Text → Json → Members → Members

abbrev pub to_members : List (Text × Json) → Members
to_members [] = no_members
to_members ((key, value) ∷ rest) = member key value (to_members rest)

abbrev pub object_of : List (Text × Json) → Json
object_of pairs = object (to_members pairs)

-- `payload.get(key)`
unfoldable pub get : Text → Members → Option Json
get key no_members = none
get key (member name value rest) =
    let later = get key rest in if text_eq name key then some value else later

abbrev pub keys : Members → List Text
keys no_members = []
keys (member name value rest) = name ∷ keys rest

-- `set(payload) == {...}`
unfoldable pub has_keys : List Text → Members → Bool
unfolding contains
has_keys expected members =
    all (λ key. contains key expected) (keys members)
    && all (λ key. contains key (keys members)) expected

abbrev pub to_items : List Text → Items
to_items [] = no_items
to_items (text ∷ rest) = item (string text) (to_items rest)

abbrev and_text : Text → Option (List Text) → Option (List Text)
and_text text none = none
and_text text (some rest) = some (text ∷ rest)

-- The texts of an array of strings, or nothing if some item is no string.
unfoldable pub texts_of : Items → Option (List Text)
texts_of no_items = some []
texts_of (item (string text) rest) = and_text text (texts_of rest)
texts_of (item value rest) = none

pub texts_of-to_items : (texts : List Text) → texts_of (to_items texts) ≡ some texts
unfolding texts_of
texts_of-to_items [] = refl
texts_of-to_items (text ∷ rest) = rw (texts_of-to_items rest) refl
