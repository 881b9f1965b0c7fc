-- ===== src/Xmlsafe.antt =====
-- The Expat preflight of `parse_xml_bytes` in src/rechnungsprobe/xmlsafe.py: its handlers as a step
-- on the variables they share, over the events that Expat reports for a document.
pub mod Bounds
pub mod Events
use rechnungsprobe.Prelude.{
  ℕ, ◌+◌, ◌-◌, ◌*◌, Text, codes, text_eq, Bool, true, false, not, ◌&&◌, ◌||◌, any, ltb, leb, ◌==◌,
  Option, none, some, List, [], ◌∷◌, ◌++◌, length, if◌then◌else◌,
}
use rechnungsprobe.Errors.{Result, ok, err, security_error, index_error, guard, ◌>>=◌, ◌>>◌}

pub record XmlLimits : Type 0 where
  pub max_bytes : ℕ
  pub max_depth : ℕ
  pub max_elements : ℕ
  pub max_attributes : ℕ
  pub max_attributes_per_element : ℕ
  pub max_attribute_text : ℕ
  pub max_text : ℕ
  pub max_attachment_text : ℕ

abbrev pub default_limits : XmlLimits
default_limits = record {
  max_bytes = 2 * 1024 * 1024;
  max_depth = 64;
  max_elements = 20000;
  max_attributes = 50000;
  max_attributes_per_element = 100;
  max_attribute_text = 64 * 1024;
  max_text = 2 * 1024 * 1024;
  max_attachment_text = 512 * 1024;
}

-- What Expat reports. An active feature is a DOCTYPE, an entity declaration or reference.
pub data Event : Type 0 where
  start : Text → List (Text × Text) → Event
  end : Text → Event
  characters : Text → Event
  active_feature : Event

-- The shared variables; `open_elements` holds `element_names` and `element_text`, the last first.
pub record Preflight : Type 0 where
  pub depth : ℕ
  pub element_count : ℕ
  pub attribute_count : ℕ
  pub text_count : ℕ
  pub open_elements : List (Text × ℕ)

abbrev pub at_start : Preflight
at_start = record {
  depth = 0;
  element_count = 0;
  attribute_count = 0;
  text_count = 0;
  open_elements = [];
}

-- The text after the last `}`, if there is one, with the text before it.
unfoldable pub split_last : Text → Option (Text × Text)
split_last [] = none
split_last (c ∷ rest) = elim (split_last rest) [
  | some (before, after) ↦ some (c ∷ before, after)
  | none ↦ if c == b'}' then some ([], rest) else none
]

unfoldable pub namespace_and_local : Text → Text × Text
unfolding split_last
namespace_and_local name = elim (split_last name) [ some parts ↦ parts | none ↦ ([], name) ]

abbrev pub is_xinclude : Text × Text → Bool
is_xinclude (namespace, local) =
    text_eq namespace (codes "http://www.w3.org/2001/XInclude")
    && (text_eq local (codes "include") || text_eq local (codes "fallback"))

abbrev pub is_attachment : Text → Bool
is_attachment local = text_eq local (codes "EmbeddedDocumentBinaryObject")

module _ (limits : XmlLimits) where
  unfoldable pub start_element : Preflight → Text → List (Text × Text) → Result Preflight
  unfolding namespace_and_local
  start_element s name attributes = do
    let depth = s.depth + 1
    let element_count = s.element_count + 1
    let attribute_count = s.attribute_count + length attributes
    guard (leb depth limits.max_depth) (security_error "XML exceeds the depth limit")
    guard (leb element_count limits.max_elements) (security_error "XML has too many elements")
    guard (leb (length attributes) limits.max_attributes_per_element)
        (security_error "XML element has too many attributes")
    guard (leb attribute_count limits.max_attributes) (security_error "XML has too many attributes")
    guard (not (any (λ a. ltb limits.max_attribute_text (length a.1)) attributes))
        (security_error "XML attribute exceeds the text limit")
    guard (not (is_xinclude (namespace_and_local name))) (security_error "XInclude is not allowed")
    ok (record {
      depth = depth;
      element_count = element_count;
      attribute_count = attribute_count;
      text_count = s.text_count;
      open_elements = ((namespace_and_local name).1, 0) ∷ s.open_elements;
    })

  unfoldable pub end_element : Preflight → Result Preflight
  end_element s = elim s.open_elements [
    | [] ↦ err index_error
    | top ∷ below ↦ ok (record s { depth = s.depth - 1; open_elements = below })
  ]

  -- The characters count for the innermost open element.
  abbrev pub add_text : Preflight → ℕ → List (Text × ℕ) → Result Preflight
  add_text s count [] = ok (record s { text_count = s.text_count + count })
  add_text s count ((local, size) ∷ below) = do
    guard (not (is_attachment local && ltb limits.max_attachment_text (size + count)))
        (security_error "XML attachment exceeds the text limit")
    ok (record s {
      text_count = s.text_count + count;
      open_elements = (local, size + count) ∷ below;
    })

  unfoldable pub character_data : Preflight → Text → Result Preflight
  character_data s value = do
    guard (leb (s.text_count + length value) limits.max_text)
        (security_error "XML exceeds the text limit")
    add_text s (length value) s.open_elements

  unfoldable pub handle : Preflight → Event → Result Preflight
  unfolding start_element end_element character_data
  handle s (start name attributes) = start_element s name attributes
  handle s (end name) = end_element s
  handle s (characters value) = character_data s value
  handle s active_feature = err (security_error "DTD and entity features are not allowed")

  unfoldable pub handle_all : Preflight → List Event → Result Preflight
  handle_all s [] = ok s
  handle_all s (e ∷ rest) = do next ← handle s e; handle_all next rest

  -- The preflight of a document of `size` bytes whose events are given.
  unfoldable pub preflight : ℕ → List Event → Result Preflight
  unfolding handle_all
  preflight size events = do
    guard (leb size limits.max_bytes) (security_error "XML exceeds the size limit")
    handle_all at_start events
