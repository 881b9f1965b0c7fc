-- ===== src/Model/Xml.antt =====
-- The element trees that src/rechnungsprobe/model.py builds, and `ElementTree.tostring` on them with
-- an XML declaration and short empty elements. A document is the list of its code points; the bytes
-- of the program are their UTF-8 encoding.
use rechnungsprobe.Prelude.{
  String, Text, codes, Option, none, some, List, [], ◌∷◌, ◌++◌, ◌==◌, if◌then◌else◌,
}

pub data Namespace : Type 0 where
  ubl cbc cac : Namespace

mutual
  pub data Element : Type 0 where
    element : Namespace → String → Option Text → List (String × Text) → Elements → Element

  pub data Elements : Type 0 where
    nil : Elements
    cons : Element → Elements → Elements

abbrev pub children : List Element → Elements
children [] = nil
children (x ∷ xs) = cons x (children xs)

-- An element that `_add` appends: it has no children yet.
abbrev pub leaf : Namespace → String → Text → List (String × Text) → Element
leaf ns local text attributes = element ns local (some text) attributes nil

abbrev pub branch : Namespace → String → List Element → Element
branch ns local parts = element ns local none [] (children parts)

-- `if value is not None: _add(parent, namespace, local, value)`
abbrev pub optional_leaf : Namespace → String → Option Text → List Element
optional_leaf ns local none = []
optional_leaf ns local (some text) = leaf ns local text [] ∷ []

escape_cdata : Text → Text
escape_cdata [] = []
escape_cdata (c ∷ rest) =
    let tail = escape_cdata rest in
    if c == b'&'
    then codes "&amp;" ++ tail
    else if c == b'<'
    then codes "&lt;" ++ tail
    else if c == b'>'
    then codes "&gt;" ++ tail
    else c ∷ tail

escape_attribute : Text → Text
escape_attribute [] = []
escape_attribute (c ∷ rest) =
    let tail = escape_attribute rest in
    if c == b'&'
    then codes "&amp;" ++ tail
    else if c == b'<'
    then codes "&lt;" ++ tail
    else if c == b'>'
    then codes "&gt;" ++ tail
    else if c == 34
    then codes "&quot;" ++ tail
    else if c == 13
    then codes "&#13;" ++ tail
    else if c == 10
    then codes "&#10;" ++ tail
    else if c == 9
    then codes "&#09;" ++ tail
    else c ∷ tail

prefix : Namespace → Text
prefix ubl = codes "ubl:"
prefix cbc = codes "cbc:"
prefix cac = codes "cac:"

attributes_text : List (String × Text) → Text
unfolding escape_attribute
attributes_text [] = []
attributes_text ((name, value) ∷ rest) =
    codes " " ++ (codes name ++ (61 ∷ 34 ∷ escape_attribute value ++ (34 ∷ attributes_text rest)))

-- Whether the element's text or children are written between two tags.
abbrev has_content : Option Text → Elements → Text → Text → Text
has_content none nil full short = short
has_content (some []) nil full short = short
has_content _ _ full short = full

abbrev text_of : Option Text → Text
text_of none = []
text_of (some t) = t

mutual
  unfolding escape_cdata prefix attributes_text

  element_text : Element → Text → Text
  element_text (element ns local text attributes parts) declarations =
      let name = prefix ns ++ codes local in
      let inner = elements_text parts in
      b'<'
      ∷ (name
          ++ (declarations
              ++ (attributes_text attributes
                  ++ has_content text parts
                      (b'>'
                        ∷ (escape_cdata (text_of text)
                            ++ (inner ++ (b'<' ∷ b'/' ∷ (name ++ (b'>' ∷ []))))))
                      (codes " />"))))

  elements_text : Elements → Text
  elements_text nil = []
  elements_text (cons x xs) = element_text x [] ++ elements_text xs

-- The three namespaces, all in use in every invoice, in the order of their prefixes.
namespace_declarations : Text
namespace_declarations =
    codes " xmlns:cac=\"urn:oasis:names:specification:ubl:schema:xsd:CommonAggregateComponents-2\""
    ++ (codes " xmlns:cbc=\"urn:oasis:names:specification:ubl:schema:xsd:CommonBasicComponents-2\""
        ++ codes " xmlns:ubl=\"urn:oasis:names:specification:ubl:schema:xsd:Invoice-2\"")

unfoldable pub tostring : Element → Text
unfolding element_text namespace_declarations
tostring root =
    codes "<?xml version='1.0' encoding='utf-8'?>"
    ++ (10 ∷ element_text root namespace_declarations)
