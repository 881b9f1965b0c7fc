-- ===== src/Xmlsafe/Events.antt =====
-- The preflight of src/rechnungsprobe/xmlsafe.py against counts that are taken of the events alone.
use mathlib.Core.Path.{subst}
use rechnungsprobe.Prelude.{
  ◌-◌, ltb, leb, not, ◌&&◌, ℕ, ◌+◌, ◌≤◌, Text, List, [], ◌∷◌, length, ◌≡◌, refl, sym, arith, leb→le,
  All,
}
use rechnungsprobe.Errors.{
  ok, err, index_error, security_error, guard, guard-eq-ok, ok-injective, >>=-eq-ok, >>-eq-ok,
}
use rechnungsprobe.Xmlsafe.{
  XmlLimits, Event, start, end, characters, active_feature, Preflight, at_start,
  namespace_and_local, is_attachment, add_text, start_element, end_element, character_data, handle,
  handle_all, preflight,
}
use rechnungsprobe.Xmlsafe.Bounds.{
  Fits, IsWithin, IsHarmless, at_start-IsWithin, start-IsWithin, handle-IsWithin,
  handle_all-IsWithin,
}

abbrev pub elements : List Event → ℕ
elements [] = 0
elements (start name attributes ∷ rest) = 1 + elements rest
elements (end name ∷ rest) = elements rest
elements (characters value ∷ rest) = elements rest
elements (active_feature ∷ rest) = elements rest

abbrev pub all_attributes : List Event → ℕ
all_attributes [] = 0
all_attributes (start name attributes ∷ rest) = length attributes + all_attributes rest
all_attributes (end name ∷ rest) = all_attributes rest
all_attributes (characters value ∷ rest) = all_attributes rest
all_attributes (active_feature ∷ rest) = all_attributes rest

abbrev pub all_text : List Event → ℕ
all_text [] = 0
all_text (start name attributes ∷ rest) = all_text rest
all_text (end name ∷ rest) = all_text rest
all_text (characters value ∷ rest) = length value + all_text rest
all_text (active_feature ∷ rest) = all_text rest

-- The open elements with the text of each, the innermost first
abbrev pub Stack : Type 0
Stack = List (Text × ℕ)

abbrev pub grown : ℕ → Stack → Stack
grown count [] = []
grown count ((local, size) ∷ below) = (local, size + count) ∷ below

module _ (limits : XmlLimits) where
  -- From these open elements on, no element is too deep, every element that ends is open, and none
  -- that ends is an attachment with too much text of its own.
  abbrev pub AreNested : Stack → List Event → Type 0
  AreNested stack [] = Unit
  AreNested stack (start name attributes ∷ rest) =
      (1 + length stack ≤ limits.max_depth)
      × AreNested (((namespace_and_local name).1, 0) ∷ stack) rest
  AreNested [] (end name ∷ rest) = ⊥
  AreNested (top ∷ below) (end name ∷ rest) = Fits limits top × AreNested below rest
  AreNested stack (characters value ∷ rest) = AreNested (grown (length value) stack) rest
  AreNested stack (active_feature ∷ rest) = ⊥

  -- What is counted from this state on
  record IsCounted (s : Preflight) (events : List Event) : Type 0 where
    nested : AreNested s.open_elements events
    elements : s.element_count + elements events ≤ limits.max_elements
    attributes : s.attribute_count + all_attributes events ≤ limits.max_attributes
    text : s.text_count + all_text events ≤ limits.max_text

  text-counts :
      (s t : Preflight) (count : ℕ) (stack : Stack)
      → add_text limits s count stack ≡ ok t
      → s.open_elements ≡ stack
      → record s { text_count = s.text_count + count; open_elements = grown count stack } ≡ t
  text-counts s t count [] h e = cc (ok-injective h, e)
  text-counts s t count ((local, size) ∷ below) h e =
      let (_, h1) =
        >>-eq-ok
          (guard (not (is_attachment local && ltb limits.max_attachment_text (size + count)))
            (security_error "XML attachment exceeds the text limit"))
          (ok (record s {
            text_count = s.text_count + count;
            open_elements = (local, size + count) ∷ below;
          }))
          h in
      ok-injective h1

  character-counts :
      (s t : Preflight) (value : Text)
      → character_data limits s value ≡ ok t
      → record s {
        text_count = s.text_count + length value;
        open_elements = grown (length value) s.open_elements;
      }
        ≡ t
  unfolding character_data
  character-counts s t value h =
      let (_, h1) =
        >>-eq-ok
          (guard (leb (s.text_count + length value) limits.max_text)
            (security_error "XML exceeds the text limit"))
          (add_text limits s (length value) s.open_elements) h in
      text-counts s t (length value) s.open_elements h1 refl

  -- An element that ends is the innermost open one.
  end-pops :
      (s t : Preflight)
      → end_element limits s ≡ ok t
      → (top : Text × ℕ) × (below : Stack) × (s.open_elements ≡ top ∷ below)
        × (record s { depth = s.depth - 1; open_elements = below } ≡ t)
  unfolding end_element
  end-pops s t h = go s.open_elements refl h
    where
      go :
          (stack : Stack)
          → s.open_elements ≡ stack
          → (elim stack [
            | [] ↦ err index_error
            | top ∷ below ↦ ok (record s { depth = s.depth - 1; open_elements = below })
          ])
            ≡ ok t
          → (top : Text × ℕ) × (below : Stack) × (s.open_elements ≡ top ∷ below)
            × (record s { depth = s.depth - 1; open_elements = below } ≡ t)
      go [] e k = cc k
      go (top ∷ below) e k = (top, below, e, ok-injective k)

  start-IsCounted :
      (s t : Preflight) (name : Text) (attributes : List (Text × Text)) (rest : List Event)
      → start_element limits s name attributes ≡ ok t
      → IsWithin limits s
      → (IsWithin limits t → IsCounted t rest)
      → IsCounted s (start name attributes ∷ rest)
  start-IsCounted s t name attributes rest h w later =
      let (within, _, whole) = start-IsWithin limits s t name attributes w h in
      let c = subst (λ x. IsCounted x rest) (sym whole) (later within) in
      let deep = (subst (λ x. IsWithin limits x) (sym whole) within).depth in
      record {
        nested = (omega (arith, deep, w.nested), c.nested);
        elements = omega (arith, c.elements);
        attributes = omega (arith, c.attributes);
        text = c.text;
      }

  end-IsCounted :
      (s t : Preflight) (name : Text) (rest : List Event)
      → end_element limits s ≡ ok t
      → IsWithin limits s
      → IsCounted t rest
      → IsCounted s (end name ∷ rest)
  end-IsCounted s t name rest h w later =
      let (top, below, opened, whole) = end-pops s t h in
      let c = subst (λ x. IsCounted x rest) (sym whole) later in
      record {
        nested =
            subst (λ stack. AreNested stack (end name ∷ rest)) (sym opened)
              ((subst (λ l. All (Fits limits) l) opened w.attachments).0, c.nested);
        elements = c.elements;
        attributes = c.attributes;
        text = c.text;
      }

  characters-IsCounted :
      (s t : Preflight) (value : Text) (rest : List Event)
      → character_data limits s value ≡ ok t
      → IsCounted t rest
      → IsCounted s (characters value ∷ rest)
  characters-IsCounted s t value rest h later =
      let c = subst (λ x. IsCounted x rest) (sym (character-counts s t value h)) later in
      record {
        nested = c.nested;
        elements = c.elements;
        attributes = c.attributes;
        text = omega (arith, c.text);
      }

  all-IsCounted :
      (s t : Preflight) (events : List Event)
      → IsWithin limits s
      → handle_all limits s events ≡ ok t
      → IsCounted s events
  unfolding handle_all handle
  all-IsCounted s t [] w h = record {
    nested = tt;
    elements = omega (arith, w.elements);
    attributes = omega (arith, w.attributes);
    text = omega (arith, w.text);
  }
  all-IsCounted s t (start name attributes ∷ rest) w h =
      let (next, first, later) = >>=-eq-ok (start_element limits s name attributes) _ h in
      start-IsCounted s next name attributes rest first w
        (λ within. all-IsCounted next t rest within later)
  all-IsCounted s t (end name ∷ rest) w h =
      let (next, first, later) = >>=-eq-ok (end_element limits s) _ h in
      end-IsCounted s next name rest first w
        (all-IsCounted next t rest (handle-IsWithin limits s next (end name) w first).0 later)
  all-IsCounted s t (characters value ∷ rest) w h =
      let (next, first, later) = >>=-eq-ok (character_data limits s value) _ h in
      characters-IsCounted s next value rest first (
        all-IsCounted next t rest (handle-IsWithin limits s next (characters value) w first).0
          later)
  all-IsCounted s t (active_feature ∷ rest) w h = cc h

  -- A document that the preflight accepts is not above the size limit. Counted over its events, its
  -- elements, its attributes and its characters are within their limits; no element is opened below
  -- the depth limit; every end closes an open element, and an attachment that is closed has no more
  -- characters of its own than allowed. None of its events is an active feature, an XInclude element,
  -- or an element with too many or too long attributes.
  pub preflight_bounded :
      (size : ℕ) (events : List Event) (s : Preflight)
      → preflight limits size events ≡ ok s
      → (size ≤ limits.max_bytes)
        × (elements events ≤ limits.max_elements)
        × (all_attributes events ≤ limits.max_attributes)
        × (all_text events ≤ limits.max_text)
        × AreNested [] events
        × All (IsHarmless limits) events
  unfolding preflight
  preflight_bounded size events s h =
      let (bounded, h1) =
        >>-eq-ok (guard (leb size limits.max_bytes) (security_error "XML exceeds the size limit"))
          (handle_all limits at_start events) h in
      let c = all-IsCounted at_start s events (at_start-IsWithin limits) h1 in
      (
        leb→le _ _ (guard-eq-ok _ _ bounded),
        omega (arith, c.elements),
        omega (arith, c.attributes),
        omega (arith, c.text),
        c.nested,
        (handle_all-IsWithin limits at_start s events (at_start-IsWithin limits) h1).1,
      )
