-- ===== src/Xmlsafe/Bounds.antt =====
-- What the events of a document are like when the preflight accepts them.
use mathlib.Core.Path.{subst}
use rechnungsprobe.Prelude.{
  ℕ, ◌+◌, ◌-◌, ◌≤◌, Text, Bool, true, false, not, ◌&&◌, any, ltb, List, [], ◌∷◌, length, ◌≡◌, refl,
  ap, arith, leb→le, All,
}
use rechnungsprobe.Errors.{
  ok, err, index_error, security_error, guard, guard-eq-ok, >>=-eq-ok, >>-eq-ok,
}
use rechnungsprobe.Xmlsafe.{
  XmlLimits, Event, start, end, characters, active_feature, Preflight, at_start,
  namespace_and_local, is_xinclude, is_attachment, add_text, start_element, end_element,
  character_data, handle, handle_all,
}

not_less : (a b : ℕ) → ltb a b ≡ false → b ≤ a
not_less a b h = ground arith

module _ (limits : XmlLimits) where
  abbrev pub Fits : Text × ℕ → Type 0
  Fits e = is_attachment e.0 ≡ true → e.1 ≤ limits.max_attachment_text

  -- The shared variables are within the limits, and the depth is that of the open elements.
  pub record IsWithin (s : Preflight) : Type 0 where
    pub nested : s.depth ≡ length s.open_elements
    pub depth : s.depth ≤ limits.max_depth
    pub elements : s.element_count ≤ limits.max_elements
    pub attributes : s.attribute_count ≤ limits.max_attributes
    pub text : s.text_count ≤ limits.max_text
    pub attachments : All Fits s.open_elements

  -- An event that no limit speaks against by itself
  abbrev pub IsHarmless : Event → Type 0
  IsHarmless (start name attributes) =
      (length attributes ≤ limits.max_attributes_per_element)
      × (any (λ a. ltb limits.max_attribute_text (length a.1)) attributes ≡ false)
      × (is_xinclude (namespace_and_local name) ≡ false)
  IsHarmless (end name) = Unit
  IsHarmless (characters value) = length value ≤ limits.max_text
  IsHarmless active_feature = ⊥

  not-true : (b : Bool) → not b ≡ true → b ≡ false
  not-true true h = cc h
  not-true false h = refl

  -- The state after a start of an element
  abbrev pub IsStarted : Preflight → Text → List (Text × Text) → Preflight → Type 0
  IsStarted s name attributes t =
      record {
        depth = s.depth + 1;
        element_count = s.element_count + 1;
        attribute_count = s.attribute_count + length attributes;
        text_count = s.text_count;
        open_elements = ((namespace_and_local name).1, 0) ∷ s.open_elements;
      }
      ≡ t

  pub start-IsWithin :
      (s t : Preflight) (name : Text) (attributes : List (Text × Text))
      → IsWithin s
      → start_element limits s name attributes ≡ ok t
      → IsWithin t × IsHarmless (start name attributes) × IsStarted s name attributes t
  unfolding start_element
  start-IsWithin s t name attributes w h =
      let (deep, h1) = >>-eq-ok _ _ h in
      let (many, h2) = >>-eq-ok _ _ h1 in
      let (own, h3) = >>-eq-ok _ _ h2 in
      let (all_of, h4) = >>-eq-ok _ _ h3 in
      let (long, h5) = >>-eq-ok _ _ h4 in
      let (include, h6) = >>-eq-ok _ _ h5 in
      let whole : IsStarted s name attributes t = cc h6 in
      (
        subst IsWithin whole (record {
          nested = let nested = w.nested in omega arith;
          depth = leb→le _ _ (guard-eq-ok _ _ deep);
          elements = leb→le _ _ (guard-eq-ok _ _ many);
          attributes = leb→le _ _ (guard-eq-ok _ _ all_of);
          text = w.text;
          attachments = (λ attachment. omega arith, w.attachments);
        }),
        (
          leb→le _ _ (guard-eq-ok _ _ own),
          not-true _ (guard-eq-ok _ _ long),
          not-true _ (guard-eq-ok _ _ include),
        ),
        whole,
      )

  end-IsWithin : (s t : Preflight) → IsWithin s → end_element limits s ≡ ok t → IsWithin t
  unfolding end_element
  end-IsWithin s t w h = go s.open_elements refl h
    where
      go :
          (stack : List (Text × ℕ))
          → s.open_elements ≡ stack
          → (elim stack [
            | [] ↦ err index_error
            | top ∷ below ↦ ok (record s { depth = s.depth - 1; open_elements = below })
          ])
            ≡ ok t
          → IsWithin t
      go [] e k = cc k
      go (top ∷ below) e k =
          let whole : record s { depth = s.depth - 1; open_elements = below } ≡ t = cc k in
          let nested = w.nested in
          let deep = w.depth in
          let size = ap length e in
          subst IsWithin whole (record {
            nested = omega arith;
            depth = omega arith;
            elements = w.elements;
            attributes = w.attributes;
            text = w.text;
            attachments = (subst (λ l. All Fits l) e w.attachments).1;
          })

  text-IsWithin :
      (s t : Preflight) (count : ℕ) (stack : List (Text × ℕ))
      → s.open_elements ≡ stack
      → s.text_count + count ≤ limits.max_text
      → IsWithin s
      → add_text limits s count stack ≡ ok t
      → IsWithin t
  text-IsWithin s t count [] e total w h =
      let whole : record s { text_count = s.text_count + count } ≡ t = cc h in
      subst IsWithin whole (record {
        nested = w.nested;
        depth = w.depth;
        elements = w.elements;
        attributes = w.attributes;
        text = total;
        attachments = w.attachments;
      })
  text-IsWithin s t count ((local, size) ∷ below) e total w h =
      let (bounded, h1) =
        >>-eq-ok
          (guard (not (is_attachment local && ltb limits.max_attachment_text (size + count)))
            (security_error "XML attachment exceeds the text limit"))
          (ok (record s {
            text_count = s.text_count + count;
            open_elements = (local, size + count) ∷ below;
          }))
          h in
      let nested = w.nested in
      let same = ap length e in
      let whole : record s {
        text_count = s.text_count + count;
        open_elements = (local, size + count) ∷ below;
      }
          ≡ t =
        cc h1 in
      subst IsWithin whole (record {
        nested = omega arith;
        depth = w.depth;
        elements = w.elements;
        attributes = w.attributes;
        text = total;
        attachments = (
          λ attachment. fits attachment (not-true _ (guard-eq-ok _ _ bounded)),
          (subst (λ l. All Fits l) e w.attachments).1,
        );
      })
    where
      fits :
          is_attachment local ≡ true
          → (is_attachment local && ltb limits.max_attachment_text (size + count)) ≡ false
          → size + count ≤ limits.max_attachment_text
      fits attachment k = not_less _ _ (rw attachment at k)

  characters-IsWithin :
      (s t : Preflight) (value : Text)
      → IsWithin s
      → character_data limits s value ≡ ok t
      → IsWithin t × IsHarmless (characters value)
  unfolding character_data
  characters-IsWithin s t value w h =
      let (bounded, h1) = >>-eq-ok _ _ h in
      let total = leb→le _ _ (guard-eq-ok _ _ bounded) in
      (text-IsWithin s t (length value) s.open_elements refl total w h1, omega arith)

  pub handle-IsWithin :
      (s t : Preflight) (e : Event)
      → IsWithin s
      → handle limits s e ≡ ok t
      → IsWithin t × IsHarmless e
  unfolding handle
  handle-IsWithin s t (start name attributes) w h =
      let (within, harmless, _) = start-IsWithin s t name attributes w h in (within, harmless)
  handle-IsWithin s t (end name) w h = (end-IsWithin s t w h, tt)
  handle-IsWithin s t (characters value) w h = characters-IsWithin s t value w h
  handle-IsWithin s t active_feature w h = cc h

  pub handle_all-IsWithin :
      (s t : Preflight) (events : List Event)
      → IsWithin s
      → handle_all limits s events ≡ ok t
      → IsWithin t × All IsHarmless events
  unfolding handle_all
  handle_all-IsWithin s t [] w h = let same : s ≡ t = cc h in (subst IsWithin same w, tt)
  handle_all-IsWithin s t (e ∷ rest) w h =
      let (next, first, later) = >>=-eq-ok (handle limits s e) _ h in
      let (w', harmless) = handle-IsWithin s next e w first in
      let (final, others) = handle_all-IsWithin next t rest w' later in (final, (harmless, others))

  pub at_start-IsWithin : IsWithin at_start
  at_start-IsWithin = record {
    nested = refl;
    depth = omega arith;
    elements = omega arith;
    attributes = omega arith;
    text = omega arith;
    attachments = tt;
  }
