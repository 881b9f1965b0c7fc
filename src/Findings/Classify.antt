-- ===== src/Findings/Classify.antt =====
-- Which findings count as changed totals, and which observations have no kind.
use rechnungsprobe.Prelude.{
  Text, codes, true, false, text_eq, text_eq_iff, Bool, if◌then◌else◌, sym, contains,
  contains-false_iff, any, List, [], ◌∷◌, ◌≡◌, ◌≢◌, ◌↔◌, ◌⊎◌, arith, inl, inr, refl, All,
  Bool-cases,
}
use rechnungsprobe.Errors.{ok}
use rechnungsprobe.Findings.{
  FindingKind, totals_or_tax_changed, predicate_kinds, resource_terminations, find_kind, is_total,
  classify_finding,
}

find_kind-misses :
    (kind : FindingKind) (predicate : Text) (table : List (Text × FindingKind))
    → All (λ row. row.1 ≢ kind) table
    → find_kind predicate table ≢ ok kind
unfolding find_kind
find_kind-misses kind predicate [] h e = cc e
find_kind-misses kind predicate ((key, other) ∷ rest) h e =
    elim (Bool-cases (text_eq key predicate)) [
      | inl same ↦ absurd (h.0 (cc (rw same at e)))
      | inr differ ↦ find_kind-misses kind predicate rest h.1 (rw differ at e)
    ]

no_totals : All (λ row. row.1 ≢ totals_or_tax_changed) predicate_kinds
unfolding predicate_kinds
no_totals = (cc, (cc, (cc, (cc, (cc, (cc, (cc, tt)))))))

-- The termination is none of those that a limit causes.
pub record IsUnlimited (termination : Text) : Type 0 where
  pub no_timeout : termination ≢ codes "timeout"
  pub no_output_limit : termination ≢ codes "output_limit"
  pub no_memory_limit : termination ≢ codes "memory_limit"
  pub no_cpu_limit : termination ≢ codes "cpu_limit"
  pub no_process_limit : termination ≢ codes "process_limit"
  pub no_file_limit : termination ≢ codes "file_limit"

IsUnlimited-iff :
    (termination : Text)
    → (contains termination resource_terminations ≡ false) ↔ IsUnlimited termination
IsUnlimited-iff termination = (
  λ h.
      let apart = (contains-false_iff termination resource_terminations).0 h in
      record {
        no_timeout = apart.0;
        no_output_limit = apart.1.0;
        no_memory_limit = apart.1.1.0;
        no_cpu_limit = apart.1.1.1.0;
        no_process_limit = apart.1.1.1.1.0;
        no_file_limit = apart.1.1.1.1.1.0;
      },
  λ u. (contains-false_iff termination resource_terminations).1 (
    u.no_timeout,
    (
      u.no_output_limit,
      (u.no_memory_limit, (u.no_cpu_limit, (u.no_process_limit, (u.no_file_limit, tt)))),
    ),
  ),
)

-- Some detail names one of the three totals.
abbrev pub NamesTotal : List Text → Type 0
NamesTotal [] = ⊥
NamesTotal (d ∷ details) =
    (d ≡ codes "line_total")
    ⊎ (d ≡ codes "tax_total")
    ⊎ (d ≡ codes "payable_total")
    ⊎ NamesTotal details

or_first : (b rest : Bool) → b ≡ true → (if b then true else rest) ≡ true
or_first true rest h = refl
or_first false rest h = cc h

or_later : (b rest : Bool) → rest ≡ true → (if b then true else rest) ≡ true
or_later true rest h = refl
or_later false rest h = h

total_iff :
    (d : Text)
    → (is_total d ≡ true)
      ↔ ((d ≡ codes "line_total") ⊎ (d ≡ codes "tax_total") ⊎ (d ≡ codes "payable_total"))
unfolding contains
total_iff d = (
  λ h. ground (
    arith,
    text_eq_iff (codes "line_total") d,
    text_eq_iff (codes "tax_total") d,
    text_eq_iff (codes "payable_total") d,
  ),
  λ h.
      let line = text_eq (codes "line_total") d in
      let tax = text_eq (codes "tax_total") d in
      let last = if text_eq (codes "payable_total") d then true else false in
      elim h [
        | inl a ↦
            or_first line (if tax then true else last)
              ((text_eq_iff (codes "line_total") d).1 (sym a))
        | inr (inl a) ↦
            or_later line (if tax then true else last)
              (or_first tax last ((text_eq_iff (codes "tax_total") d).1 (sym a)))
        | inr (inr a) ↦ or_later line (if tax then true else last) (
            or_later tax last (
              or_first (text_eq (codes "payable_total") d) false
                ((text_eq_iff (codes "payable_total") d).1 (sym a))))
      ],
)

NamesTotal-iff : (details : List Text) → (any is_total details ≡ true) ↔ NamesTotal details
NamesTotal-iff [] = (cc, absurd)
NamesTotal-iff (d ∷ details) = elim (Bool-cases (is_total d)) [
  | inl total ↦ (
    λ h. elim ((total_iff d).0 total) [
      | inl a ↦ inl a
      | inr (inl a) ↦ inr (inl a)
      | inr (inr a) ↦ inr (inr (inl a))
    ],
    λ h. rw total refl,
  )
  | inr other ↦ (
    λ h. inr (inr (inr ((NamesTotal-iff details).0 (rw other at h)))),
    λ h. elim h [
      | inl a ↦ absurd (cc (other, (total_iff d).1 (inl a)))
      | inr (inl a) ↦ absurd (cc (other, (total_iff d).1 (inr (inl a))))
      | inr (inr (inl a)) ↦ absurd (cc (other, (total_iff d).1 (inr (inr a))))
      | inr (inr (inr later)) ↦ rw other ((NamesTotal-iff details).1 later)
    ],
  )
]

-- A finding is classified as changed totals exactly if the termination is none of the six limits
-- (timeout, output, memory, cpu, process, file), the predicate is that of lost fields, and
-- "line_total", "tax_total" or "payable_total" is among the details.
pub classify-totals_iff :
    (predicate termination : Text) (details : List Text)
    → (classify_finding predicate termination details ≡ ok totals_or_tax_changed)
      ↔ (IsUnlimited termination × (predicate ≡ codes "declared-field-loss") × NamesTotal details)
unfolding classify_finding
classify-totals_iff predicate termination details = (
  λ h.
      let (bounded, lost, total) = forward h in
      ((IsUnlimited-iff termination).0 bounded, lost, (NamesTotal-iff details).0 total),
  λ (unlimited, lost, total).
      backward ((IsUnlimited-iff termination).1 unlimited, lost, (NamesTotal-iff details).1 total),
)
  where
    forward :
        classify_finding predicate termination details ≡ ok totals_or_tax_changed
        → (contains termination resource_terminations ≡ false)
          × (predicate ≡ codes "declared-field-loss")
          × (any is_total details ≡ true)
    forward h = elim (Bool-cases (contains termination resource_terminations)) [
      | inl exhausted ↦ cc (rw exhausted at h)
      | inr bounded ↦ elim (Bool-cases (text_eq predicate (codes "declared-field-loss"))) [
        | inl lost ↦ elim (Bool-cases (any is_total details)) [
          | inl total ↦ (bounded, (text_eq_iff _ _).0 lost, total)
          | inr plain ↦ cc (rw (bounded, lost, plain) at h)
        ]
        | inr other ↦ absurd (
            find_kind-misses totals_or_tax_changed predicate predicate_kinds no_totals
              (rw (bounded, other) at h))
      ]
    ]

    backward :
        (contains termination resource_terminations ≡ false)
          × (predicate ≡ codes "declared-field-loss")
          × (any is_total details ≡ true)
        → classify_finding predicate termination details ≡ ok totals_or_tax_changed
    backward (bounded, named, total) = rw (bounded, (text_eq_iff _ _).1 named, total) refl
