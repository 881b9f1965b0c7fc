-- ===== src/Shrink/Calls/Refines.antt =====
-- With callbacks that answer as functions of the document, whatever else they do to the state, the
-- functions of Shrink.Calls of src/rechnungsprobe/shrink.py are those of Shrink.Loop.
use rechnungsprobe.Prelude.{
  ℕ, zero, suc, ◌+◌, Text, Bool, true, false, Option, none, some, List, [], ◌∷◌, map, length,
  if◌then◌else◌, ◌==◌, ◌≡◌, refl, ap,
}
use rechnungsprobe.Errors.{Error, Result, ok, err, value_error, guard, ◌>>=◌, ◌>>◌}
use rechnungsprobe.Model.Invoice.{Invoice, Host}
use rechnungsprobe.Model.Serialize.{serialize_invoice}
use rechnungsprobe.Model.Fingerprint.{semantic_fingerprint}
use rechnungsprobe.Shrink.Steps.{one_step_reductions}
use rechnungsprobe.Shrink.Loop.{
  Checks, Pending, State, batch_of, gather, serialize_all, run_batch, validities, first_accepted,
  search_reducing, check_initial, shrink_round, shrink_rounds, shrink_invoice, verify_one_minimal,
}
use rechnungsprobe.Shrink.Calls.{
  Calls, call_each, call_batch, call_validities, call_accepts, call_first, call_search,
  call_initial, call_round, call_rounds, call_shrink, call_verify,
}

module _ {W : Type 0} (Inv : W → Type 0) where
  -- A call that returns the value, in a state that is again good.
  abbrev pub Returns : {A : Type 0} → Result (A × W) → A → Type 0
  Returns c a = (w : W) × (c ≡ ok (a, w)) × Inv w

  -- The call raises the same error, or returns the same value.
  abbrev pub Agrees : {A : Type 0} → Result A → Result (A × W) → Type 0
  Agrees (err e) c = c ≡ err e
  Agrees (ok a) c = Returns c a

  after_call :
      {A B : Type 0} (c : Result (A × W)) (a : A) (m : Result B) (k : A × W → Result (B × W))
      → Returns c a
      → ((w : W) → Inv w → Agrees m (k (a, w)))
      → Agrees m (c >>= k)
  after_call c a m k (w, returned, good) next = rw returned (next w good)

  after_agreeing :
      {A B : Type 0} (m : Result A) (c : Result (A × W)) (n : A → Result B)
      (k : A × W → Result (B × W))
      → Agrees m c
      → ((a : A) (w : W) → Inv w → Agrees (n a) (k (a, w)))
      → Agrees (m >>= n) (c >>= k)
  after_agreeing (err e) c n k raised next = ap (λ r. r >>= k) raised
  after_agreeing (ok a) c n k (w, returned, good) next = rw returned (next a w good)

  after_pure :
      {A B : Type 0} (m : Result A) (n : A → Result B) (k : A → Result (B × W))
      → ((a : A) → Agrees (n a) (k a))
      → Agrees (m >>= n) (m >>= k)
  after_pure (err e) n k next = refl
  after_pure (ok a) n k next = next a

  after_guard :
      {B : Type 0} (test : Bool) (error : Error) (n : Result B) (k : Result (B × W))
      → Agrees n k
      → Agrees (guard test error >> n) (guard test error >> k)
  after_guard true error n k next = next
  after_guard false error n k next = refl

  -- A branch on a Boolean answer, in the state after the answer
  by_answer :
      {B : Type 0} (answer : Bool) (yes' no' : B) (m n : Result (B × W))
      → Returns m yes'
      → Returns n no'
      → Returns
          (elim answer as (λ _. Result (B × W)) [ true ↦ m | false ↦ n ])
          (if answer then yes' else no')
  by_answer true yes' no' m n h k = h
  by_answer false yes' no' m n h k = k

  abbrev pub IsPureBatch :
      Option (List Text → List Bool) → Option (List Text → W → Result (List Bool × W)) → Type 0
  IsPureBatch none none = Unit
  IsPureBatch (some f) (some call) =
      (documents : List Text) (w : W) → Inv w → Returns (call documents w) (f documents)
  IsPureBatch none (some call) = ⊥
  IsPureBatch (some f) none = ⊥

  -- The callbacks answer as `checks` does, in every good state.
  pub record IsPure (checks : Checks) (calls : Calls W) : Type 0 where
    pub is_valid : (d : Text) (w : W) → Inv w → Returns (calls.is_valid d w) (checks.is_valid d)
    pub preserves_finding :
        (d : Text) (w : W)
        → Inv w
        → Returns (calls.preserves_finding d w) (checks.preserves_finding d)
    pub validate_batch : IsPureBatch checks.validate_batch calls.validate_batch

  module _ (checks : Checks) (calls : Calls W) (pure : IsPure checks calls) where
    each-Returns :
        (documents : List Text) (w : W)
        → Inv w
        → Returns (call_each calls.is_valid documents w) (map checks.is_valid documents)
    each-Returns [] w good = (w, refl, good)
    each-Returns (d ∷ documents) w good =
        after_call (calls.is_valid d w) (checks.is_valid d) (ok _) _ (pure.is_valid d w good)
          (λ w' good'.
            after_call (call_each calls.is_valid documents w') (map checks.is_valid documents)
              (ok _) _ (each-Returns documents w' good') (λ w'' good''. (w'', refl, good'')))

    batch-Returns :
        (documents : List Text) (w : W)
        → Inv w
        → Returns
            (call_batch calls.validate_batch calls.is_valid documents w)
            (run_batch checks.validate_batch checks.is_valid documents)
    batch-Returns documents w good =
        go checks.validate_batch calls.validate_batch pure.validate_batch documents
      where
        go :
            (f : Option (List Text → List Bool))
            (call : Option (List Text → W → Result (List Bool × W)))
            → IsPureBatch f call
            → (documents : List Text)
            → Returns
                (call_batch call calls.is_valid documents w)
                (run_batch f checks.is_valid documents)
        go none none same documents = each-Returns documents w good
        go none (some call) same documents = elim same [ ]
        go (some f) none same documents = elim same [ ]
        go (some f) (some call) same [] = (w, refl, good)
        go (some f) (some call) same (d ∷ documents) = same (d ∷ documents) w good

    validities-Agrees :
        (pending : Pending) (w : W)
        → Inv w
        → Agrees (validities checks pending) (call_validities calls pending w)
    unfolding validities call_validities
    validities-Agrees pending w good =
        after_call _ _ _ _ (batch-Returns (batch_of pending) w good) (λ w' good'.
          let results = run_batch checks.validate_batch checks.is_valid (batch_of pending) in
          after_guard (length results == length pending)
            (value_error "batch validity check returned an unexpected result count") (ok results)
            (ok (results, w')) (w', refl, good'))

    first-Returns :
        (pending : Pending) (valid : List Bool) (w : W)
        → Inv w
        → Returns (call_first calls pending valid w) (first_accepted checks pending valid)
    unfolding call_first call_accepts first_accepted
    first-Returns [] valid w good = (w, refl, good)
    first-Returns ((r, d) ∷ rest) [] w good = (w, refl, good)
    first-Returns ((r, d) ∷ rest) (false ∷ valid) w good = first-Returns rest valid w good
    first-Returns ((r, d) ∷ rest) (true ∷ valid) w good =
        after_call (calls.preserves_finding d w) (checks.preserves_finding d) (ok _) _
          (pure.preserves_finding d w good)
          (λ w' good'.
            by_answer (checks.preserves_finding d) (some r) _ (ok (some r, w')) _ (w', refl, good')
              (first-Returns rest valid w' good'))

  module _ ⦃host : Host⦄ (checks : Checks) (calls : Calls W) (pure : IsPure checks calls) where
    search-Returns :
        (attempts : ℕ) (pending : Pending) (valid : List Bool) (w : W)
        → Inv w
        → Returns
            (call_search calls attempts pending valid w)
            (search_reducing checks attempts pending valid)
    unfolding call_search call_accepts search_reducing
    search-Returns attempts [] valid w good = (w, refl, good)
    search-Returns attempts (p ∷ rest) [] w good = (w, refl, good)
    search-Returns attempts ((r, d) ∷ rest) (false ∷ valid) w good =
        search-Returns (attempts + 1) rest valid w good
    search-Returns attempts ((r, d) ∷ rest) (true ∷ valid) w good =
        after_call (calls.preserves_finding d w) (checks.preserves_finding d) (ok _) _
          (pure.preserves_finding d w good)
          (λ w' good'.
            by_answer (checks.preserves_finding d) _ _ _ _ (w', refl, good')
              (search-Returns (attempts + 1) rest valid w' good'))

    initial-Agrees :
        (i : Invoice) (w : W) → Inv w → Agrees (check_initial checks i) (call_initial calls i w)
    unfolding check_initial call_initial
    initial-Agrees i w good = after_pure (serialize_invoice i) _ _ (λ d.
        after_call (calls.is_valid d w) (checks.is_valid d) _ _ (pure.is_valid d w good)
          (λ w' good'.
            after_guard (checks.is_valid d)
              (value_error "initial finding does not pass the pinned profile") _ _
              (after_call (calls.preserves_finding d w') (checks.preserves_finding d) _ _
                (pure.preserves_finding d w' good')
                (λ w'' good''.
                  after_guard (checks.preserves_finding d)
                    (value_error "initial invoice does not reproduce the declared finding") (ok d)
                    (ok (d, w'')) (w'', refl, good'')))))

    round-Agrees :
        (s : State) (w : W) → Inv w → Agrees (shrink_round checks s) (call_round calls s w)
    unfolding shrink_round call_round
    round-Agrees s w good = after_pure (one_step_reductions s.current) _ _ (λ reductions.
        after_pure (gather s.checked s.attempts reductions) _ _ (λ (checked, attempts, pending).
          after_agreeing (validities checks pending) (call_validities calls pending w) _ _
            (validities-Agrees checks calls pure pending w good)
            (λ valid w' good'.
              after_call (call_first calls pending valid w') (first_accepted checks pending valid)
                (ok _) _ (first-Returns checks calls pure pending valid w' good')
                (λ w'' good''. (w'', refl, good'')))))

    rounds-Agrees :
        (fuel : ℕ) (s : State) (w : W)
        → Inv w
        → Agrees (shrink_rounds fuel checks s) (call_rounds fuel calls s w)
    unfolding shrink_rounds call_rounds
    rounds-Agrees zero s w good = refl
    rounds-Agrees (suc fuel) s w good =
        after_agreeing (shrink_round checks s) (call_round calls s w) _ _ (round-Agrees s w good)
          (λ (s', changed) w' good'. go s' changed w' good' (rounds-Agrees fuel s' w' good'))
      where
        go :
            (s' : State) (changed : Bool) (w' : W)
            → Inv w'
            → Agrees (shrink_rounds fuel checks s') (call_rounds fuel calls s' w')
            → Agrees
                (elim changed as (λ _. Result State) [
                  | true ↦ shrink_rounds fuel checks s'
                  | false ↦ ok s'
                ])
                (elim changed as (λ _. Result (State × W)) [
                  | true ↦ call_rounds fuel calls s' w'
                  | false ↦ ok (s', w')
                ])
        go s' true w' good' later = later
        go s' false w' good' later = (w', refl, good')

    -- With callbacks that answer as functions of the document, in every good state, and leave a good
    -- state, `shrink_invoice` raises the error of the pure function, or returns its result in a good
    -- state.
    pub call_shrink-Agrees :
        (fuel : ℕ) (i : Invoice) (w : W)
        → Inv w
        → Agrees (shrink_invoice fuel checks i) (call_shrink fuel calls i w)
    unfolding shrink_invoice call_shrink
    call_shrink-Agrees fuel i w good =
        after_agreeing (check_initial checks i) (call_initial calls i w) _ _
          (initial-Agrees i w good)
          (λ d w' good'.
            after_agreeing (shrink_rounds fuel checks _) (call_rounds fuel calls _ w') _ _
              (rounds-Agrees fuel _ w' good')
              (λ s w'' good''.
                after_pure (semantic_fingerprint s.current) _ _ (λ f. (w'', refl, good''))))

    -- With such callbacks `verify_one_minimal` raises the error of the pure function, or returns its
    -- result in a good state.
    pub call_verify-Agrees :
        (i : Invoice) (w : W) → Inv w → Agrees (verify_one_minimal checks i) (call_verify calls i w)
    unfolding verify_one_minimal call_verify
    call_verify-Agrees i w good =
        after_agreeing (check_initial checks i) (call_initial calls i w) _ _
          (initial-Agrees i w good)
          (λ d w' good'. after_pure (one_step_reductions i) _ _ (λ reductions.
            after_pure (serialize_all reductions) _ _ (λ pending.
              after_agreeing (validities checks pending) (call_validities calls pending w') _ _
                (validities-Agrees checks calls pure pending w' good')
                (λ valid w'' good''. search-Returns 1 pending valid w'' good''))))
