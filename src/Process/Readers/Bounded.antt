-- ===== src/Process/Readers/Bounded.antt =====
-- However the two threads are scheduled, the stored output is bounded, and nothing is lost unless the
-- limit is reported.
use mathlib.Core.List.{append_assoc, append-nil}
use rechnungsprobe.Prelude.{
  ℕ, zero, suc, ◌+◌, ◌-◌, ◌≤◌, Text, Bool, true, false, not, ◌||◌, ==_iff, [], ◌∷◌, ◌++◌, ◌≡◌, ◌∙◌,
  refl, sym, ap, arith, length, take, drop, length-append, take-append-drop, length-take,
  if◌then◌else◌,
}
use rechnungsprobe.Process.Readers.{
  Pc, reading, holding, stopped, Reader, Shared, System, accepted, store, Move, fetch, finish,
  blocks, keep, Step, out_moves, error_moves, started, Reach, here, later,
}

take-all : (n : ℕ) (t : Text) → length (take n t) ≡ length t → take n t ≡ t
take-all zero [] h = refl
take-all zero (c ∷ t) h = absurd (omega arith)
take-all (suc n) [] h = refl
take-all (suc n) (c ∷ t) h = ap (λ x. c ∷ x) (take-all n t (omega arith))

abbrev pub IsPrefix : Text → Text → Type 0
IsPrefix part whole = (others : Text) × (part ++ others ≡ whole)

-- What a thread has stored and has still to store is its stream; a stopped one may have lost an end
-- of it, where the limit is reported.
abbrev KeepsBy : Pc → Text → Bool → Text → Text → Type 0
KeepsBy reading stream reached stored rest = stored ++ rest ≡ stream
KeepsBy (holding chunk) stream reached stored rest = stored ++ (chunk ++ rest) ≡ stream
KeepsBy stopped stream reached stored rest =
    (lost : Text) × (stored ++ lost ≡ stream) × (reached ≡ false → lost ≡ [])

abbrev Keeps : Text → Bool → Reader → Type 0
Keeps stream reached r = KeepsBy r.pc stream reached r.stored r.rest

-- The output is counted and bounded, and each thread keeps its stream.
pub record IsBounded (max_output : ℕ) (out error : Text) (s : System) : Type 0 where
  pub counted : s.shared.total_output ≡ length s.out.stored + length s.error.stored
  pub bounded : s.shared.total_output ≤ max_output
  pub kept_out : Keeps out s.shared.output_limit_reached s.out
  pub kept_error : Keeps error s.shared.output_limit_reached s.error

-- What a move of one thread means for the shared variables
record IsMoved (max_output : ℕ) (stream : Text) (s s' : Shared) (r r' : Reader) : Type 0 where
  counted : s'.total_output + length r.stored ≡ s.total_output + length r'.stored
  bounded : s.total_output ≤ max_output → s'.total_output ≤ max_output
  grows : s'.output_limit_reached ≡ false → s.output_limit_reached ≡ false
  kept : Keeps stream s'.output_limit_reached r'

or_false : (a b : Bool) → (a || b) ≡ false → (a ≡ false) × (b ≡ false)
or_false true b h = cc h
or_false false b h = (refl, h)

Keeps-grows :
    (stream : Text) (reached reached' : Bool) (pc : Pc) (stored rest : Text)
    → (reached' ≡ false → reached ≡ false)
    → KeepsBy pc stream reached stored rest
    → KeepsBy pc stream reached' stored rest
Keeps-grows stream reached reached' reading stored rest grows h = h
Keeps-grows stream reached reached' (holding chunk) stored rest grows h = h
Keeps-grows stream reached reached' stopped stored rest grows (lost, whole, none_lost) =
    (lost, whole, λ e. none_lost (grows e))

-- What a thread keeps of a chunk, by whether that is all of it
after_store :
    (stream chunk kept lost before rest : Text) (reached whole : Bool)
    → (whole ≡ true → kept ≡ chunk)
    → kept ++ lost ≡ chunk
    → before ++ (chunk ++ rest) ≡ stream
    → Keeps stream
        (reached || not whole)
        (record { stored = before ++ kept; rest = rest; pc = if whole then reading else stopped })
after_store stream chunk kept lost before rest reached true all split h =
    append_assoc before kept rest ∙ ap (λ k. before ++ (k ++ rest)) (all refl) ∙ h
after_store stream chunk kept lost before rest reached false all split h = (
  lost ++ rest,
  append_assoc before kept (lost ++ rest)
      ∙ ap (λ k. before ++ k) (sym (append_assoc kept lost rest))
      ∙ ap (λ c. before ++ (c ++ rest)) split
      ∙ h,
  λ e. cc (or_false reached true e).1,
)

store-IsMoved :
    (max_output : ℕ) (stream stored rest chunk : Text) (s : Shared)
    → stored ++ (chunk ++ rest) ≡ stream
    → IsMoved max_output stream s
        (store max_output s stored rest chunk).0
        (record { stored = stored; rest = rest; pc = holding chunk })
        (store max_output s stored rest chunk).1
unfolding store accepted
store-IsMoved max_output stream stored rest chunk s h =
    let n = max_output - s.total_output in
    record {
      counted = omega (arith, length-append stored (take n chunk));
      bounded = λ bound. omega (arith, length-take n chunk);
      grows = λ e. (or_false s.output_limit_reached _ e).0;
      kept =
          after_store stream chunk (take n chunk) (drop n chunk) stored rest s.output_limit_reached
            _ (λ e. take-all n chunk ((==_iff _ _).0 e)) (take-append-drop n chunk) h;
    }

Move-IsMoved :
    {max_output : ℕ} (stream : Text) {s s' : Shared} {r r' : Reader}
    → Move max_output s r s' r'
    → Keeps stream s.output_limit_reached r
    → IsMoved max_output stream s s' r r'
Move-IsMoved stream (fetch chunk rest _ _) kept = record {
  counted = refl;
  bounded = λ h. h;
  grows = λ e. e;
  kept = kept;
}
Move-IsMoved stream finish kept = record {
  counted = refl;
  bounded = λ h. h;
  grows = λ e. e;
  kept = ([], kept, λ _. refl);
}
Move-IsMoved stream blocks kept = record {
  counted = refl;
  bounded = λ h. h;
  grows = λ e. e;
  kept = kept;
}
Move-IsMoved stream {s = s} (keep {stored = stored} {rest = rest} chunk) kept =
    store-IsMoved _ stream stored rest chunk s kept

Step-IsBounded :
    {max_output : ℕ} {out error : Text} {s s' : System}
    → Step max_output s s'
    → IsBounded max_output out error s
    → IsBounded max_output out error s'
Step-IsBounded {out = out} (out_moves move) b =
    let m = Move-IsMoved out move b.kept_out in
    record {
      counted = omega (arith, m.counted, b.counted);
      bounded = m.bounded b.bounded;
      kept_out = m.kept;
      kept_error = Keeps-grows _ _ _ _ _ _ m.grows b.kept_error;
    }
Step-IsBounded {error = error} (error_moves move) b =
    let m = Move-IsMoved error move b.kept_error in
    record {
      counted = omega (arith, m.counted, b.counted);
      bounded = m.bounded b.bounded;
      kept_out = Keeps-grows _ _ _ _ _ _ m.grows b.kept_out;
      kept_error = m.kept;
    }

Reach-IsBounded :
    {max_output : ℕ} {out error : Text} {s : System}
    → Reach max_output (started out error) s
    → IsBounded max_output out error s
Reach-IsBounded here = record {
  counted = refl;
  bounded = omega arith;
  kept_out = refl;
  kept_error = refl;
}
Reach-IsBounded (later reach step) = Step-IsBounded step (Reach-IsBounded reach)

-- What a thread has stored is a beginning of its stream.
stored_part :
    (stream stored rest : Text) (reached : Bool) (pc : Pc)
    → KeepsBy pc stream reached stored rest
    → IsPrefix stored stream
stored_part stream stored rest reached reading kept = (rest, kept)
stored_part stream stored rest reached (holding chunk) kept = (chunk ++ rest, kept)
stored_part stream stored rest reached stopped (lost, whole, _) = (lost, whole)

stored_whole :
    (stream stored rest : Text) (reached : Bool) (pc : Pc)
    → pc ≡ stopped
    → reached ≡ false
    → KeepsBy pc stream reached stored rest
    → stored ≡ stream
stored_whole stream stored rest reached reading at none_lost kept = cc at
stored_whole stream stored rest reached (holding chunk) at none_lost kept = cc at
stored_whole stream stored rest reached stopped at none_lost (lost, whole, nothing) =
    sym (append-nil stored) ∙ ap (λ l. stored ++ l) (sym (nothing none_lost)) ∙ whole

-- However the two threads are scheduled from their start, at every moment the two stored outputs
-- together are no longer than the policy allows, and each is a beginning of what its stream delivered.
pub reader_output-IsBounded :
    (max_output : ℕ) (out error : Text) (s : System)
    → Reach max_output (started out error) s
    → (length s.out.stored + length s.error.stored ≤ max_output)
      × IsPrefix s.out.stored out
      × IsPrefix s.error.stored error
reader_output-IsBounded max_output out error s reach =
    let b = Reach-IsBounded reach in
    (
      omega (arith, b.counted, b.bounded),
      stored_part _ _ s.out.rest s.shared.output_limit_reached s.out.pc b.kept_out,
      stored_part _ _ s.error.rest s.shared.output_limit_reached s.error.pc b.kept_error,
    )

-- However the two threads were scheduled from their start, when both have stopped and the limit is not
-- reported, all of both streams is stored.
pub reader_output-IsWhole :
    (max_output : ℕ) (out error : Text) (s : System)
    → Reach max_output (started out error) s
    → s.out.pc ≡ stopped
    → s.error.pc ≡ stopped
    → s.shared.output_limit_reached ≡ false
    → (s.out.stored ≡ out) × (s.error.stored ≡ error)
reader_output-IsWhole max_output out error s reach out_at error_at none_lost =
    let b = Reach-IsBounded reach in
    (
      stored_whole _ _ s.out.rest s.shared.output_limit_reached s.out.pc out_at none_lost
          b.kept_out,
      stored_whole _ _ s.error.rest s.shared.output_limit_reached s.error.pc error_at none_lost
          b.kept_error,
    )
