-- ===== src/Process/Readers/Ends.antt =====
-- The two threads of `run_bounded_process` do a bounded amount of work, whichever of them moves and
-- however long a read waits.
use rechnungsprobe.Prelude.{
  ℕ, ◌+◌, ◌*◌, ◌≤◌, Text, Bool, true, false, ◌==◌, [], ◌∷◌, refl, arith, length, length-append,
  if◌then◌else◌,
}
use rechnungsprobe.Process.Readers.{
  Pc, reading, holding, stopped, Reader, Shared, System, store, accepted, Move, fetch, finish,
  blocks, keep, Step, out_moves, error_moves, started, Reach, here, later,
}

abbrev phase : Pc → ℕ
phase reading = 1
phase (holding chunk) = 2
phase stopped = 0

abbrev work : Reader → ℕ
work r = 2 * length r.rest + phase r.pc

abbrev left : System → ℕ
left s = work s.out + work s.error

after_chunk : (whole : Bool) → phase (if whole then reading else stopped) ≤ 1
after_chunk true = omega arith
after_chunk false = omega arith

-- Whether a move is more than waiting
abbrev pub effort : {max_output : ℕ} {s s' : Shared} {r r' : Reader} → Move max_output s r s' r' → ℕ
effort (fetch chunk rest _ _) = 1
effort finish = 1
effort blocks = 0
effort (keep chunk) = 1

abbrev pub step_effort : {max_output : ℕ} {s s' : System} → Step max_output s s' → ℕ
step_effort (out_moves move) = effort move
step_effort (error_moves move) = effort move

Move-work :
    {max_output : ℕ} {s s' : Shared} {r r' : Reader} (move : Move max_output s r s' r')
    → effort move + work r' ≤ work r
unfolding store accepted
Move-work (fetch [] rest some_chunk _) = absurd (some_chunk refl)
Move-work (fetch (c ∷ chunk) rest _ _) = omega (arith, length-append chunk rest)
Move-work finish = omega arith
Move-work blocks = omega arith
Move-work {max_output = max_output} {s = s} (keep chunk) =
    omega (arith, after_chunk (length (accepted max_output s chunk) == length chunk))

Step-left :
    {max_output : ℕ} {s s' : System} (step : Step max_output s s')
    → step_effort step + left s' ≤ left s
Step-left (out_moves move) = omega (arith, Move-work move)
Step-left (error_moves move) = omega (arith, Move-work move)

-- The moves of a schedule that are more than waiting
abbrev pub efforts : {max_output : ℕ} {s t : System} → Reach max_output s t → ℕ
efforts here = 0
efforts (later reach step) = step_effort step + efforts reach

efforts-left :
    {max_output : ℕ} {s t : System} (reach : Reach max_output s t) → efforts reach + left t ≤ left s
efforts-left here = omega arith
efforts-left (later reach step) = omega (arith, efforts-left reach, Step-left step)

-- However the two threads are scheduled and however long their reads wait, the moves that are more
-- than waiting, of both threads together, are at most two for each byte of the streams and two more.
pub readers_work :
    (max_output : ℕ) (out error : Text) (s : System)
    (reach : Reach max_output (started out error) s)
    → efforts reach ≤ 2 * (length out + length error) + 2
readers_work max_output out error s reach = omega (arith, efforts-left reach)
