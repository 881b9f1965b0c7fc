-- ===== src/Process/Monitor/Sums.antt =====
-- The sums that `_resource_termination` of src/rechnungsprobe/process.py takes over the processes.
use rechnungsprobe.Prelude.{ℕ, ◌+◌, Option, none, some, List, [], ◌∷◌, ◌≡◌, ◌∙◌, refl, ap, arith}
use rechnungsprobe.Process.Monitor.{Consumption, add_one, add_up}

-- A process counts with its memory where that can be read, and with its processor time where both can.
abbrev pub readable_memory : Consumption → ℕ
readable_memory c = elim c.rss [ some memory ↦ memory | none ↦ 0 ]

abbrev pub readable_time : Consumption → ℕ
readable_time c = elim c.rss [
  | some memory ↦ elim c.cpu [ some seconds ↦ seconds | none ↦ 0 ]
  | none ↦ 0
]

abbrev pub sum : (Consumption → ℕ) → List Consumption → ℕ
sum of [] = 0
sum of (c ∷ rest) = of c + sum of rest

add_one-memory :
    (rss cpu : Option ℕ) (sums : ℕ × ℕ)
    → (add_one rss cpu sums).0 ≡ readable_memory (record { rss = rss; cpu = cpu }) + sums.0
unfolding add_one
add_one-memory none cpu sums = omega arith
add_one-memory (some memory) none sums = refl
add_one-memory (some memory) (some seconds) sums = refl

add_one-time :
    (rss cpu : Option ℕ) (sums : ℕ × ℕ)
    → (add_one rss cpu sums).1 ≡ readable_time (record { rss = rss; cpu = cpu }) + sums.1
unfolding add_one
add_one-time none cpu sums = omega arith
add_one-time (some memory) none sums = omega arith
add_one-time (some memory) (some seconds) sums = refl

pub add_up-memory :
    (processes : List Consumption) → (add_up processes).0 ≡ sum readable_memory processes
unfolding add_up
add_up-memory [] = refl
add_up-memory (c ∷ rest) =
    add_one-memory c.rss c.cpu (add_up rest) ∙ ap (λ n. readable_memory c + n) (add_up-memory rest)

pub add_up-time :
    (processes : List Consumption) → (add_up processes).1 ≡ sum readable_time processes
unfolding add_up
add_up-time [] = refl
add_up-time (c ∷ rest) =
    add_one-time c.rss c.cpu (add_up rest) ∙ ap (λ n. readable_time c + n) (add_up-time rest)
