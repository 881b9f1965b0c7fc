-- ===== src/Process/Readers.antt =====
-- The two threads that run `read_stream` in `run_bounded_process` of src/rechnungsprobe/process.py. A
-- thread fetches a chunk without the lock, and takes what fits of it under the lock, in one step. `read1`
-- may wait for ever: `join(timeout=2)` then leaves a thread that has not stopped.
pub mod Bounded
pub mod Ends
use rechnungsprobe.Prelude.{
  ℕ, ◌+◌, ◌-◌, ◌≤◌, Text, Bool, true, false, not, ◌||◌, ◌==◌, List, [], ◌∷◌, ◌++◌, ◌≡◌, ◌≢◌, length,
  take, if◌then◌else◌,
}

-- Where a thread stands in its loop; `holding` a chunk that it has not stored.
pub data Pc : Type 0 where
  reading : Pc
  holding : Text → Pc
  stopped : Pc

-- A thread, with its stored output and what its stream has still to deliver.
pub record Reader : Type 0 where
  pub stored : Text
  pub rest : Text
  pub pc : Pc

-- The variables that the threads share under `output_lock`
pub record Shared : Type 0 where
  pub total_output : ℕ
  pub output_limit_reached : Bool

pub record System : Type 0 where
  pub out : Reader
  pub error : Reader
  pub shared : Shared

-- The part of a chunk that fits
unfoldable pub accepted : ℕ → Shared → Text → Text
accepted max_output shared chunk = take (max_output - shared.total_output) chunk

-- The body of the `with` block: the shared variables, and the thread.
unfoldable pub store : ℕ → Shared → Text → Text → Text → Shared × Reader
unfolding accepted
store max_output shared stored rest chunk =
    let kept = accepted max_output shared chunk in
    let whole = length kept == length chunk in
    (
      record {
        total_output = shared.total_output + length kept;
        output_limit_reached = shared.output_limit_reached || not whole;
      },
      record { stored = stored ++ kept; rest = rest; pc = if whole then reading else stopped },
    )

-- What one thread can do.
pub data Move (max_output : ℕ) : Shared → Reader → Shared → Reader → Type 0 where
  -- `read1` returns a chunk.
  fetch :
      {s : Shared} {stored : Text}
      → (chunk rest : Text) → chunk ≢ []
      → length chunk ≤ 65536
      → Move max_output s
          (record { stored = stored; rest = chunk ++ rest; pc = reading })
          s
          (record { stored = stored; rest = rest; pc = holding chunk })
  -- `read1` returns nothing at the end of the stream.
  finish :
      {s : Shared} {stored : Text}
      → Move max_output s
          (record { stored = stored; rest = []; pc = reading })
          s
          (record { stored = stored; rest = []; pc = stopped })
  -- `read1` waits, for as long as it likes: the stream is open and delivers nothing yet.
  blocks :
      {s : Shared} {stored rest : Text}
      → Move max_output s
          (record { stored = stored; rest = rest; pc = reading })
          s
          (record { stored = stored; rest = rest; pc = reading })
  keep :
      {s : Shared} {stored rest : Text}
      → (chunk : Text)
      → Move max_output s
          (record { stored = stored; rest = rest; pc = holding chunk })
          (store max_output s stored rest chunk).0
          (store max_output s stored rest chunk).1

-- The threads take turns in any order.
pub data Step (max_output : ℕ) : System → System → Type 0 where
  out_moves :
      {o o' e : Reader} {s s' : Shared}
      → Move max_output s o s' o'
      → Step max_output
          (record { out = o; error = e; shared = s })
          (record { out = o'; error = e; shared = s' })
  error_moves :
      {o e e' : Reader} {s s' : Shared}
      → Move max_output s e s' e'
      → Step max_output
          (record { out = o; error = e; shared = s })
          (record { out = o; error = e'; shared = s' })

-- Both threads at their start, on these streams
abbrev pub started : Text → Text → System
started out error = record {
  out = record { stored = []; rest = out; pc = reading };
  error = record { stored = []; rest = error; pc = reading };
  shared = record { total_output = 0; output_limit_reached = false };
}

pub data Reach (max_output : ℕ) (s : System) : System → Type 0 where
  here : Reach max_output s s
  later : {t u : System} → Reach max_output s t → Step max_output t u → Reach max_output s u
