-- ===== src/Shrink.antt =====
-- src/rechnungsprobe/shrink.py: the reductions of an invoice, the greedy shrinking loop and the
-- independent check of 1-minimality. The children hold the definitions in the source's order, then
-- the proofs.
pub mod Operations
pub mod Parties
pub mod Lines
pub mod Steps
pub mod Loop
pub mod Calls
pub mod Accepting
pub mod Gathering
pub mod Path
pub mod Sound
pub mod Verify
pub mod Stale
pub mod Size
pub mod Smaller
pub mod Decrease
pub mod Unique
pub mod Terminates
