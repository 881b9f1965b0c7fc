-- ===== src/Mutate.antt =====
-- The mutators of src/rechnungsprobe/mutators.py.
pub mod Calendar
pub mod Fields
pub mod Named
