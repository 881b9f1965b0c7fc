-- ===== src/Replay.antt =====
-- Replay specifications of src/rechnungsprobe/replay.py and their JSON form.
pub mod Defs
pub mod Write
pub mod Read
pub mod Policy
pub mod RoundTrip
