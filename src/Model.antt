-- ===== src/Model.antt =====
-- src/rechnungsprobe/model.py: the invoice, its validation, its totals, its two encodings, as an
-- XML document and as the JSON text behind the semantic fingerprint, and its parsing.
pub mod Invoice
pub mod Validate
pub mod Totals
pub mod Xml
pub mod Serialize
pub mod Fingerprint
pub mod Parse
