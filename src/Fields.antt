-- ===== src/Fields.antt =====
-- Structured fields: src/format/format.c encodes them into the wire region that a record carries and
-- reads them back, and src/output/output.c filters the region by a sink's key whitelist.
pub mod Wire
pub mod Reads
pub mod Serialize
pub mod Added
pub mod Loop
pub mod RoundTrip
pub mod Filter
pub mod Kept
pub mod Filtered
pub mod Keys
pub mod Listed
mod Tests
