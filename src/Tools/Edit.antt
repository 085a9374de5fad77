-- ===== src/Tools/Edit.antt =====
-- tile/tools/edit.py: targeted replacements in one text file.
pub mod Endings
pub mod RoundTrip
pub mod Errors
pub mod Spans
pub mod Scan
pub mod Order
pub mod Splice
pub mod Lines
pub mod Fuzzy
pub mod Apply
pub mod Exact
pub mod Missing
pub mod Kept
pub mod Windows
pub mod FuzzyMatches
pub mod Told
pub mod Returns
pub mod Settles
mod Examples
