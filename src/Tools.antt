-- ===== src/Tools.antt =====
-- tile/tools: the built-in tools, as far as they are functions of texts.
pub mod Edit
pub mod Paths
pub mod Utf8
pub mod Accumulator
pub mod Read
