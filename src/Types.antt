-- ===== src/Types.antt =====
-- tile/types, tile/result.py and tile/events.py: the data that the components exchange.
pub mod Json
pub mod Blocks
pub mod Conversation
pub mod Outcome
pub mod Tools
pub mod Events
