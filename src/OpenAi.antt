-- ===== src/OpenAi.antt =====
-- tile/providers/openai: the normalized events, the stream assembler, and both sides of the
-- client library: its stream events and the items of a request.
pub mod Normalized
pub mod Assembler
pub mod Serialization
pub mod SdkAdapter
