-- ===== src/Runtime.antt =====
-- tile/runtime, tile/agent.py and tile/tool_executor.py: what happens while a run is live.
pub mod History
pub mod ToolExecutor
pub mod Agent
pub mod Execution
pub mod Run
mod Examples
