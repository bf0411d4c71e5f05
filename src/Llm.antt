-- ===== src/Llm.antt =====
-- llm/provider.go and tools/tool.go: messages, tool calls, requests and responses.
pub mod Value
pub mod Clone
pub mod Registry
pub mod Wrappers
mod Tests
mod Types
unfoldable pub use Types.*
