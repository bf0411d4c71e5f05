-- ===== src/Streaming.antt =====
-- streaming/: the token and cost budget of a session, and the assembler of streamed tool calls.
pub mod Budget
pub mod Assembler
pub mod Tests
