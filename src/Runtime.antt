-- ===== src/Runtime.antt =====
-- agent/: the runtime around a turn.
pub mod State
pub mod Request
pub mod Transfer
pub mod Payload
pub mod Subagents
pub mod Executor
pub mod Tests
