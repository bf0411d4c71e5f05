-- ===== src/Tools.antt =====
-- tools/: the registry of tools and the dispatcher of tool calls.
pub mod Registry
pub mod Dispatcher
pub mod Tests
