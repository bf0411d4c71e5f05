-- ===== src/Multiagent.antt =====
-- multiagent/: the router of registered agents.
pub mod Router
pub mod Tests
