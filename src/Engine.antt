-- ===== src/Engine.antt =====
-- agent/internal/engine: one turn of an agent as a loop of steps over hooks, and the commands that a
-- step asks the runtime for.
mod Types
pub mod Commands
pub mod Plan
pub mod Turn
mod Tests
unfoldable pub use Types.*
