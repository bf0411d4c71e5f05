-- ===== src/Compaction.antt =====
-- compaction/: reducing a conversation before it is sent or stored.
mod Types
pub mod Estimator
pub mod Trigger
pub mod Engine
pub mod Turns
pub mod SlidingWindow
pub mod TurnWindow
pub mod TokenLimit
pub mod Default
mod Tests
unfoldable pub use Types.*
