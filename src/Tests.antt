-- ===== src/Tests.antt =====
-- The theorems at concrete inputs.
pub mod Chip
pub mod Frames
pub mod Displays
pub mod Thread
pub mod Buffers
pub mod Cards
pub mod Pipelines
pub mod Plugging
pub mod Shown
