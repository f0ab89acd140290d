-- ===== src/Tests.antt =====
-- The theorems at concrete inputs, one module per part.
pub mod Frames
pub mod Data
pub mod Images
pub mod Channels
pub mod Scheduler
pub mod Syscalls
pub mod Heaps
pub mod Screens
