-- ===== src/Malloc.antt =====
-- malloclab: the simulated memory system, the driver's check of the payloads, and the allocator.
pub mod Memlib
pub mod Ranges
pub mod Blocks
pub mod FreeLists
pub mod Mm
pub mod Implicit
pub mod Driver
pub mod Trace
pub mod Utilization
pub mod Speed
mod Tests
mod Witnesses
