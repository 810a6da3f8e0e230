-- ===== src/Platform.antt =====
-- The platform layer: PlatformLayer/inc and its POSIX implementation in PlatformLayer/posix/src.
pub mod Codes
pub mod Event
pub mod File
pub mod Files
