-- ===== src/Versions.antt =====
-- Versioned buffers: the build of one version of a buffer into a leased backing
-- (src/VersionedBufferBuild.cpp, include/ORGModuleServices/VersionedBufferBuild.h).
pub mod Intervals
pub mod Delta
pub mod Version
pub mod Choice
pub mod Predecessor
pub mod Replay
pub mod Snapshot
pub mod Build
