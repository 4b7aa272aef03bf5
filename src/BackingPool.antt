-- ===== src/BackingPool.antt =====
-- include/ORGModuleServices/BackingPool.h and src/BackingPool.cpp: pooled allocations, leased per
-- version and reused once retired.
pub mod Backing
pub mod Store
pub mod State
pub mod Acquire
pub mod Upkeep
pub mod Circulation
pub mod Candidates
pub mod Choosing
pub mod Placement
pub mod Exclusive
pub mod Granting
pub mod Life
pub mod Reach
pub mod Epochs
