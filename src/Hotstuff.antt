-- ===== src/Hotstuff.antt =====
-- HotStuff: `src/hotstuff`.
pub mod Message
pub mod Slab
pub mod Core
pub mod Replica
pub mod Examples
