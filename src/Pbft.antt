-- ===== src/Pbft.antt =====
-- `src/pbft`: the messages, the protocol core and the replica around it, each in a child.
pub mod Message
pub mod Core
pub mod Replica
pub mod Agreement
pub mod Examples
