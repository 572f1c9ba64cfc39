-- ===== src/Tests.antt =====
-- The theorems at concrete data: association lists for the ordered trees, lists for the sets.
pub mod Queue
pub mod Cache
pub mod Message
pub mod Json
pub mod Refines
pub mod Nodes
pub mod Cluster
pub mod Wire
pub mod Steps
pub mod Iterator
pub mod NodeId
