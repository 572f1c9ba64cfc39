-- ===== src/Cluster.antt =====
-- The package cluster: what a node of the cluster does on its own, and with the remote nodes that it
-- is connected to.
pub mod Types
pub mod Queues
pub mod Ping
pub mod Verify
pub mod Sync
pub mod Handlers
pub mod Steps
pub mod Wire
pub mod Membership
pub mod Client
