-- ===== src/Cluster.antt =====
-- The cluster package (cloud/cluster/): nodes, updates of them, the view of the nodes, and the
-- subscribers that follow it.
pub mod Node
pub mod State
pub mod Subscriptions
mod Tests
mod SubscriptionTests
