-- ===== src/Proxy/Manager.antt =====
-- backend/internal/proxy/manager.go: which outbounds a username gets, and the life of the tunnels.
pub mod State
pub mod Score
pub mod Rank
pub mod Select
pub mod Resolve
pub mod Access
pub mod TrojanAccess
pub mod Rotation
pub mod Sticky
pub mod Reconcile
pub mod Listen
