-- ===== src/Scheduler.antt =====
-- scheduler/scheduler.go: which WARP accounts are fit for use, which slot has which account, and
-- which accounts are deleted. The children follow the parts of the file.
pub mod Quality
pub mod Pool
pub mod Binding
pub mod Cleanup
pub mod Probe
