-- ===== src/Controller/Swap.antt =====
-- The identity swap of a ShadowPod migration of a StatefulSet: one module per sub-phase.
pub mod Prepare
pub mod ReCheckpoint
pub mod Transfer
pub mod Replacement
pub mod Identity
pub mod Fence
pub mod Rollback
pub mod Drain
pub mod Cutover
pub mod MiniReplay
pub mod TrafficSwitch
pub mod PreFence
