-- ===== src/Controller/Phases.antt =====
-- The handlers of the phases, one module each.
pub mod Pending
pub mod Checkpointing
pub mod Transferring
pub mod Restoring
pub mod Replaying
pub mod Finalizing
