-- ===== src/Controller.antt =====
-- The reconciler (internal/controller/statefulmigration_controller.go).
pub mod Monad
pub mod Calls
pub mod Helpers
pub mod Agent
pub mod Delivery
pub mod Swap
pub mod Phases
pub mod Reconcile
pub mod JobRuns
pub mod Keeps
pub mod Choices
pub mod Labels
pub mod Gates
pub mod Livelock
pub mod Settling
pub mod PhaseOrder
pub mod Routing
pub mod Tracking
