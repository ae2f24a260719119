-- ===== src/Controller/PhaseOrder/Loop.antt =====
-- A reconciliation keeps the order of the phases.
use kubernetes_controller.Base.{inl, inr, ℕ}
use kubernetes_controller.Api.{Phase}
use kubernetes_controller.Cluster.{Env}
use kubernetes_controller.Controller.Monad.{St}
use kubernetes_controller.Controller.Keeps.{Keeps}
use kubernetes_controller.Controller.PhaseOrder.{Stored, SoleWriter, InOrder}
use kubernetes_controller.Controller.PhaseOrder.Rules.{call_rules}
use kubernetes_controller.Controller.Helpers.{transition_phase}
use kubernetes_controller.Controller.Reconcile.{begin_migration, handle}
use kubernetes_controller.Controller.PhaseOrder.Pending.{handle_pending-InOrder}
use kubernetes_controller.Controller.PhaseOrder.Early.{
  handle_checkpointing-InOrder, handle_transferring-InOrder,
}
use kubernetes_controller.Controller.PhaseOrder.Restoring.{handle_restoring-InOrder}
use kubernetes_controller.Controller.PhaseOrder.Replaying.{handle_replaying-InOrder}
use kubernetes_controller.Controller.PhaseOrder.Finalizing.{handle_finalizing-InOrder}

module _ (E : Env) (L : SoleWriter E) {Q : Stored → Type 0} where
  begin_migration-InOrder : Keeps (InOrder L Q Phase.unset) (begin_migration E)
  unfolding begin_migration transition_phase
  begin_migration-InOrder = search (call_rules, inl, inr) depth 15

  -- One round of the reconciler, from the phase `p` of the object and of the API server: the object,
  -- what is stored of it, and every status that is written, hold `p`, the phase after it, or Failed,
  -- if those that were written before do.
  pub handle-InOrder :
      (fuel : ℕ) (p : Phase) (s : St E.World)
      → InOrder L Q p s
      → InOrder L Q p (handle E fuel p s).1
  unfolding handle
  handle-InOrder fuel Phase.unset s h = begin_migration-InOrder.at s h
  handle-InOrder fuel Phase.pending s h = (handle_pending-InOrder E L).at s h
  handle-InOrder fuel Phase.checkpointing s h = (handle_checkpointing-InOrder E L).at s h
  handle-InOrder fuel Phase.transferring s h = (handle_transferring-InOrder E L).at s h
  handle-InOrder fuel Phase.restoring s h = (handle_restoring-InOrder E L).at s h
  handle-InOrder fuel Phase.replaying s h = (handle_replaying-InOrder E L).at s h
  handle-InOrder fuel Phase.finalizing s h = (handle_finalizing-InOrder E L fuel).at s h
  handle-InOrder fuel Phase.completed s h = h
  handle-InOrder fuel Phase.failed s h = h
  handle-InOrder fuel (Phase.other x) s h = h
