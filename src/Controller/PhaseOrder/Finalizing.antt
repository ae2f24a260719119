-- ===== src/Controller/PhaseOrder/Finalizing.antt =====
-- Finalizing keeps the order of the phases.
use kubernetes_controller.Base.{inl, inr, Option, none, some, ℕ}
use kubernetes_controller.Api.{Phase, SwapSubPhase, StatefulMigration}
use kubernetes_controller.Cluster.{Env, Lookup, Pod, StatefulSet, Deployment}
use kubernetes_controller.Controller.Keeps.{Keeps, keeps_rules}
use kubernetes_controller.Controller.PhaseOrder.{Stored, SoleWriter, InOrder}
use kubernetes_controller.Controller.PhaseOrder.Rules.{call_rules}
use kubernetes_controller.Controller.Helpers.{SwapReply, record_phase_timing}
use kubernetes_controller.Controller.PhaseOrder.Identity.{identity_swap-InOrder}
use kubernetes_controller.Controller.Phases.Finalizing.{
  stamp_finalizing, tear_down_replay, after_swap, swap, delete_source, retire_source,
  pin_deployment, settle_deployment, disown, scale_back, hand_back, complete, handle_finalizing,
}

module _ (E : Env) (L : SoleWriter E) {Q : Stored → Type 0} where
  stamp_finalizing-InOrder : {p : Phase} → Keeps (InOrder L Q p) (stamp_finalizing E)
  unfolding stamp_finalizing
  stamp_finalizing-InOrder = search call_rules depth 12

  tear_down_replay-InOrder :
      {p : Phase} (x : SwapSubPhase) → Keeps (InOrder L Q p) (tear_down_replay E x)
  unfolding tear_down_replay
  tear_down_replay-InOrder SwapSubPhase.unset = search call_rules depth 12
  tear_down_replay-InOrder _ = search keeps_rules

  after_swap-InOrder : {p : Phase} (r : Option SwapReply) → Keeps (InOrder L Q p) (after_swap E r)
  unfolding after_swap
  after_swap-InOrder none = search keeps_rules
  after_swap-InOrder (some r) = search keeps_rules

  swap-InOrder : {p : Phase} (fuel : ℕ) → Keeps (InOrder L Q p) (swap E fuel)
  unfolding swap
  swap-InOrder fuel = record { at = λ s h. identity_swap-InOrder E L fuel s h }

  delete_source-InOrder : {p : Phase} (l : Lookup Pod) → Keeps (InOrder L Q p) (delete_source E l)
  unfolding delete_source
  delete_source-InOrder (Lookup.found x) = search call_rules depth 12
  delete_source-InOrder Lookup.not_found = search keeps_rules
  delete_source-InOrder (Lookup.failed e) = search keeps_rules

  retire_source-InOrder : {p : Phase} (fuel : ℕ) → Keeps (InOrder L Q p) (retire_source E fuel)
  unfolding retire_source
  retire_source-InOrder fuel =
      search (call_rules, swap-InOrder, after_swap-InOrder, delete_source-InOrder) depth 15

  pin_deployment-InOrder :
      {p : Phase} (l : Lookup Deployment) → Keeps (InOrder L Q p) (pin_deployment E l)
  unfolding pin_deployment
  pin_deployment-InOrder (Lookup.found x) = search call_rules depth 12
  pin_deployment-InOrder Lookup.not_found = search keeps_rules
  pin_deployment-InOrder (Lookup.failed e) = search keeps_rules

  settle_deployment-InOrder : {p : Phase} → Keeps (InOrder L Q p) (settle_deployment E)
  unfolding settle_deployment
  settle_deployment-InOrder = search (call_rules, pin_deployment-InOrder) depth 12

  disown-InOrder : {p : Phase} (l : Lookup Pod) → Keeps (InOrder L Q p) (disown E l)
  unfolding disown
  disown-InOrder (Lookup.found x) = search call_rules depth 12
  disown-InOrder Lookup.not_found = search keeps_rules
  disown-InOrder (Lookup.failed e) = search keeps_rules

  scale_back-InOrder : {p : Phase} (l : Lookup StatefulSet) → Keeps (InOrder L Q p) (scale_back E l)
  unfolding scale_back
  scale_back-InOrder (Lookup.found x) = search call_rules depth 12
  scale_back-InOrder Lookup.not_found = search keeps_rules
  scale_back-InOrder (Lookup.failed e) = search keeps_rules

  hand_back-InOrder : {p : Phase} → Keeps (InOrder L Q p) (hand_back E)
  unfolding hand_back
  hand_back-InOrder = search (call_rules, disown-InOrder, scale_back-InOrder) depth 15

  complete-InOrder :
      (base : StatefulMigration) → Keeps (InOrder L Q Phase.finalizing) (complete E base)
  unfolding complete record_phase_timing
  complete-InOrder base = search (call_rules, inl, inr) depth 15

  pub handle_finalizing-InOrder :
      (fuel : ℕ) → Keeps (InOrder L Q Phase.finalizing) (handle_finalizing E fuel)
  unfolding handle_finalizing
  handle_finalizing-InOrder fuel =
      search
        (
          call_rules, stamp_finalizing-InOrder, tear_down_replay-InOrder, retire_source-InOrder,
          settle_deployment-InOrder, hand_back-InOrder, complete-InOrder,
        )
        depth 15
