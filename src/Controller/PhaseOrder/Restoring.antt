-- ===== src/Controller/PhaseOrder/Restoring.antt =====
-- Restoring keeps the order of the phases.
use kubernetes_controller.Base.{inl, inr, Option, none, some, ℕ}
use kubernetes_controller.Api.{Phase}
use kubernetes_controller.Cluster.{Env, Lookup, Pod, StatefulSet, Created}
use kubernetes_controller.Controller.Keeps.{Keeps, keeps_rules}
use kubernetes_controller.Controller.PhaseOrder.{Stored, SoleWriter, InOrder}
use kubernetes_controller.Controller.PhaseOrder.Rules.{
  call_rules, fail_rules, fail_migration-InOrder, fail_with-InOrder,
}
use kubernetes_controller.Controller.Helpers.{transition_phase}
use kubernetes_controller.Controller.PhaseOrder.Early.{begin_phase-InOrder, end_phase-InOrder}
use kubernetes_controller.Controller.Phases.Restoring.{
  scale_to_zero, scale_found, await_scale_down, target_runs, await_target, after_create, of_source,
  create_target, follow_target, handle_restoring,
}

module _ (E : Env) (L : SoleWriter E) {Q : Stored → Type 0} where
  scale_to_zero-InOrder :
      {p : Phase} (x : StatefulSet) (n : Option ℕ) → Keeps (InOrder L Q p) (scale_to_zero E x n)
  unfolding scale_to_zero
  scale_to_zero-InOrder x none = search keeps_rules
  scale_to_zero-InOrder x (some n) = search (fail_rules, L) depth 15

  scale_found-InOrder :
      {p : Phase} (l : Lookup StatefulSet) → Keeps (InOrder L Q p) (scale_found E l)
  unfolding scale_found
  scale_found-InOrder (Lookup.found x) = scale_to_zero-InOrder x _
  scale_found-InOrder Lookup.not_found = search keeps_rules
  scale_found-InOrder (Lookup.failed e) = search keeps_rules

  await_target-InOrder : (x : Pod) → Keeps (InOrder L Q Phase.restoring) (await_target E x)
  unfolding await_target await_scale_down target_runs transition_phase
  await_target-InOrder x =
      search (fail_rules, scale_found-InOrder, inl, inr, L, end_phase-InOrder) depth 15

  of_source-InOrder : {p : Phase} (l : Lookup Pod) → Keeps (InOrder L Q p) (of_source E l)
  unfolding of_source
  of_source-InOrder (Lookup.found x) = search keeps_rules
  of_source-InOrder Lookup.not_found = fail_with-InOrder E L _
  of_source-InOrder (Lookup.failed e) = fail_with-InOrder E L _

  after_create-InOrder : {p : Phase} (r : Created) → Keeps (InOrder L Q p) (after_create E r)
  unfolding after_create
  after_create-InOrder Created.created = search keeps_rules
  after_create-InOrder Created.already_exists = search keeps_rules
  after_create-InOrder (Created.failed e) = fail_migration-InOrder E L _

  follow_target-InOrder : (l : Lookup Pod) → Keeps (InOrder L Q Phase.restoring) (follow_target E l)
  unfolding follow_target create_target
  follow_target-InOrder (Lookup.found x) = await_target-InOrder x
  follow_target-InOrder Lookup.not_found =
      search (call_rules, of_source-InOrder, after_create-InOrder) depth 12
  follow_target-InOrder (Lookup.failed e) = search keeps_rules

  pub handle_restoring-InOrder : Keeps (InOrder L Q Phase.restoring) (handle_restoring E)
  unfolding handle_restoring
  handle_restoring-InOrder =
      search (call_rules, begin_phase-InOrder, follow_target-InOrder) depth 12
