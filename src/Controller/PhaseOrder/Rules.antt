-- ===== src/Controller/PhaseOrder/Rules.antt =====
-- The rules by which a handler is shown to keep the order of the phases, and the helpers that fail.
use kubernetes_controller.Base.{inr, Option, none, some, String}
use kubernetes_controller.Api.{Phase}
use kubernetes_controller.Cluster.{Env}
use kubernetes_controller.Messaging.{Result, ok, err}
use kubernetes_controller.Controller.Keeps.{
  Keeps, keeps_rules, Keeps-if, Keeps-bind, Keeps-pure, Keeps-skip, Keeps-return_with,
}
use kubernetes_controller.Controller.PhaseOrder.{Stored, SoleWriter, InOrder}
use kubernetes_controller.Controller.Helpers.{
  fail_migration, fail_with, or_fail, fail_if_error, polling_backoff,
}
use kubernetes_controller.Controller.PhaseOrder.Outside.{
  time_now-Within, connect-Within, close-Within, create_secondary_queue-Within, unbind_queue-Within,
  delete_secondary_queue-Within, get_queue_depth-Within, get_queue_stats-Within,
  send_control_message-Within, bind_queue-Within, declare_and_bind_queue-Within,
  delete_queue-Within, checkpoint-Within, agent_post-Within,
}
use kubernetes_controller.Controller.PhaseOrder.Calls.{
  get_pod-Within, get_stateful_set-Within, get_deployment-Within, get_replica_set-Within,
  get_job-Within, create_pod-Within, create_job-Within, delete_pod-Within, patch_pod-Within,
  patch_stateful_set-Within, patch_deployment-Within, list_agent_pods-Within, modify-Within,
  patch_status-Within,
}

pub ruleset call_rules = (
  keeps_rules, time_now-Within, connect-Within, close-Within, create_secondary_queue-Within,
  unbind_queue-Within, delete_secondary_queue-Within, get_queue_depth-Within,
  get_queue_stats-Within, send_control_message-Within, bind_queue-Within,
  declare_and_bind_queue-Within, delete_queue-Within, checkpoint-Within, agent_post-Within,
  get_pod-Within, get_stateful_set-Within, get_deployment-Within, get_replica_set-Within,
  get_job-Within, create_pod-Within, create_job-Within, delete_pod-Within, patch_pod-Within,
  patch_stateful_set-Within, patch_deployment-Within, list_agent_pods-Within, modify-Within,
  patch_status-Within,
)

module _ (E : Env) (L : SoleWriter E) {Q : Stored → Type 0} where
  pub fail_migration-InOrder :
      {p : Phase} (reason : String) → Keeps (InOrder L Q p) (fail_migration E reason)
  unfolding fail_migration
  fail_migration-InOrder reason = search (call_rules, inr, L) depth 12

  pub fail_with-InOrder :
      {p : Phase} {A : Type 0} (reason : String)
      → Keeps (InOrder L Q p) (fail_with E {A = A} reason)
  unfolding fail_with
  fail_with-InOrder reason = search (call_rules, fail_migration-InOrder) depth 12

  pub or_fail-InOrder :
      {p : Phase} {A : Type 0} (r : Result A) (f : String → String)
      → Keeps (InOrder L Q p) (or_fail E r f)
  unfolding or_fail
  or_fail-InOrder (ok a) f = search keeps_rules
  or_fail-InOrder (err e) f = fail_with-InOrder (f e)

  pub fail_if_error-InOrder :
      {p : Phase} (e : Option String) (f : String → String)
      → Keeps (InOrder L Q p) (fail_if_error E e f)
  unfolding fail_if_error
  fail_if_error-InOrder none f = search keeps_rules
  fail_if_error-InOrder (some e) f = fail_with-InOrder (f e)

  pub polling_backoff-InOrder :
      {p : Phase} (key : String) → Keeps (InOrder L Q p) (polling_backoff E key)
  unfolding polling_backoff
  polling_backoff-InOrder key = search call_rules depth 12

pub ruleset fail_rules = (
  call_rules, fail_migration-InOrder, fail_with-InOrder, or_fail-InOrder, fail_if_error-InOrder,
  polling_backoff-InOrder,
)
