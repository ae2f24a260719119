-- ===== src/Controller/Settling/Calls.antt =====
-- No call returns from its handler.

use kubernetes_controller.Base.{ℕ, String, Option}
use kubernetes_controller.Api.{StatefulMigration}
use kubernetes_controller.Messaging.{ControlMessageType, Payload}
use kubernetes_controller.Cluster.{Env, KubeletClient, Pod, Job, StatefulSet, Deployment}
use kubernetes_controller.Controller.Monad.{modify}
use kubernetes_controller.Controller.Calls
use kubernetes_controller.Controller.Settling.{Returned, Settles, any}

module _ (E : Env) {R : Type 0} {G : Returned E R} where
  pub time_now-Settles : Settles E G (any E) (Calls.time_now E {R = R})
  unfolding Calls.time_now
  time_now-Settles = record { at = λ s. tt }

  pub connect-Settles : (url : String) → Settles E G (any E) (Calls.connect E {R = R} url)
  unfolding Calls.connect
  connect-Settles url = record { at = λ s. tt }

  pub close-Settles : Settles E G (any E) (Calls.close E {R = R})
  unfolding Calls.close
  close-Settles = record { at = λ s. tt }

  pub create_secondary_queue-Settles :
      (q ex key : String) → Settles E G (any E) (Calls.create_secondary_queue E {R = R} q ex key)
  unfolding Calls.create_secondary_queue
  create_secondary_queue-Settles q ex key = record { at = λ s. tt }

  pub unbind_queue-Settles :
      (q ex : String) → Settles E G (any E) (Calls.unbind_queue E {R = R} q ex)
  unfolding Calls.unbind_queue
  unbind_queue-Settles q ex = record { at = λ s. tt }

  pub delete_secondary_queue-Settles :
      (q p' ex : String) → Settles E G (any E) (Calls.delete_secondary_queue E {R = R} q p' ex)
  unfolding Calls.delete_secondary_queue
  delete_secondary_queue-Settles q p' ex = record { at = λ s. tt }

  pub get_queue_depth-Settles :
      (q : String) → Settles E G (any E) (Calls.get_queue_depth E {R = R} q)
  unfolding Calls.get_queue_depth
  get_queue_depth-Settles q = record { at = λ s. tt }

  pub get_queue_stats-Settles :
      (q : String) → Settles E G (any E) (Calls.get_queue_stats E {R = R} q)
  unfolding Calls.get_queue_stats
  get_queue_stats-Settles q = record { at = λ s. tt }

  pub send_control_message-Settles :
      (pod : String) (t : ControlMessageType) (pl : Payload)
      → Settles E G (any E) (Calls.send_control_message E {R = R} pod t pl)
  unfolding Calls.send_control_message
  send_control_message-Settles pod t pl = record { at = λ s. tt }

  pub bind_queue-Settles : (q ex : String) → Settles E G (any E) (Calls.bind_queue E {R = R} q ex)
  unfolding Calls.bind_queue
  bind_queue-Settles q ex = record { at = λ s. tt }

  pub declare_and_bind_queue-Settles :
      (q ex : String) → Settles E G (any E) (Calls.declare_and_bind_queue E {R = R} q ex)
  unfolding Calls.declare_and_bind_queue
  declare_and_bind_queue-Settles q ex = record { at = λ s. tt }

  pub delete_queue-Settles : (q : String) → Settles E G (any E) (Calls.delete_queue E {R = R} q)
  unfolding Calls.delete_queue
  delete_queue-Settles q = record { at = λ s. tt }

  pub checkpoint-Settles :
      (k : KubeletClient E.World) (node ns pod c : String)
      → Settles E G (any E) (Calls.checkpoint E {R = R} k node ns pod c)
  unfolding Calls.checkpoint
  checkpoint-Settles k node ns pod c = record { at = λ s. tt }

  pub agent_post-Settles :
      (url : String) (body : String) → Settles E G (any E) (Calls.agent_post E {R = R} url body)
  unfolding Calls.agent_post
  agent_post-Settles url body = record { at = λ s. tt }

  pub get_pod-Settles : (ns n : String) → Settles E G (any E) (Calls.get_pod E {R = R} ns n)
  unfolding Calls.get_pod
  get_pod-Settles ns n = record { at = λ s. tt }

  pub get_stateful_set-Settles :
      (ns n : String) → Settles E G (any E) (Calls.get_stateful_set E {R = R} ns n)
  unfolding Calls.get_stateful_set
  get_stateful_set-Settles ns n = record { at = λ s. tt }

  pub get_deployment-Settles :
      (ns n : String) → Settles E G (any E) (Calls.get_deployment E {R = R} ns n)
  unfolding Calls.get_deployment
  get_deployment-Settles ns n = record { at = λ s. tt }

  pub get_replica_set-Settles :
      (ns n : String) → Settles E G (any E) (Calls.get_replica_set E {R = R} ns n)
  unfolding Calls.get_replica_set
  get_replica_set-Settles ns n = record { at = λ s. tt }

  pub get_job-Settles : (ns n : String) → Settles E G (any E) (Calls.get_job E {R = R} ns n)
  unfolding Calls.get_job
  get_job-Settles ns n = record { at = λ s. tt }

  pub create_pod-Settles : (x : Pod) → Settles E G (any E) (Calls.create_pod E {R = R} x)
  unfolding Calls.create_pod
  create_pod-Settles x = record { at = λ s. tt }

  pub create_job-Settles : (x : Job) → Settles E G (any E) (Calls.create_job E {R = R} x)
  unfolding Calls.create_job
  create_job-Settles x = record { at = λ s. tt }

  pub delete_pod-Settles :
      (x : Pod) (g : Option ℕ) → Settles E G (any E) (Calls.delete_pod E {R = R} x g)
  unfolding Calls.delete_pod
  delete_pod-Settles x g = record { at = λ s. tt }

  pub patch_pod-Settles : (b x : Pod) → Settles E G (any E) (Calls.patch_pod E {R = R} b x)
  unfolding Calls.patch_pod
  patch_pod-Settles b x = record { at = λ s. tt }

  pub patch_stateful_set-Settles :
      (b x : StatefulSet) → Settles E G (any E) (Calls.patch_stateful_set E {R = R} b x)
  unfolding Calls.patch_stateful_set
  patch_stateful_set-Settles b x = record { at = λ s. tt }

  pub patch_deployment-Settles :
      (b x : Deployment) → Settles E G (any E) (Calls.patch_deployment E {R = R} b x)
  unfolding Calls.patch_deployment
  patch_deployment-Settles b x = record { at = λ s. tt }

  pub list_agent_pods-Settles : Settles E G (any E) (Calls.list_agent_pods E {R = R})
  unfolding Calls.list_agent_pods
  list_agent_pods-Settles = record { at = λ s. tt }

  pub patch_status-Settles :
      (base : StatefulMigration) → Settles E G (any E) (Calls.patch_status E {R = R} base)
  unfolding Calls.patch_status
  patch_status-Settles base = record { at = λ s. tt }

  pub update_migration-Settles : Settles E G (any E) (Calls.update_migration E {R = R})
  unfolding Calls.update_migration
  update_migration-Settles = record { at = λ s. tt }

  pub get_migration-Settles :
      (ns n : String) → Settles E G (any E) (Calls.get_migration E {R = R} ns n)
  unfolding Calls.get_migration
  get_migration-Settles ns n = record { at = λ s. tt }

  pub modify-Settles :
      (f : StatefulMigration → StatefulMigration)
      → Settles E G (any E) (modify {W = E.World} {R = R} f)
  unfolding modify
  modify-Settles f = record { at = λ s. tt }

pub ruleset settling_calls = (
  update_migration-Settles, get_migration-Settles, time_now-Settles, connect-Settles, close-Settles,
  create_secondary_queue-Settles, unbind_queue-Settles, delete_secondary_queue-Settles,
  get_queue_depth-Settles, get_queue_stats-Settles, send_control_message-Settles,
  bind_queue-Settles, declare_and_bind_queue-Settles, delete_queue-Settles, checkpoint-Settles,
  agent_post-Settles, get_pod-Settles, get_stateful_set-Settles, get_deployment-Settles,
  get_replica_set-Settles, get_job-Settles, create_pod-Settles, create_job-Settles,
  delete_pod-Settles, patch_pod-Settles, patch_stateful_set-Settles, patch_deployment-Settles,
  list_agent_pods-Settles, patch_status-Settles, modify-Settles,
)
