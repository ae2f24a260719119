-- ===== src/Controller/Monad.antt =====
-- The controller's code as actions: the object `m` in memory, the world, and the calls that changed
-- something, newest first. An action goes on with a value, or returns early from its handler.
pub use kubernetes_controller.Flow.{Flow, next, return, continue, ◌>>◌, collapse, run}
unfoldable pub use kubernetes_controller.Flow.{pure, return_with, ◌>>=◌, invoke, skip}
use kubernetes_controller.Flow.{Run}
use kubernetes_controller.Base.{ℕ, String, Bool, Option, List}
use kubernetes_controller.Api.{StatefulMigration}
use kubernetes_controller.Messaging.{ControlMessageType, Payload}
use kubernetes_controller.Cluster.{Pod, StatefulSet, Deployment, Job}

-- A call that may change the world, with whether it succeeded.
pub data Call : Type 0 where
  connect : String → Bool → Call
  close : Bool → Call
  create_secondary_queue : String → String → Bool → Call
  unbind_queue : String → String → Bool → Call
  delete_secondary_queue : String → String → Bool → Call
  bind_queue : String → String → Bool → Call
  declare_and_bind_queue : String → String → Bool → Call
  delete_queue : String → Bool → Call
  send_control_message : String → ControlMessageType → Payload → Bool → Call
  checkpoint : String → String → String → Bool → Call
  agent_post : String → String → Bool → Call
  -- the base of the merge patch, and the object
  patch_status : StatefulMigration → StatefulMigration → Bool → Call
  update_migration : StatefulMigration → Bool → Call
  create_pod : Pod → Bool → Call
  create_job : Job → Bool → Call
  patch_pod : Pod → Pod → Bool → Call
  delete_pod : Pod → Option ℕ → Bool → Call
  patch_stateful_set : StatefulSet → StatefulSet → Bool → Call
  patch_deployment : Deployment → Deployment → Bool → Call

pub record St (W : Type 0) : Type 0 where
  pub m : StatefulMigration
  pub world : W
  pub calls : List Call

abbrev pub Act : Type 0 → Type 0 → Type 0 → Type 0
Act W R A = Run (St W) R A

module _ {W R : Type 0} where
  -- A change of the object in memory.
  unfoldable pub modify : (StatefulMigration → StatefulMigration) → Act W R (Unit {0})
  modify f s = (next tt, record s { m = f s.m })

  -- The object in memory.
  unfoldable pub migration : Act W R StatefulMigration
  migration s = (next s.m, s)
