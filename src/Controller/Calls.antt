-- ===== src/Controller/Calls.antt =====
-- The calls that the handlers make, as actions: each runs an operation of the environment on the
-- world and, if it may change something, records itself.

use kubernetes_controller.Base.{ℕ, String, Bool, true, false, Option, none, some, List, ◌∷◌}
use kubernetes_controller.Api.{StatefulMigration}
use kubernetes_controller.Messaging.{Result, ok, err, ControlMessageType, Payload}
use kubernetes_controller.Cluster.{
  Pod, StatefulSet, Deployment, Job, OwnerReference, Lookup, Created, Deleted, KubeletClient, Env,
}
use kubernetes_controller.Controller.Monad.{Call, next, Act}

abbrev pub succeeded : Option String → Bool
succeeded none = true
succeeded (some _) = false

abbrev is_ok {ℓ} : {A : Type ℓ} → Result A → Bool
is_ok (ok _) = true
is_ok (err _) = false

abbrev was_created : Created → Bool
was_created Created.created = true
was_created _ = false

abbrev was_deleted : Deleted → Bool
was_deleted Deleted.deleted = true
was_deleted _ = false

-- What a patch returns is decoded into the object; a failed patch leaves it as it is.
abbrev decoded : Result StatefulMigration → StatefulMigration → StatefulMigration
decoded (ok m) _ = m
decoded (err _) m = m

abbrev to_error {ℓ} : {A : Type ℓ} → Result A → Option String
to_error (ok _) = none
to_error (err e) = some e

module _ {W R : Type 0} where
  -- A call that returns an error or nil.
  abbrev effect : (Bool → Call) → (W → Option String × W) → Act W R (Option String)
  effect c f s =
      let (e, w) = f s.world in (next e, record s { world = w; calls = c (succeeded e) ∷ s.calls })

  -- A call that returns a value or an error.
  abbrev effect_result : {A : Type 0} → (Bool → Call) → (W → Result A × W) → Act W R (Result A)
  effect_result c f s =
      let (r, w) = f s.world in (next r, record s { world = w; calls = c (is_ok r) ∷ s.calls })

  -- A call that only reads.
  abbrev query : {A : Type 0} → (W → A × W) → Act W R A
  query f s = let (a, w) = f s.world in (next a, record s { world = w })

module _ (E : Env) {R : Type 0} where
  unfoldable pub time_now : Act E.World R ℕ
  time_now s = (next (E.now s.world), s)

  unfoldable pub connect : String → Act E.World R (Option String)
  connect url = effect (Call.connect url) (E.broker.connect url)

  unfoldable pub close : Act E.World R (Option String)
  close = effect Call.close E.broker.close

  unfoldable pub create_secondary_queue : String → String → String → Act E.World R (Result String)
  create_secondary_queue q ex key =
      effect_result (Call.create_secondary_queue q ex) (E.broker.create_secondary_queue q ex key)

  unfoldable pub unbind_queue : String → String → Act E.World R (Option String)
  unbind_queue q ex = effect (Call.unbind_queue q ex) (E.broker.unbind_queue q ex)

  unfoldable pub delete_secondary_queue : String → String → String → Act E.World R (Option String)
  delete_secondary_queue q p ex =
      effect (Call.delete_secondary_queue q ex) (E.broker.delete_secondary_queue q p ex)

  unfoldable pub get_queue_depth : String → Act E.World R (Result ℕ)
  get_queue_depth q = query (E.broker.get_queue_depth q)

  unfoldable pub get_queue_stats : String → Act E.World R (Result (ℕ × ℕ))
  get_queue_stats q = query (E.broker.get_queue_stats q)

  unfoldable pub send_control_message :
      String → ControlMessageType → Payload → Act E.World R (Option String)
  send_control_message pod t p =
      effect (Call.send_control_message pod t p) (E.broker.send_control_message pod t p)

  unfoldable pub bind_queue : String → String → Act E.World R (Option String)
  bind_queue q ex = effect (Call.bind_queue q ex) (E.broker.bind_queue q ex "")

  unfoldable pub declare_and_bind_queue : String → String → Act E.World R (Option String)
  declare_and_bind_queue q ex =
      effect (Call.declare_and_bind_queue q ex) (E.broker.declare_and_bind_queue q ex)

  unfoldable pub delete_queue : String → Act E.World R (Option String)
  delete_queue q = effect (Call.delete_queue q) (E.broker.delete_queue q)

  unfoldable pub checkpoint :
      KubeletClient E.World
      → String
      → String
      → String
      → String
      → Act E.World R (Result (List String))
  checkpoint k node namespace pod container =
      effect_result (Call.checkpoint node pod container) (k.checkpoint node namespace pod container)

  unfoldable pub agent_post : String → String → Act E.World R (Result (ℕ × String))
  agent_post url body = effect_result (Call.agent_post url body) (E.agent_post url body)

  -- `r.Status().Patch(ctx, m, client.MergeFrom(base))`
  unfoldable pub patch_status : StatefulMigration → Act E.World R (Option String)
  patch_status base s =
      let (r, w) = E.patch_status base s.m s.world in
      (
        next (to_error r),
        record {
          m = decoded r s.m;
          world = w;
          calls = Call.patch_status base s.m (is_ok r) ∷ s.calls;
        },
      )

  -- `r.Update(ctx, m)`
  unfoldable pub update_migration : Act E.World R (Option String)
  update_migration s =
      let (r, w) = E.update_migration s.m s.world in
      (
        next (to_error r),
        record {
          m = decoded r s.m;
          world = w;
          calls = Call.update_migration s.m (is_ok r) ∷ s.calls;
        },
      )

  unfoldable pub get_migration : String → String → Act E.World R (Lookup StatefulMigration)
  get_migration namespace name = query (E.get_migration namespace name)

  unfoldable pub get_pod : String → String → Act E.World R (Lookup Pod)
  get_pod namespace name = query (E.get_pod namespace name)

  unfoldable pub get_stateful_set : String → String → Act E.World R (Lookup StatefulSet)
  get_stateful_set namespace name = query (E.get_stateful_set namespace name)

  unfoldable pub get_deployment : String → String → Act E.World R (Lookup Deployment)
  get_deployment namespace name = query (E.get_deployment namespace name)

  unfoldable pub get_replica_set : String → String → Act E.World R (Lookup (List OwnerReference))
  get_replica_set namespace name = query (E.get_replica_set namespace name)

  unfoldable pub get_job : String → String → Act E.World R (Lookup Job)
  get_job namespace name = query (E.get_job namespace name)

  unfoldable pub create_pod : Pod → Act E.World R Created
  create_pod p s =
      let (r, w) = E.create_pod p s.world in
      (next r, record s { world = w; calls = Call.create_pod p (was_created r) ∷ s.calls })

  unfoldable pub create_job : Job → Act E.World R Created
  create_job j s =
      let (r, w) = E.create_job j s.world in
      (next r, record s { world = w; calls = Call.create_job j (was_created r) ∷ s.calls })

  unfoldable pub delete_pod : Pod → Option ℕ → Act E.World R Deleted
  delete_pod p grace s =
      let (r, w) = E.delete_pod p grace s.world in
      (next r, record s { world = w; calls = Call.delete_pod p grace (was_deleted r) ∷ s.calls })

  unfoldable pub patch_pod : Pod → Pod → Act E.World R (Option String)
  patch_pod base p = effect (Call.patch_pod base p) (E.patch_pod base p)

  unfoldable pub patch_stateful_set : StatefulSet → StatefulSet → Act E.World R (Option String)
  patch_stateful_set base x = effect (Call.patch_stateful_set base x) (E.patch_stateful_set base x)

  unfoldable pub patch_deployment : Deployment → Deployment → Act E.World R (Option String)
  patch_deployment base x = effect (Call.patch_deployment base x) (E.patch_deployment base x)

  unfoldable pub list_agent_pods : Act E.World R (Result (List Pod))
  list_agent_pods = query E.list_agent_pods
