-- ===== src/Controller/PhaseOrder.antt =====
-- The order of the phases, and what is assumed of the API server to follow it.
pub mod Noted
pub mod Outside
pub mod Calls
pub mod Rules
pub mod Early
pub mod Restoring
pub mod Replaying
pub mod Pending
pub mod Swap
pub mod Fencing
pub mod Identity
pub mod SubPhases
pub mod SwapRun
pub mod Finalizing
pub mod Loop
pub mod Forward
use kubernetes_controller.Json.{JsonObject}
use kubernetes_controller.Base.{ℕ, String, Option, some, ◌≡◌, ◌⊎◌, All}
use kubernetes_controller.Api.{StatefulMigration, Phase, SwapSubPhase}
use kubernetes_controller.Messaging.{Result, ok, ControlMessageType, Payload}
use kubernetes_controller.Cluster.{Env, Lookup, Pod, Job, StatefulSet, Deployment, KubeletClient}
use kubernetes_controller.Controller.Monad.{Call, St}

-- The phase that follows a phase on success; a phase with no handler follows itself.
abbrev pub next_phase : Phase → Phase
next_phase Phase.unset = Phase.pending
next_phase Phase.pending = Phase.checkpointing
next_phase Phase.checkpointing = Phase.transferring
next_phase Phase.transferring = Phase.restoring
next_phase Phase.restoring = Phase.replaying
next_phase Phase.replaying = Phase.finalizing
next_phase Phase.finalizing = Phase.completed
next_phase p = p

-- From `p`, a status holds `p` still, or the phase after it, or Failed.
abbrev pub Follows : Phase → Phase → Type 0
Follows p q = (q ≡ p) ⊎ (q ≡ next_phase p) ⊎ (q ≡ Phase.failed)

-- The phase and the sub-phase that the API server holds.
pub record Stored : Type 0 where
  pub phase : Phase
  pub sub_phase : SwapSubPhase

-- The call leaves what is stored as it is.
abbrev Leaves : {W A : Type 0} → (W → Stored) → (W → A × W) → Type 0
Leaves {W} stored f = (w : W) → stored (f w).1 ≡ stored w

-- Nobody else writes the phase or the sub-phase, and no other call than a status patch changes them;
-- what the API server answers and is read to hold is what it stores, so that no read is answered by a
-- cache that lags behind. As the controller alone writes the two fields, the base of a merge patch,
-- which is what was read or written last, makes no difference to what is stored of them. A patch that
-- reports an error may have been applied.
pub record SoleWriter (E : Env) : Type 0 where
  pub stored : E.World → Stored
  pub connect_leaves : (url : String) → Leaves stored (E.broker.connect url)
  pub close_leaves : Leaves stored (E.broker.close)
  pub create_secondary_queue_leaves :
      (q ex key : String) → Leaves stored (E.broker.create_secondary_queue q ex key)
  pub unbind_queue_leaves : (q ex : String) → Leaves stored (E.broker.unbind_queue q ex)
  pub delete_secondary_queue_leaves :
      (q p ex : String) → Leaves stored (E.broker.delete_secondary_queue q p ex)
  pub get_queue_depth_leaves : (q : String) → Leaves stored (E.broker.get_queue_depth q)
  pub get_queue_stats_leaves : (q : String) → Leaves stored (E.broker.get_queue_stats q)
  pub send_control_message_leaves :
      (pod : String) (t : ControlMessageType) (pl : Payload)
      → Leaves stored (E.broker.send_control_message pod t pl)
  pub bind_queue_leaves : (q ex key : String) → Leaves stored (E.broker.bind_queue q ex key)
  pub declare_and_bind_queue_leaves :
      (q ex : String) → Leaves stored (E.broker.declare_and_bind_queue q ex)
  pub delete_queue_leaves : (q : String) → Leaves stored (E.broker.delete_queue q)
  pub checkpoint_leaves :
      {k : KubeletClient E.World} (node ns pod c : String)
      → E.kubelet ≡ some k
      → Leaves stored (k.checkpoint node ns pod c)
  pub agent_post_leaves : (url : String) (body : String) → Leaves stored (E.agent_post url body)
  pub get_migration_leaves : (ns n : String) → Leaves stored (E.get_migration ns n)
  pub get_pod_leaves : (ns n : String) → Leaves stored (E.get_pod ns n)
  pub get_stateful_set_leaves : (ns n : String) → Leaves stored (E.get_stateful_set ns n)
  pub get_deployment_leaves : (ns n : String) → Leaves stored (E.get_deployment ns n)
  pub get_replica_set_leaves : (ns n : String) → Leaves stored (E.get_replica_set ns n)
  pub get_job_leaves : (ns n : String) → Leaves stored (E.get_job ns n)
  pub create_pod_leaves : (x : Pod) → Leaves stored (E.create_pod x)
  pub create_job_leaves : (x : Job) → Leaves stored (E.create_job x)
  pub delete_pod_leaves : (x : Pod) (g : Option ℕ) → Leaves stored (E.delete_pod x g)
  pub patch_pod_leaves : (b x : Pod) → Leaves stored (E.patch_pod b x)
  pub patch_stateful_set_leaves : (b x : StatefulSet) → Leaves stored (E.patch_stateful_set b x)
  pub patch_deployment_leaves : (b x : Deployment) → Leaves stored (E.patch_deployment b x)
  pub list_agent_pods_leaves : Leaves stored (E.list_agent_pods)
  pub update_migration_leaves : (m : StatefulMigration) → Leaves stored (E.update_migration m)
  pub patch_stores :
      (base m : StatefulMigration) (w : E.World) {m' : StatefulMigration}
      → (E.patch_status base m w).0 ≡ ok m'
      → stored (E.patch_status base m w).1
        ≡ record { phase = m.status.phase; sub_phase = m.status.swap_sub_phase }
  pub failed_patch_stores :
      (base m : StatefulMigration) (w : E.World)
      → (stored (E.patch_status base m w).1 ≡ stored w)
        ⊎ (stored (E.patch_status base m w).1
            ≡ record { phase = m.status.phase; sub_phase = m.status.swap_sub_phase })
  pub patch_answers :
      (base m : StatefulMigration) (w : E.World) {m' : StatefulMigration}
      → (E.patch_status base m w).0 ≡ ok m'
      → (m'.status.phase ≡ m.status.phase) × (m'.status.swap_sub_phase ≡ m.status.swap_sub_phase)
  pub update_answers :
      (m : StatefulMigration) (w : E.World) {m' : StatefulMigration}
      → (E.update_migration m w).0 ≡ ok m'
      → m'.status.phase ≡ (stored w).phase
  pub get_reads :
      (ns n : String) (w : E.World) {m : StatefulMigration}
      → (E.get_migration ns n w).0 ≡ Lookup.found m
      → (m.status.phase ≡ (stored w).phase) × (m.status.swap_sub_phase ≡ (stored w).sub_phase)

abbrev pub view : StatefulMigration → Stored
view m = record { phase = m.status.phase; sub_phase = m.status.swap_sub_phase }

-- Every status that the call writes is one that `P` allows.
abbrev pub Writes : (Stored → Type 0) → Call → Type 0
Writes P (Call.patch_status base m done) = P (view m)
Writes P _ = Unit

-- What holds with one sub-phase holds with `x` too.
abbrev pub Allows : (Stored → Type 0) → SwapSubPhase → Type 0
Allows H x =
    (p : Phase) (y : SwapSubPhase)
    → H (record { phase = p; sub_phase = y })
    → H (record { phase = p; sub_phase = x })

-- The object and what is stored of it satisfy `H`; so does every status that was written, unless `Q`
-- allows it.
pub record Within {E : Env} (L : SoleWriter E) (H Q : Stored → Type 0) (s : St E.World)
    : Type 0 where
  pub holds : H (view s.m)
  pub stores : H (L.stored s.world)
  pub writes : All (Writes (λ v. H v ⊎ Q v)) s.calls

-- The object and what is stored of it hold a phase that may follow `p`; so does every status that
-- was written, unless `Q` allows it.
abbrev pub InOrder : {E : Env} → SoleWriter E → (Stored → Type 0) → Phase → St E.World → Type 0
InOrder L Q p = Within L (λ v. Follows p v.phase) Q

-- Every status that the call writes holds a phase that may follow `p`, or one that `Q` allows.
abbrev pub WritesFollow : (Stored → Type 0) → Phase → Call → Type 0
WritesFollow Q p = Writes (λ v. Follows p v.phase ⊎ Q v)
