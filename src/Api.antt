-- ===== src/Api.antt =====
-- The StatefulMigration resource (api/v1alpha1/types.go) and the parts of the Kubernetes objects
-- that it stores. Each string that the code only compares with constants is a data type with a
-- constructor for any other text; numbers of replicas are natural numbers.
use kubernetes_controller.Base.{ℕ, String, ◌<>◌, Bool, true, false, List, Option}
use kubernetes_controller.Base.Int.{ℤ}
use kubernetes_controller.Base.Dict.{Dict}

-- `Phase`; the empty phase of a new object is `unset`.
pub data Phase : Type 0 where
  unset pending checkpointing transferring restoring replaying finalizing : Phase
  completed failed : Phase
  other : String → Phase

-- `MigrationStrategy`
pub data Strategy : Type 0 where
  unset shadow_pod sequential : Strategy
  other : String → Strategy

-- `TransferMode`
pub data TransferMode : Type 0 where
  unset registry direct : TransferMode
  other : String → TransferMode

-- `ReplayMode`
pub data ReplayMode : Type 0 where
  unset cutoff drain : ReplayMode
  other : String → ReplayMode

-- `IdentitySwapMode`; `no_swap` is the text "None".
pub data IdentitySwapMode : Type 0 where
  unset no_swap exchange_fence cutoff : IdentitySwapMode
  other : String → IdentitySwapMode

-- `SwapSubPhase`; `unset` is the empty text.
pub data SwapSubPhase : Type 0 where
  unset prepare_swap re_checkpoint swap_transfer create_replacement mini_replay : SwapSubPhase
  traffic_switch pre_fence_drain exchange_fence parallel_drain fence_cutover : SwapSubPhase
  other : String → SwapSubPhase

pub record MessageQueueConfig : Type 0 where
  pub queue_name : String
  pub broker_url : String
  pub exchange_name : String
  pub routing_key : String

-- A container of a pod: the fields that the controller reads or writes. A port and an environment
-- variable are passed on whole.
pub record Container : Type 0 where
  pub name : String
  pub image : String
  pub pull_policy : String
  pub ports : List String
  pub env : List (String × String)

pub record StatefulMigrationSpec : Type 0 where
  pub source_pod : String
  pub container_name : String
  pub target_node : String
  pub checkpoint_image_repository : String
  pub replay_cutoff_seconds : ℤ
  pub replay_mode : ReplayMode
  pub message_queue_config : MessageQueueConfig
  pub migration_strategy : Strategy
  pub transfer_mode : TransferMode
  pub identity_swap_mode : IdentitySwapMode

-- A status condition: its type, reason and message. The controller only sets "Failed" to true.
pub record Condition : Type 0 where
  pub type : String
  pub reason : String
  pub message : String

pub record StatefulMigrationStatus : Type 0 where
  pub phase : Phase
  pub source_node : String
  pub checkpoint_id : String
  pub target_pod : String
  pub container_name : String
  pub conditions : List Condition
  pub start_time : Option ℕ
  pub phase_timings : Dict String
  pub stateful_set_name : String
  pub deployment_name : String
  pub original_replicas : ℕ
  pub source_pod_labels : Dict String
  pub source_containers : List Container
  pub swap_sub_phase : SwapSubPhase
  pub replacement_pod : String

pub record StatefulMigration : Type 0 where
  pub name : String
  pub namespace : String
  pub spec : StatefulMigrationSpec
  pub status : StatefulMigrationStatus

abbrev pub is_sequential : Strategy → Bool
is_sequential Strategy.sequential = true
is_sequential _ = false

abbrev pub is_shadow_pod : Strategy → Bool
is_shadow_pod Strategy.shadow_pod = true
is_shadow_pod _ = false

abbrev pub is_unset_strategy : Strategy → Bool
is_unset_strategy Strategy.unset = true
is_unset_strategy _ = false

abbrev pub is_direct : TransferMode → Bool
is_direct TransferMode.direct = true
is_direct _ = false

abbrev pub is_drain : ReplayMode → Bool
is_drain ReplayMode.drain = true
is_drain _ = false

abbrev pub is_exchange_fence : IdentitySwapMode → Bool
is_exchange_fence IdentitySwapMode.exchange_fence = true
is_exchange_fence _ = false

-- `swapMode != "" && swapMode != "None"`
abbrev pub wants_swap : IdentitySwapMode → Bool
wants_swap IdentitySwapMode.unset = false
wants_swap IdentitySwapMode.no_swap = false
wants_swap _ = true

abbrev is_unset_sub_phase : SwapSubPhase → Bool
is_unset_sub_phase SwapSubPhase.unset = true
is_unset_sub_phase _ = false

-- The queues that the controller names after the migrated queue.
abbrev pub replay_queue : String → String
replay_queue q = q <> ".ms2m-replay"

abbrev pub fence_buffer : String → String
fence_buffer q = q <> ".ms2m-fence-buffer"
