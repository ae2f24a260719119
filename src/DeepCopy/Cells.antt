-- ===== src/DeepCopy/Cells.antt =====
-- The resource types (api/v1alpha1/types.go) as they lie in memory, and the cells of that memory.
use kubernetes_controller.Base.{ℕ, String, List, Option, none, some, refl}
use kubernetes_controller.Base.Dict.{Dict}
use kubernetes_controller.Api.{Phase, SwapSubPhase, MessageQueueConfig, StatefulMigrationSpec}
use kubernetes_controller.DeepCopy.Store.{Address, View}

-- The libraries' types that the resource types hold. A value of one may itself refer to the memory.
pub record Parts : Type 1 where
  pub TypeMeta : Type 0
  pub ObjectMeta : Type 0
  pub ListMeta : Type 0
  pub Condition : Type 0
  pub Container : Type 0
  -- a `*metav1.Time` that is not nil
  pub TimePointer : Type 0
  -- what the libraries' own pointers refer to
  pub Object : Type 0

-- The status in memory: a slice or a map is the address of its elements, or nil.
pub record StatefulMigrationStatus (P : Parts) : Type 0 where
  pub phase : Phase
  pub source_node : String
  pub checkpoint_id : String
  pub target_pod : String
  pub container_name : String
  pub conditions : Option Address
  pub start_time : Option P.TimePointer
  pub phase_timings : Option Address
  pub stateful_set_name : String
  pub deployment_name : String
  pub original_replicas : ℕ
  pub source_pod_labels : Option Address
  pub source_containers : Option Address
  pub swap_sub_phase : SwapSubPhase
  pub replacement_pod : String

pub record StatefulMigration (P : Parts) : Type 0 where
  pub type_meta : P.TypeMeta
  pub object_meta : P.ObjectMeta
  pub spec : StatefulMigrationSpec
  pub status : StatefulMigrationStatus P

pub record StatefulMigrationList (P : Parts) : Type 0 where
  pub type_meta : P.TypeMeta
  pub list_meta : P.ListMeta
  pub items : Option Address

-- What an address may refer to.
pub data Cell (P : Parts) : Type 0 where
  config : MessageQueueConfig → Cell P
  spec : StatefulMigrationSpec → Cell P
  status : StatefulMigrationStatus P → Cell P
  migration : StatefulMigration P → Cell P
  migration_list : StatefulMigrationList P → Cell P
  conditions : List P.Condition → Cell P
  containers : List P.Container → Cell P
  items : List (StatefulMigration P) → Cell P
  texts : Dict String → Cell P
  object : P.Object → Cell P

module _ {P : Parts} where
  abbrev as_config : Cell P → Option MessageQueueConfig
  as_config (config x) = some x
  as_config _ = none

  abbrev pub configs : View (Cell P) MessageQueueConfig
  configs = record { put = config; get = as_config; get-put = λ _. refl }

  abbrev as_spec : Cell P → Option StatefulMigrationSpec
  as_spec (spec x) = some x
  as_spec _ = none

  abbrev pub specs : View (Cell P) StatefulMigrationSpec
  specs = record { put = spec; get = as_spec; get-put = λ _. refl }

  abbrev as_status : Cell P → Option (StatefulMigrationStatus P)
  as_status (status x) = some x
  as_status _ = none

  abbrev pub statuses : View (Cell P) (StatefulMigrationStatus P)
  statuses = record { put = status; get = as_status; get-put = λ _. refl }

  abbrev as_migration : Cell P → Option (StatefulMigration P)
  as_migration (migration x) = some x
  as_migration _ = none

  abbrev pub migrations : View (Cell P) (StatefulMigration P)
  migrations = record { put = migration; get = as_migration; get-put = λ _. refl }

  abbrev as_migration_list : Cell P → Option (StatefulMigrationList P)
  as_migration_list (migration_list x) = some x
  as_migration_list _ = none

  abbrev pub migration_lists : View (Cell P) (StatefulMigrationList P)
  migration_lists = record { put = migration_list; get = as_migration_list; get-put = λ _. refl }

  abbrev as_conditions : Cell P → Option (List P.Condition)
  as_conditions (conditions x) = some x
  as_conditions _ = none

  abbrev pub condition_arrays : View (Cell P) (List P.Condition)
  condition_arrays = record { put = conditions; get = as_conditions; get-put = λ _. refl }

  abbrev as_containers : Cell P → Option (List P.Container)
  as_containers (containers x) = some x
  as_containers _ = none

  abbrev pub container_arrays : View (Cell P) (List P.Container)
  container_arrays = record { put = containers; get = as_containers; get-put = λ _. refl }

  abbrev as_items : Cell P → Option (List (StatefulMigration P))
  as_items (items x) = some x
  as_items _ = none

  abbrev pub migration_arrays : View (Cell P) (List (StatefulMigration P))
  migration_arrays = record { put = items; get = as_items; get-put = λ _. refl }

  abbrev as_texts : Cell P → Option (Dict String)
  as_texts (texts x) = some x
  as_texts _ = none

  abbrev pub text_maps : View (Cell P) (Dict String)
  text_maps = record { put = texts; get = as_texts; get-put = λ _. refl }
