-- ===== src/DeepCopy.antt =====
-- The copies of the resource types (api/v1alpha1/deepcopy.go) over a memory in which two objects may
-- share what their slices, maps and pointers refer to. `DeepCopyInto` is a function of what `in`
-- points at, to what `out` points at in the end. An object or an array is given its address when it
-- is filled; nothing reads it before. A slice refers to a whole array.
pub mod Store
pub mod Cells
pub mod Sharing
pub mod Slices
pub mod Pointers
pub mod Lawful
pub mod Laws
pub mod Objects
use kubernetes_controller.Base.{ℕ, String, List, Option, none, some, refl}
use kubernetes_controller.Base.Dict.{Dict}
use kubernetes_controller.Api.{Phase, SwapSubPhase, MessageQueueConfig, StatefulMigrationSpec}
use kubernetes_controller.DeepCopy.Cells.{
  Parts, StatefulMigrationStatus, StatefulMigration, StatefulMigrationList, Cell, configs, specs,
  statuses, migrations, migration_lists, condition_arrays, container_arrays, migration_arrays,
  text_maps,
}
use kubernetes_controller.DeepCopy.Store.{
  Memory, Address, Copy, View, copy_pointer, copy_elements, copy_entries, copy_some,
}

-- The copies of the libraries' types.
pub record Library : Type 1 where
  pub parts : Parts
  pub copy_object_meta : Copy (Cell parts) parts.ObjectMeta
  pub copy_list_meta : Copy (Cell parts) parts.ListMeta
  pub copy_condition : Copy (Cell parts) parts.Condition
  pub copy_container : Copy (Cell parts) parts.Container
  pub copy_time : Copy (Cell parts) parts.TimePointer

module _ (L : Library) where
  -- `MessageQueueConfig.DeepCopyInto`
  unfoldable pub config_into : Copy (Cell L.parts) MessageQueueConfig
  config_into c m = (c, m)

  -- `StatefulMigrationSpec.DeepCopyInto`
  unfoldable pub spec_into : Copy (Cell L.parts) StatefulMigrationSpec
  unfolding config_into
  spec_into s m =
      let (c, m1) = config_into s.message_queue_config m in
      (record s { message_queue_config = c }, m1)

  -- `StatefulMigrationStatus.DeepCopyInto`
  unfoldable pub status_into : Copy (Cell L.parts) (StatefulMigrationStatus L.parts)
  status_into s m =
      let (cs, m1) =
        copy_pointer condition_arrays (copy_elements L.copy_condition) s.conditions m in
      let (t, m2) = copy_some L.copy_time s.start_time m1 in
      let (ts, m3) = copy_pointer text_maps copy_entries s.phase_timings m2 in
      let (ls, m4) = copy_pointer text_maps copy_entries s.source_pod_labels m3 in
      let (ks, m5) =
        copy_pointer container_arrays (copy_elements L.copy_container) s.source_containers m4 in
      (
        record s {
          conditions = cs;
          start_time = t;
          phase_timings = ts;
          source_pod_labels = ls;
          source_containers = ks;
        },
        m5,
      )

  -- `StatefulMigration.DeepCopyInto`
  unfoldable pub migration_into : Copy (Cell L.parts) (StatefulMigration L.parts)
  migration_into s m =
      let (o, m1) = L.copy_object_meta s.object_meta m in
      let (p, m2) = spec_into s.spec m1 in
      let (t, m3) = status_into s.status m2 in
      (record { type_meta = s.type_meta; object_meta = o; spec = p; status = t }, m3)

  -- `StatefulMigrationList.DeepCopyInto`
  unfoldable pub list_into : Copy (Cell L.parts) (StatefulMigrationList L.parts)
  list_into s m =
      let (l, m1) = L.copy_list_meta s.list_meta m in
      let (is, m2) = copy_pointer migration_arrays (copy_elements migration_into) s.items m1 in
      (record { type_meta = s.type_meta; list_meta = l; items = is }, m2)

  -- the five methods `DeepCopy`
  unfoldable pub copy_config : Copy (Cell L.parts) (Option Address)
  copy_config = copy_pointer configs config_into

  unfoldable pub copy_spec : Copy (Cell L.parts) (Option Address)
  copy_spec = copy_pointer specs spec_into

  unfoldable pub copy_status : Copy (Cell L.parts) (Option Address)
  copy_status = copy_pointer statuses status_into

  unfoldable pub copy_migration : Copy (Cell L.parts) (Option Address)
  copy_migration = copy_pointer migrations migration_into

  unfoldable pub copy_list : Copy (Cell L.parts) (Option Address)
  copy_list = copy_pointer migration_lists list_into

-- A `runtime.Object`: a pointer with its type. A nil interface is `none`, and a nil pointer in an
-- interface is another value.
pub data RuntimeObject : Type 0 where
  of_migration of_list : Option Address → RuntimeObject

abbrev pub object_unless_nil :
    (Option Address → RuntimeObject) → Option Address → Option RuntimeObject
object_unless_nil of none = none
object_unless_nil of (some a) = some (of (some a))

module _ (L : Library) where
  -- the two methods `DeepCopyObject`
  unfoldable pub copy_migration_object :
      Option Address → Memory (Cell L.parts) → Option RuntimeObject × Memory (Cell L.parts)
  copy_migration_object p m =
      let (c, m') = copy_migration L p m in (object_unless_nil of_migration c, m')

  unfoldable pub copy_list_object :
      Option Address → Memory (Cell L.parts) → Option RuntimeObject × Memory (Cell L.parts)
  copy_list_object p m = let (c, m') = copy_list L p m in (object_unless_nil of_list c, m')
