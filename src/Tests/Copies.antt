-- ===== src/Tests/Copies.antt =====
-- Witnesses for the copies of the resource types: a memory with a list of one migration.
use kubernetes_controller.Base.{
  ℕ, String, Option, none, some, [], ◌∷◌, ◌≡◌, refl, arith, nat_eq, ltb, if◌then◌else◌,
}
use kubernetes_controller.Base.Int.{pos}
use kubernetes_controller.Base.Dict.{Dict}
use kubernetes_controller.Api.{
  Phase, SwapSubPhase, Strategy, TransferMode, ReplayMode, IdentitySwapMode, StatefulMigrationSpec,
}
use kubernetes_controller.DeepCopy.{
  Library, of_migration, of_list, copy_migration_object, copy_list_object,
}
use kubernetes_controller.DeepCopy.Cells.{
  Parts, Cell, StatefulMigration, StatefulMigrationList, migrations, migration_lists, conditions,
  containers, texts, object, items, migration, migration_list,
}
use kubernetes_controller.DeepCopy.Store.{Memory, Address, Copy, View, read, copy_pointer}
use kubernetes_controller.DeepCopy.Sharing.{Keeps, HoldsNew, Stable}
use kubernetes_controller.DeepCopy.Lawful.{LawfulCopy, pointer_lawful}
use kubernetes_controller.DeepCopy.Laws.{LawfulLibrary, SameMigration, SameList}
use kubernetes_controller.DeepCopy.Objects.{
  SameObject, copy_migration_object_isolates, copy_list_object_isolates,
}

abbrev texts_only : Parts
texts_only = record {
  TypeMeta = String;
  ObjectMeta = String;
  ListMeta = String;
  Condition = String;
  Container = String;
  TimePointer = Option Address;
  Object = ℕ;
}

abbrev by_value : {T : Type 0} → Copy (Cell texts_only) T
by_value t m = (t, m)

abbrev as_object : Cell texts_only → Option ℕ
as_object (object n) = some n
as_object _ = none

abbrev times : View (Cell texts_only) ℕ
times = record { put = object; get = as_object; get-put = λ _. refl }

abbrev simple : Library
simple = record {
  parts = texts_only;
  copy_object_meta = by_value;
  copy_list_meta = by_value;
  copy_condition = by_value;
  copy_container = by_value;
  copy_time = copy_pointer times by_value;
}

abbrev by_value_lawful : {T : Type 0} → LawfulCopy (by_value {T = T})
unfolding Keeps Stable
by_value_lawful = record {
  Same = λ g s m t. s ≡ t;
  stable = λ g s m t n e k. e;
  isolates = record { keeps = λ t m. (omega arith, λ a lt. refl); same = λ g s m t e n new. e };
}

abbrev simple_lawful : LawfulLibrary simple
simple_lawful = record {
  object_meta = by_value_lawful;
  list_meta = by_value_lawful;
  condition = by_value_lawful;
  container = by_value_lawful;
  time = pointer_lawful times by_value_lawful;
}

abbrev wanted : StatefulMigrationSpec
wanted = record {
  source_pod = "consumer-0";
  container_name = "";
  target_node = "worker-2";
  checkpoint_image_repository = "registry/checkpoints";
  replay_cutoff_seconds = pos 120;
  replay_mode = ReplayMode.unset;
  message_queue_config = record {
    queue_name = "orders";
    broker_url = "amqp://rabbitmq";
    exchange_name = "orders.fanout";
    routing_key = "";
  };
  migration_strategy = Strategy.unset;
  transfer_mode = TransferMode.unset;
  identity_swap_mode = IdentitySwapMode.unset;
}

abbrev shared : StatefulMigration texts_only
shared = record {
  type_meta = "StatefulMigration";
  object_meta = "migrate-consumer";
  spec = wanted;
  status = record {
    phase = Phase.failed;
    source_node = "worker-1";
    checkpoint_id = "";
    target_pod = "";
    container_name = "consumer";
    conditions = some 1;
    start_time = some (some 2);
    phase_timings = some 3;
    stateful_set_name = "consumer";
    deployment_name = "";
    original_replicas = 1;
    source_pod_labels = none;
    source_containers = some 4;
    swap_sub_phase = SwapSubPhase.unset;
    replacement_pod = "";
  };
}

abbrev timings : Dict String
timings = ("Pending.start", "1700000000") ∷ []

abbrev listed : StatefulMigrationList texts_only
listed = record { type_meta = "List"; list_meta = ""; items = some 5 }

abbrev cell_at : ℕ → Option (Cell texts_only)
cell_at a =
    if nat_eq a 0
    then some (migration shared)
    else if nat_eq a 1
    then some (conditions ("Failed" ∷ []))
    else if nat_eq a 2
    then some (object 1700000000)
    else if nat_eq a 3
    then some (texts timings)
    else if nat_eq a 4
    then some (containers ("consumer" ∷ []))
    else if nat_eq a 5
    then some (items (shared ∷ []))
    else if nat_eq a 6
    then some (migration_list listed)
    else none

abbrev memory : Memory (Cell texts_only)
memory = record { next = 7; cell = cell_at }

-- The memory with all cells lost that were there before the copy.
abbrev only_new : Memory (Cell texts_only) → Memory (Cell texts_only)
only_new m = record { next = m.next; cell = λ a. if ltb a 7 then none else m.cell a }

only_new-HoldsNew : (m : Memory (Cell texts_only)) → HoldsNew memory m (only_new m)
unfolding HoldsNew
only_new-HoldsNew m = (omega arith, λ a lo hi. ground arith)

at_shared : SameMigration simple simple_lawful memory shared memory shared
unfolding read by_value_lawful
at_shared = record {
  type_metas = refl;
  others = (
    refl,
    (
      refl,
      record {
        others = refl;
        referred = (
          record {
            in_use = omega arith;
            from = "Failed" ∷ [];
            to = "Failed" ∷ [];
            read_from = refl;
            read_to = refl;
            same_values = (refl, tt);
          },
          (
            record {
              in_use = omega arith;
              from = 1700000000;
              to = 1700000000;
              read_from = refl;
              read_to = refl;
              same_values = refl;
            },
            (
              record {
                in_use = omega arith;
                from = timings;
                to = timings;
                read_from = refl;
                read_to = refl;
                same_values = λ k. refl;
              },
              (
                tt,
                record {
                  in_use = omega arith;
                  from = "consumer" ∷ [];
                  to = "consumer" ∷ [];
                  read_from = refl;
                  read_to = refl;
                  same_values = (refl, tt);
                },
              ),
            ),
          ),
        );
      },
    ),
  );
}

copy_migration_object_isolates_example :
    Keeps memory (copy_migration_object simple (some 0) memory).1
    × SameObject
        (SameMigration simple simple_lawful)
        migrations
        of_migration
        memory
        (some 0)
        (only_new (copy_migration_object simple (some 0) memory).1)
        (copy_migration_object simple (some 0) memory).0
unfolding read
copy_migration_object_isolates_example =
    copy_migration_object_isolates simple simple_lawful (some 0) memory
      (only_new (copy_migration_object simple (some 0) memory).1)
      (record {
        in_use = omega arith;
        from = shared;
        to = shared;
        read_from = refl;
        read_to = refl;
        same_values = at_shared;
      })
      (only_new-HoldsNew (copy_migration_object simple (some 0) memory).1)

copy_list_object_isolates_example :
    Keeps memory (copy_list_object simple (some 6) memory).1
    × SameObject
        (SameList simple simple_lawful)
        migration_lists
        of_list
        memory
        (some 6)
        (only_new (copy_list_object simple (some 6) memory).1)
        (copy_list_object simple (some 6) memory).0
unfolding read by_value_lawful
copy_list_object_isolates_example =
    copy_list_object_isolates simple simple_lawful (some 6) memory
      (only_new (copy_list_object simple (some 6) memory).1)
      (record {
        in_use = omega arith;
        from = listed;
        to = listed;
        read_from = refl;
        read_to = refl;
        same_values = record {
          type_metas = refl;
          others = (
            refl,
            record {
              in_use = omega arith;
              from = shared ∷ [];
              to = shared ∷ [];
              read_from = refl;
              read_to = refl;
              same_values = (at_shared, tt);
            },
          );
        };
      })
      (only_new-HoldsNew (copy_list_object simple (some 6) memory).1)
