-- ===== src/DeepCopy/Laws.antt =====
-- When two values of a resource type are the same, and the laws of the copies of each type.
use kubernetes_controller.Base.{Option, ◌≡◌, refl, arith}
use kubernetes_controller.DeepCopy.{
  Library, config_into, spec_into, status_into, migration_into, list_into,
}
use kubernetes_controller.DeepCopy.Cells.{
  Cell, StatefulMigrationStatus, StatefulMigration, StatefulMigrationList, condition_arrays,
  container_arrays, migration_arrays, text_maps,
}
use kubernetes_controller.DeepCopy.Store.{
  Memory, Address, Copy, copy_pointer, copy_elements, copy_entries, copy_some,
}
use kubernetes_controller.DeepCopy.Sharing.{Keeps, Sameness, SamePair, Stable, copy_pair}
use kubernetes_controller.DeepCopy.Slices.{SameElements}
use kubernetes_controller.DeepCopy.Pointers.{SamePointer}
use kubernetes_controller.DeepCopy.Lawful.{
  LawfulCopy, pair_lawful, elements_lawful, entries_lawful, some_lawful, pointer_lawful,
}

-- What the libraries say of their `DeepCopy` and `DeepCopyInto`.
pub record LawfulLibrary (L : Library) : Type 1 where
  pub object_meta : LawfulCopy L.copy_object_meta
  pub list_meta : LawfulCopy L.copy_list_meta
  pub condition : LawfulCopy L.copy_condition
  pub container : LawfulCopy L.copy_container
  pub time : LawfulCopy L.copy_time

-- Values that refer to nothing.
abbrev SamePlain : {C T : Type 0} → Sameness C T
SamePlain g s m t = s ≡ t

module _ (L : Library) where
  unfoldable spec_lawful : LawfulCopy (spec_into L)
  unfolding spec_into config_into Keeps Stable
  spec_lawful = record {
    Same = SamePlain;
    stable = λ g s m t n e k. e;
    isolates = record { keeps = λ c m. (omega arith, λ a lt. refl); same = λ g s m t e n new. e };
  }

module _ (L : Library) (H : LawfulLibrary L) where
  -- The five fields of a status that refer to memory.
  abbrev References : Type 0
  References =
      Option Address
      × (Option L.parts.TimePointer × (Option Address × (Option Address × Option Address)))

  abbrev references : StatefulMigrationStatus L.parts → References
  references s =
      (s.conditions, (s.start_time, (s.phase_timings, (s.source_pod_labels, s.source_containers))))

  abbrev copy_references : Copy (Cell L.parts) References
  copy_references = copy_pair (copy_pointer condition_arrays (copy_elements L.copy_condition)) (
      copy_pair (copy_some L.copy_time) (
        copy_pair (copy_pointer text_maps copy_entries) (
          copy_pair (copy_pointer text_maps copy_entries)
            (copy_pointer container_arrays (copy_elements L.copy_container)))))

  abbrev references_lawful : LawfulCopy copy_references
  references_lawful = pair_lawful (pointer_lawful condition_arrays (elements_lawful H.condition)) (
      pair_lawful (some_lawful H.time) (
        pair_lawful (pointer_lawful text_maps entries_lawful) (
          pair_lawful (pointer_lawful text_maps entries_lawful)
            (pointer_lawful container_arrays (elements_lawful H.container)))))

  -- Two statuses whose other fields are equal, and whose references refer to the same.
  pub record SameStatus (g : Memory (Cell L.parts)) (s : StatefulMigrationStatus L.parts)
      (m : Memory (Cell L.parts)) (t : StatefulMigrationStatus L.parts) : Type 0 where
    pub others :
        (record t {
          conditions = s.conditions;
          start_time = s.start_time;
          phase_timings = s.phase_timings;
          source_pod_labels = s.source_pod_labels;
          source_containers = s.source_containers;
        })
        ≡ s
    pub referred : references_lawful.Same g (references s) m (references t)

  unfoldable status_lawful : LawfulCopy (status_into L)
  unfolding status_into Stable
  status_lawful = record {
    Same = SameStatus;
    stable = λ g s m t n e k. record {
      others = e.others;
      referred = references_lawful.stable g (references s) m (references t) n e.referred k;
    };
    isolates = record {
      keeps = λ t m. references_lawful.isolates.keeps (references t) m;
      same = λ g s m t e n new. record {
        others = e.others;
        referred =
            references_lawful.isolates.same g (references s) m (references t) e.referred n new;
      };
    };
  }

  pub record SameMigration (g : Memory (Cell L.parts)) (s : StatefulMigration L.parts)
      (m : Memory (Cell L.parts)) (t : StatefulMigration L.parts) : Type 0 where
    pub type_metas : s.type_meta ≡ t.type_meta
    pub others :
        (SamePair H.object_meta.Same (SamePair SamePlain SameStatus)) g
          (s.object_meta, (s.spec, s.status))
          m
          (t.object_meta, (t.spec, t.status))

  abbrev migration_parts_lawful :
      LawfulCopy (copy_pair L.copy_object_meta (copy_pair (spec_into L) (status_into L)))
  migration_parts_lawful = pair_lawful H.object_meta (pair_lawful (spec_lawful L) status_lawful)

  unfoldable pub migration_lawful : LawfulCopy (migration_into L)
  unfolding migration_into Stable spec_lawful status_lawful
  migration_lawful = record {
    Same = SameMigration;
    stable = λ g s m t n e k. record {
      type_metas = e.type_metas;
      others =
          migration_parts_lawful.stable g (s.object_meta, (s.spec, s.status)) m
            (t.object_meta, (t.spec, t.status)) n e.others k;
    };
    isolates = record {
      keeps = λ t m. migration_parts_lawful.isolates.keeps (t.object_meta, (t.spec, t.status)) m;
      same = λ g s m t e n new. record {
        type_metas = e.type_metas;
        others =
            migration_parts_lawful.isolates.same g (s.object_meta, (s.spec, s.status)) m
              (t.object_meta, (t.spec, t.status)) e.others n new;
      };
    };
  }

  pub record SameList (g : Memory (Cell L.parts)) (s : StatefulMigrationList L.parts)
      (m : Memory (Cell L.parts)) (t : StatefulMigrationList L.parts) : Type 0 where
    pub type_metas : s.type_meta ≡ t.type_meta
    pub others :
        (SamePair H.list_meta.Same (SamePointer (SameElements SameMigration) migration_arrays)) g
          (s.list_meta, s.items)
          m
          (t.list_meta, t.items)

  abbrev list_parts_lawful : LawfulCopy (
      copy_pair L.copy_list_meta (copy_pointer migration_arrays (copy_elements (migration_into L))))
  list_parts_lawful =
      pair_lawful H.list_meta (pointer_lawful migration_arrays (elements_lawful migration_lawful))

  unfoldable pub list_lawful : LawfulCopy (list_into L)
  unfolding list_into Stable migration_lawful spec_lawful status_lawful
  list_lawful = record {
    Same = SameList;
    stable = λ g s m t n e k. record {
      type_metas = e.type_metas;
      others =
          list_parts_lawful.stable g (s.list_meta, s.items) m (t.list_meta, t.items) n e.others k;
    };
    isolates = record {
      keeps = λ t m. list_parts_lawful.isolates.keeps (t.list_meta, t.items) m;
      same = λ g s m t e n new. record {
        type_metas = e.type_metas;
        others =
            list_parts_lawful.isolates.same g (s.list_meta, s.items) m (t.list_meta, t.items)
              e.others n new;
      };
    };
  }
