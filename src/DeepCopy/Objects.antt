-- ===== src/DeepCopy/Objects.antt =====
-- `DeepCopyObject` of the two resource types: the copies that the API machinery asks for.
use kubernetes_controller.Base.{Option, none, some, ◌≡◌, refl, ◌⊎◌, inl, inr}
use kubernetes_controller.DeepCopy.{
  Library, RuntimeObject, of_migration, of_list, object_unless_nil, copy_migration, copy_list,
  copy_migration_object, copy_list_object,
}
use kubernetes_controller.DeepCopy.Cells.{Cell, migrations, migration_lists}
use kubernetes_controller.DeepCopy.Store.{Memory, Address, View}
use kubernetes_controller.DeepCopy.Sharing.{Keeps, HoldsNew, Sameness}
use kubernetes_controller.DeepCopy.Pointers.{SamePointer, SameAt}
use kubernetes_controller.DeepCopy.Lawful.{pointer_lawful}
use kubernetes_controller.DeepCopy.Laws.{
  LawfulLibrary, SameMigration, SameList, migration_lawful, list_lawful,
}

module _ {C T : Type 0} (S : Sameness C T) (V : View C T) where
  -- The interface is nil if the pointer is; or it holds a pointer that is not nil, to the same value.
  abbrev pub SameObject :
      (Option Address → RuntimeObject)
      → Memory C
      → Option Address
      → Memory C
      → Option RuntimeObject
      → Type 0
  SameObject of g p m o =
      ((p ≡ none) × (o ≡ none))
      ⊎ ((a : Address) × (b : Address) × (p ≡ some a)
          × (o ≡ some (of (some b)))
          × SameAt S V g a m b)

  object_unless_nil-Same :
      (of : Option Address → RuntimeObject) (g : Memory C) (p : Option Address) (m : Memory C)
      (q : Option Address)
      → SamePointer S V g p m q
      → SameObject of g p m (object_unless_nil of q)
  object_unless_nil-Same of g none m none e = inl (refl, refl)
  object_unless_nil-Same of g none m (some b) e = elim e [ ]
  object_unless_nil-Same of g (some a) m none e = elim e [ ]
  object_unless_nil-Same of g (some a) m (some b) e = inr (a, b, refl, refl, e)

module _ (L : Library) (H : LawfulLibrary L) where
  -- For a pointer that is nil or to a migration in memory, `DeepCopyObject` changes nothing that was
  -- in memory; its result is nil if the pointer is, and else refers to a migration that stays the
  -- same as the copied one was, however memory changes afterwards where the copied one lay.
  pub copy_migration_object_isolates :
      (p : Option Address) (m n : Memory (Cell L.parts))
      → SamePointer (SameMigration L H) migrations m p m p
      → HoldsNew m (copy_migration_object L p m).1 n
      → Keeps m (copy_migration_object L p m).1
        × SameObject
            (SameMigration L H)
            migrations
            of_migration
            m
            p
            n
            (copy_migration_object L p m).0
  unfolding copy_migration_object copy_migration migration_lawful
  copy_migration_object_isolates p m n valid new =
      let F = (pointer_lawful migrations (migration_lawful L H)).isolates in
      (
        F.keeps p m,
        object_unless_nil-Same (SameMigration L H) migrations of_migration m p n _
            (F.same m p m p valid n new),
      )

  -- For a pointer that is nil or to a list of migrations in memory, `DeepCopyObject` changes nothing
  -- that was in memory; its result is nil if the pointer is, and else refers to a list whose
  -- migrations stay the same as the copied ones were, however memory changes afterwards where the
  -- copied list lay.
  pub copy_list_object_isolates :
      (p : Option Address) (m n : Memory (Cell L.parts))
      → SamePointer (SameList L H) migration_lists m p m p
      → HoldsNew m (copy_list_object L p m).1 n
      → Keeps m (copy_list_object L p m).1
        × SameObject (SameList L H) migration_lists of_list m p n (copy_list_object L p m).0
  unfolding copy_list_object copy_list list_lawful
  copy_list_object_isolates p m n valid new =
      let F = (pointer_lawful migration_lists (list_lawful L H)).isolates in
      (
        F.keeps p m,
        object_unless_nil-Same (SameList L H) migration_lists of_list m p n _
            (F.same m p m p valid n new),
      )
