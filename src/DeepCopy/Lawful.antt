-- ===== src/DeepCopy/Lawful.antt =====
-- The copies that isolate, and how they are put together.
use kubernetes_controller.DeepCopy.Store.{
  Copy, View, copy_pointer, copy_elements, copy_entries, copy_some,
}
use kubernetes_controller.DeepCopy.Sharing.{
  Sameness, SamePair, Stable, Isolates, copy_pair, pair-Isolates,
}
use kubernetes_controller.DeepCopy.Slices.{
  SameElements, SameElements-Stable, SameEntries, copy_elements-Isolates, copy_entries-Isolates,
}
use kubernetes_controller.DeepCopy.Pointers.{
  SameOption, SameOption-Stable, SamePointer, SamePointer-Stable, copy_pointer-Isolates,
  copy_some-Isolates,
}

-- When two values are the same, and that the copy of one shares nothing with it.
pub record LawfulCopy {C T : Type 0} (f : Copy C T) : Type 1 where
  pub Same : Sameness C T
  pub stable : Stable Same
  pub isolates : Isolates Same f

module _ {C : Type 0} where
  abbrev pub pair_lawful :
      {A B : Type 0} {f : Copy C A} {h : Copy C B}
      → LawfulCopy f
      → LawfulCopy h
      → LawfulCopy (copy_pair f h)
  unfolding Stable
  pair_lawful {f = f} {h = h} F H = record {
    Same = SamePair F.Same H.Same;
    stable = λ g s m t n e k. (F.stable g s.0 m t.0 n e.0 k, H.stable g s.1 m t.1 n e.1 k);
    isolates = pair-Isolates f h H.stable F.isolates H.isolates;
  }

  abbrev pub elements_lawful :
      {A : Type 0} {f : Copy C A} → LawfulCopy f → LawfulCopy (copy_elements f)
  elements_lawful {f = f} F = record {
    Same = SameElements F.Same;
    stable = SameElements-Stable F.Same F.stable;
    isolates = copy_elements-Isolates F.Same f F.stable F.isolates;
  }

  abbrev pub entries_lawful : LawfulCopy (copy_entries {C = C})
  unfolding Stable
  entries_lawful = record {
    Same = SameEntries;
    stable = λ g s m t n e k. e;
    isolates = copy_entries-Isolates;
  }

  abbrev pub some_lawful : {A : Type 0} {f : Copy C A} → LawfulCopy f → LawfulCopy (copy_some f)
  some_lawful {f = f} F = record {
    Same = SameOption F.Same;
    stable = SameOption-Stable F.Same F.stable;
    isolates = copy_some-Isolates F.Same f F.isolates;
  }

  abbrev pub pointer_lawful :
      {A : Type 0} (V : View C A) {f : Copy C A} → LawfulCopy f → LawfulCopy (copy_pointer V f)
  pointer_lawful V {f = f} F = record {
    Same = SamePointer F.Same V;
    stable = SamePointer-Stable F.Same V F.stable;
    isolates = copy_pointer-Isolates F.Same V f F.isolates;
  }
