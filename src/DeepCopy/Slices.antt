-- ===== src/DeepCopy/Slices.antt =====
-- The copies of the elements of a slice and of the entries of a map.
use kubernetes_controller.Base.{List, [], ◌∷◌, ◌≡◌, refl, arith, String, ◌∙◌}
use kubernetes_controller.Base.Dict.{Dict, lookup, lookup-insert}
use kubernetes_controller.DeepCopy.Store.{Memory, Copy, copy_elements, copy_entries}
use kubernetes_controller.DeepCopy.Sharing.{
  Keeps, HoldsNew, Sameness, Stable, Isolates, Keeps-trans, HoldsNew-first, HoldsNew-second,
}

module _ {C T : Type 0} (S : Sameness C T) where
  abbrev pub SameElements : Sameness C (List T)
  SameElements g [] m [] = Unit {0}
  SameElements g (s ∷ ss) m (t ∷ ts) = S g s m t × SameElements g ss m ts
  SameElements g _ m _ = ⊥

  pub SameElements-Stable : Stable S → Stable SameElements
  unfolding Stable
  SameElements-Stable stable g [] m [] n e k = e
  SameElements-Stable stable g [] m (t ∷ ts) n e k = elim e [ ]
  SameElements-Stable stable g (s ∷ ss) m [] n e k = elim e [ ]
  SameElements-Stable stable g (s ∷ ss) m (t ∷ ts) n (e, es) k =
      (stable g s m t n e k, SameElements-Stable stable g ss m ts n es k)

  module _ (f : Copy C T) (stable : Stable S) (F : Isolates S f) where
    copy_elements-Keeps : (ts : List T) (m : Memory C) → Keeps m (copy_elements f ts m).1
    unfolding copy_elements Keeps
    copy_elements-Keeps [] m = (omega arith, λ a lt. refl)
    copy_elements-Keeps (t ∷ ts) m =
        Keeps-trans m (f t m).1 _ (F.keeps t m) (copy_elements-Keeps ts _)

    copy_elements-Same :
        (g : Memory C) (ss : List T) (m : Memory C) (ts : List T)
        → SameElements g ss m ts
        → (n : Memory C) → HoldsNew m (copy_elements f ts m).1 n
        → SameElements g ss n (copy_elements f ts m).0
    unfolding copy_elements Stable
    copy_elements-Same g [] m [] e n new = e
    copy_elements-Same g [] m (t ∷ ts) e n new = elim e [ ]
    copy_elements-Same g (s ∷ ss) m [] e n new = elim e [ ]
    copy_elements-Same g (s ∷ ss) m (t ∷ ts) (e, es) n new = (
      F.same g s m t e n (HoldsNew-first m (f t m).1 _ n (copy_elements-Keeps ts _) new),
      copy_elements-Same g ss _ ts (SameElements-Stable stable g ss m ts _ es (F.keeps t m)) n
          (HoldsNew-second m (f t m).1 _ n (F.keeps t m) new),
    )

    pub copy_elements-Isolates : Isolates SameElements (copy_elements f)
    copy_elements-Isolates = record { keeps = copy_elements-Keeps; same = copy_elements-Same }

-- Two maps with the same entries, in whatever order.
abbrev pub SameEntries : {C : Type 0} → Sameness C (Dict String)
SameEntries g d m e = (k : String) → lookup k e ≡ lookup k d

module _ {C : Type 0} where
  copy_entries-Keeps : (d : Dict String) (m : Memory C) → Keeps m (copy_entries d m).1
  unfolding copy_entries Keeps
  copy_entries-Keeps [] m = (omega arith, λ a lt. refl)
  copy_entries-Keeps ((k, v) ∷ d) m = copy_entries-Keeps d m

  lookup-copy_entries :
      (j : String) (d : Dict String) (m : Memory C) → lookup j (copy_entries d m).0 ≡ lookup j d
  unfolding copy_entries lookup
  lookup-copy_entries j [] m = refl
  lookup-copy_entries j ((k, v) ∷ d) m =
      rw (lookup-insert k j v (copy_entries d m).0, lookup-copy_entries j d m) refl

  pub copy_entries-Isolates : Isolates (SameEntries {C = C}) copy_entries
  copy_entries-Isolates = record {
    keeps = copy_entries-Keeps;
    same = λ g s m t e n new k. lookup-copy_entries k t m ∙ e k;
  }
