-- ===== src/DeepCopy/Pointers.antt =====
-- The copies of pointers, to what has a copy itself.
use kubernetes_controller.Base.{Option, none, some, ◌≡◌, refl, arith, ◌<◌, ◌∙◌, ap}
use kubernetes_controller.DeepCopy.Store.{
  Memory, Address, Copy, View, read, held, copy_found, place, add, copy_pointer, copy_some,
}
use kubernetes_controller.DeepCopy.Sharing.{
  Keeps, HoldsNew, Sameness, Stable, Isolates, Keeps-trans, add-Keeps, cell-add, HoldsNew-first,
}

module _ {C T : Type 0} (S : Sameness C T) where
  abbrev pub SameOption : Sameness C (Option T)
  SameOption g none m none = Unit {0}
  SameOption g (some s) m (some t) = S g s m t
  SameOption g _ m _ = ⊥

  pub SameOption-Stable : Stable S → Stable SameOption
  unfolding Stable
  SameOption-Stable stable g none m none n e k = e
  SameOption-Stable stable g none m (some t) n e k = elim e [ ]
  SameOption-Stable stable g (some s) m none n e k = elim e [ ]
  SameOption-Stable stable g (some s) m (some t) n e k = stable g s m t n e k

  module _ (V : View C T) where
    -- Both addresses refer to a `T`, and these are the same.
    pub record SameAt (g : Memory C) (a : Address) (m : Memory C) (b : Address) : Type 0 where
      pub in_use : b < m.next
      pub from : T
      pub to : T
      pub read_from : read V g a ≡ some from
      pub read_to : read V m b ≡ some to
      pub same_values : S g from m to

    abbrev pub SamePointer : Sameness C (Option Address)
    SamePointer g none m none = Unit {0}
    SamePointer g (some a) m (some b) = SameAt g a m b
    SamePointer g _ m _ = ⊥

    pub SamePointer-Stable : Stable S → Stable SamePointer
    unfolding Stable Keeps read
    SamePointer-Stable stable g none m none n e k = e
    SamePointer-Stable stable g none m (some b) n e k = elim e [ ]
    SamePointer-Stable stable g (some a) m none n e k = elim e [ ]
    SamePointer-Stable stable g (some a) m (some b) n e k = record {
      in_use = (let lt = e.in_use in let le = k.0 in omega arith);
      from = e.from;
      to = e.to;
      read_from = e.read_from;
      read_to = rw (k.1 b e.in_use) e.read_to;
      same_values = stable g e.from m e.to n e.same_values k;
    }

    module _ (f : Copy C T) (F : Isolates S f) where
      place-Keeps : (t : T) (m : Memory C) → Keeps m (place V f t m).1
      unfolding place
      place-Keeps t m =
          Keeps-trans m (f t m).1 _ (F.keeps t m) (add-Keeps (V.put (f t m).0) (f t m).1)

      place-Same :
          (g : Memory C) (a : Address) (s : T) (m : Memory C) (t : T)
          → read V g a ≡ some s
          → S g s m t
          → (n : Memory C) → HoldsNew m (place V f t m).1 n
          → SameAt g a n (place V f t m).0
      unfolding place HoldsNew Keeps read add
      place-Same g a s m t e same n new = record {
        in_use = new.0;
        from = s;
        to = (f t m).0;
        read_from = e;
        read_to =
            ap (held V) (
              new.1 (f t m).1.next (F.keeps t m).0 (omega arith)
              ∙ cell-add (V.put (f t m).0) (f t m).1)
            ∙ V.get-put (f t m).0;
        same_values =
            F.same g s m t same n
              (HoldsNew-first m (f t m).1 _ n (add-Keeps (V.put (f t m).0) (f t m).1) new);
      }

      copy_found-Keeps : (r : Option T) (m : Memory C) → Keeps m (copy_found V f r m).1
      unfolding copy_found Keeps
      copy_found-Keeps none m = (omega arith, λ a lt. refl)
      copy_found-Keeps (some t) m = place-Keeps t m

      copy_found-Same :
          (g : Memory C) (a : Address) (s : T) (m : Memory C) (t : T) (r : Option T)
          → r ≡ some t
          → read V g a ≡ some s
          → S g s m t
          → (n : Memory C) → HoldsNew m (copy_found V f r m).1 n
          → SamePointer g (some a) n (copy_found V f r m).0
      unfolding copy_found
      copy_found-Same g a s m t r found e same n = rw found (place-Same g a s m t e same n)

      copy_pointer-Keeps : (p : Option Address) (m : Memory C) → Keeps m (copy_pointer V f p m).1
      unfolding copy_pointer Keeps
      copy_pointer-Keeps none m = (omega arith, λ a lt. refl)
      copy_pointer-Keeps (some a) m = copy_found-Keeps (read V m a) m

      copy_pointer-Same :
          (g : Memory C) (p : Option Address) (m : Memory C) (q : Option Address)
          → SamePointer g p m q
          → (n : Memory C) → HoldsNew m (copy_pointer V f q m).1 n
          → SamePointer g p n (copy_pointer V f q m).0
      unfolding copy_pointer
      copy_pointer-Same g none m none e n new = e
      copy_pointer-Same g none m (some b) e n new = elim e [ ]
      copy_pointer-Same g (some a) m none e n new = elim e [ ]
      copy_pointer-Same g (some a) m (some b) e n new =
          copy_found-Same g a e.from m e.to (read V m b) e.read_to e.read_from e.same_values n new

      pub copy_pointer-Isolates : Isolates SamePointer (copy_pointer V f)
      copy_pointer-Isolates = record { keeps = copy_pointer-Keeps; same = copy_pointer-Same }

module _ {C T : Type 0} (S : Sameness C T) (f : Copy C T) (F : Isolates S f) where
  copy_some-Keeps : (p : Option T) (m : Memory C) → Keeps m (copy_some f p m).1
  unfolding copy_some Keeps
  copy_some-Keeps none m = (omega arith, λ a lt. refl)
  copy_some-Keeps (some t) m = F.keeps t m

  copy_some-Same :
      (g : Memory C) (p : Option T) (m : Memory C) (q : Option T)
      → SameOption S g p m q
      → (n : Memory C) → HoldsNew m (copy_some f q m).1 n
      → SameOption S g p n (copy_some f q m).0
  unfolding copy_some
  copy_some-Same g none m none e n new = e
  copy_some-Same g none m (some t) e n new = elim e [ ]
  copy_some-Same g (some s) m none e n new = elim e [ ]
  copy_some-Same g (some s) m (some t) e n new = F.same g s m t e n new

  pub copy_some-Isolates : Isolates (SameOption S) (copy_some f)
  copy_some-Isolates = record { keeps = copy_some-Keeps; same = copy_some-Same }
