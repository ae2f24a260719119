-- ===== src/DeepCopy/Sharing.antt =====
-- What a copy owes its reader.
use kubernetes_controller.Base.{ℕ, some, ◌≡◌, arith, ◌≤◌, ◌<◌, ◌∙◌}
use kubernetes_controller.DeepCopy.Store.{Memory, Copy, add}

-- What was there in `m` is there in `n`, unchanged.
unfoldable pub Keeps : {C : Type 0} → Memory C → Memory C → Type 0
Keeps m n = (m.next ≤ n.next) × ((a : ℕ) → a < m.next → n.cell a ≡ m.cell a)

-- What came between `m` and `m'` is there in `n`, unchanged. What was there in `m` may have changed.
unfoldable pub HoldsNew : {C : Type 0} → Memory C → Memory C → Memory C → Type 0
HoldsNew m m' n = (m'.next ≤ n.next) × ((a : ℕ) → m.next ≤ a → a < m'.next → n.cell a ≡ m'.cell a)

-- `Same g s m t`: what `s` is in the memory `g`, `t` is in the memory `m`.
abbrev pub Sameness : Type 0 → Type 0 → Type 1
Sameness C T = Memory C → T → Memory C → T → Type 0

-- A copy leaves what was there unchanged, and shares nothing with it: whatever is written there
-- afterwards, the copy is still the same as what was copied.
pub record Isolates {C T : Type 0} (Same : Sameness C T) (f : Copy C T) : Type 0 where
  pub keeps : (t : T) (m : Memory C) → Keeps m (f t m).1
  pub same :
      (g : Memory C) (s : T) (m : Memory C) (t : T)
      → Same g s m t
      → (n : Memory C) → HoldsNew m (f t m).1 n
      → Same g s n (f t m).0

pub Keeps-trans : {C : Type 0} (k m n : Memory C) → Keeps k m → Keeps m n → Keeps k n
unfolding Keeps
Keeps-trans k m n (a, e) (b, h) = (omega arith, λ i lt. h i (omega arith) ∙ e i lt)

module _ {C : Type 0} (k m l n : Memory C) where
  -- Of two copies, one after the other, each one's cells are still there.
  pub HoldsNew-first : Keeps m l → HoldsNew k l n → HoldsNew k m n
  unfolding Keeps HoldsNew
  HoldsNew-first (a, e) (b, h) = (omega arith, λ i lo hi. h i lo (omega arith) ∙ e i hi)

  pub HoldsNew-second : Keeps k m → HoldsNew k l n → HoldsNew m l n
  unfolding Keeps HoldsNew
  HoldsNew-second (a, e) (b, h) = (b, λ i lo hi. h i (omega arith) hi)

module _ {C : Type 0} (c : C) (m : Memory C) where
  pub add-Keeps : Keeps m (add c m).1
  unfolding add Keeps
  add-Keeps = (omega arith, λ a lt. ground arith)

  pub cell-add : (add c m).1.cell m.next ≡ some c
  unfolding add
  cell-add = ground arith

abbrev pub SamePair : {C A B : Type 0} → Sameness C A → Sameness C B → Sameness C (A × B)
SamePair S T g s m t = S g s.0 m t.0 × T g s.1 m t.1

abbrev pub copy_pair : {C A B : Type 0} → Copy C A → Copy C B → Copy C (A × B)
copy_pair f h s m = let (a, m') = f s.0 m in let (b, m'') = h s.1 m' in ((a, b), m'')

-- What is the same stays the same while what was there is unchanged.
unfoldable pub Stable : {C T : Type 0} → Sameness C T → Type 0
Stable {C} {T} S =
    (g : Memory C) (s : T) (m : Memory C) (t : T) (n : Memory C) → S g s m t → Keeps m n → S g s n t

pub pair-Isolates :
    {C A B : Type 0} {S : Sameness C A} {T : Sameness C B} (f : Copy C A) (h : Copy C B)
    → Stable T
    → Isolates S f
    → Isolates T h
    → Isolates (SamePair S T) (copy_pair f h)
unfolding Stable
pair-Isolates f h stable F H = record {
  keeps = λ t m. Keeps-trans m (f t.0 m).1 _ (F.keeps t.0 m) (H.keeps t.1 _);
  same = λ g s m t e n new. (
    F.same g s.0 m t.0 e.0 n (HoldsNew-first m (f t.0 m).1 _ n (H.keeps t.1 _) new),
    H.same g s.1 _ t.1 (stable g s.1 m t.1 _ e.1 (F.keeps t.0 m)) n
        (HoldsNew-second m (f t.0 m).1 _ n (F.keeps t.0 m) new),
  );
}
