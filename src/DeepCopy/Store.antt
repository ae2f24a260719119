-- ===== src/DeepCopy/Store.antt =====
-- A memory of cells, and the copies of slices, maps and pointers in it that
-- api/v1alpha1/deepcopy.go writes out for each of its fields.
use kubernetes_controller.Base.{ℕ, suc, String, List, [], ◌∷◌, Option, none, some, ◌≡◌}
use kubernetes_controller.Base.{if◌then◌else◌, nat_eq}
use kubernetes_controller.Base.Dict.{Dict, insert}

abbrev pub Address : Type 0
Address = ℕ

-- `next` is the first address that is not in use.
pub record Memory (C : Type 0) : Type 0 where
  pub next : ℕ
  pub cell : ℕ → Option C

-- Copies a value, and what it refers to.
abbrev pub Copy : Type 0 → Type 0 → Type 0
Copy C T = T → Memory C → T × Memory C

-- The cells that hold a `T`.
pub record View (C T : Type 0) : Type 0 where
  pub put : T → C
  pub get : C → Option T
  pub get-put : (t : T) → get (put t) ≡ some t

-- a fresh address, which refers to the cell from now on
unfoldable pub add : {C : Type 0} → C → Memory C → Address × Memory C
add c m =
    (m.next, record { next = suc m.next; cell = λ a. if nat_eq a m.next then some c else m.cell a })

module _ {C T : Type 0} (V : View C T) where
  abbrev pub held : Option C → Option T
  held none = none
  held (some c) = V.get c

  -- what the address refers to, as a `T`
  unfoldable pub read : Memory C → Address → Option T
  read m a = held (m.cell a)

  -- The copy of the value, at a fresh address.
  unfoldable pub place : Copy C T → T → Memory C → Address × Memory C
  place f t m = let (t', m') = f t m in add (V.put t') m'

  -- An address that refers to no `T` is none that Go's types allow.
  unfoldable pub copy_found : Copy C T → Option T → Memory C → Option Address × Memory C
  copy_found f none m = (none, m)
  copy_found f (some t) m = let (b, m') = place f t m in (some b, m')

  -- `if in == nil { return nil }; out := new(T); in.DeepCopyInto(out)`, and the same for the elements
  -- of a slice or a map
  unfoldable pub copy_pointer : Copy C T → Copy C (Option Address)
  copy_pointer f none m = (none, m)
  copy_pointer f (some a) m = copy_found f (read m a) m

module _ {C T : Type 0} where
  -- `for i := range *in { (*in)[i].DeepCopyInto(&(*out)[i]) }`
  unfoldable pub copy_elements : Copy C T → Copy C (List T)
  copy_elements f [] m = ([], m)
  copy_elements f (t ∷ ts) m =
      let (t', m') = f t m in let (ts', m'') = copy_elements f ts m' in (t' ∷ ts', m'')

-- `for key, val := range *in { (*out)[key] = val }`, in one of the orders in which Go may go over a map
unfoldable pub copy_entries : {C : Type 0} → Copy C (Dict String)
copy_entries [] m = ([], m)
copy_entries ((k, v) ∷ d) m = let (d', m') = copy_entries d m in (insert k v d', m')

-- `if in.StartTime != nil { *out = (*in).DeepCopy() }`
unfoldable pub copy_some : {C T : Type 0} → Copy C T → Copy C (Option T)
copy_some f none m = (none, m)
copy_some f (some t) m = let (t', m') = f t m in (some t', m')
