-- ===== src/Controller/Settling.antt =====
-- What an action's values and early returns hold: a rule for each way to build an action.
pub mod Calls
pub mod Advance
pub mod Early
pub mod Late
pub mod Finalizing
pub mod Loop
use kubernetes_controller.Base.{String, Bool, true, false, Option, none, some, if◌then◌else◌, ◌≡◌}
use kubernetes_controller.Messaging.{Result, ok, err}
use kubernetes_controller.Cluster.{Env}
use kubernetes_controller.Controller.Monad.{
  St, Flow, next, return, continue, collapse, run, Act, ◌>>=◌, pure, return_with, invoke, migration,
  skip,
}
use kubernetes_controller.Controller.Helpers.{or_return, return_if_error}

-- A predicate on what a handler returns and the state that it leaves.
abbrev pub Returned : Env → Type 0 → Type 1
Returned E R = R → St E.World → Type 0

-- Nothing is said of the value.
abbrev pub any : (E : Env) {A : Type 0} → Returned E A
any E a s = Unit

module _ (E : Env) {R : Type 0} where
  abbrev pub Holds : {A : Type 0} → Returned E R → Returned E A → Flow R A → St E.World → Type 0
  Holds G N (next a) s = N a s
  Holds G N (return r) s = G r s

  -- An early return meets `G`, and a value meets `N`.
  pub record Settles (G : Returned E R) {A : Type 0} (N : Returned E A) (a : Act E.World R A)
      : Type 0 where
    pub at : (s : St E.World) → Holds G N (a s).0 (a s).1

module _ (E : Env) {R : Type 0} (G : Returned E R) where
  Holds-collapse : (r : Flow R R) (s : St E.World) → Holds E G G r s → G (collapse r) s
  Holds-collapse (next x) s h = h
  Holds-collapse (return x) s h = h

  -- A handler's reply is its last value or its early return.
  pub Settles-run :
      (a : Act E.World R R) → Settles E G G a → (s : St E.World) → G (run a s).0 (run a s).1
  Settles-run a h s = Holds-collapse (a s).0 (a s).1 (h.at s)

module _ (E : Env) {R : Type 0} {G : Returned E R} where
  pub Settles-pure :
      {A : Type 0} {N : Returned E A} (x : A) → ((s : St E.World) → N x s) → Settles E G N (pure x)
  unfolding pure
  Settles-pure x h = record { at = h }

  pub Settles-value : {A : Type 0} (x : A) → Settles E G (any E) (pure x)
  unfolding pure
  Settles-value x = record { at = λ s. tt }

  pub Settles-return_with :
      {A : Type 0} {N : Returned E A} (r : R)
      → ((s : St E.World) → G r s)
      → Settles E G N (return_with r)
  unfolding return_with
  Settles-return_with r h = record { at = h }

  pub Settles-if :
      {A : Type 0} {N : Returned E A} (b : Bool) (x y : Act E.World R A)
      → Settles E G N x
      → Settles E G N y
      → Settles E G N (if b then x else y)
  Settles-if true x y hx hy = hx
  Settles-if false x y hx hy = hy

  pub Settles-migration : Settles E {R = R} G (any E) migration
  unfolding migration
  Settles-migration = record { at = λ s. tt }

  pub Settles-skip : Settles E {R = R} G (any E) skip
  unfolding skip
  Settles-skip = record { at = λ s. tt }

  pub Settles-invoke : {Q : Type 0} (a : Act E.World Q Q) → Settles E {R = R} G (any E) (invoke a)
  unfolding invoke
  Settles-invoke a = record { at = λ s. tt }

  Holds-continue :
      {A B : Type 0} {N : Returned E B} (r : Flow R A) (f : A → Act E.World R B) (s : St E.World)
      → Holds E G (any E) r s
      → ((x : A) → Settles E G N (f x))
      → Holds E G N (continue r f s).0 (continue r f s).1
  Holds-continue (next x) f s h k = (k x).at s
  Holds-continue (return r) f s h k = h

  pub Settles-bind :
      {A B : Type 0} {N : Returned E B} (a : Act E.World R A) (f : A → Act E.World R B)
      → Settles E G (any E) a
      → ((x : A) → Settles E G N (f x))
      → Settles E G N (a >>= f)
  unfolding ◌>>=◌
  Settles-bind a f ha hf = record { at = λ s. Holds-continue (a s).0 f (a s).1 (ha.at s) hf }

  pub Settles-return_if_error :
      (e : Option String) (f : String → R)
      → ((x : String) (s : St E.World) → G (f x) s)
      → Settles E G (any E) (return_if_error E e f)
  unfolding return_if_error
  Settles-return_if_error none f h = Settles-value tt
  Settles-return_if_error (some e) f h = Settles-return_with (f e) (h e)

  pub Settles-or_return :
      {A : Type 0} (r : Result A) (f : String → R)
      → ((x : String) (s : St E.World) → G (f x) s)
      → Settles E G (any E) (or_return E r f)
  unfolding or_return
  Settles-or_return (ok a) f h = Settles-value a
  Settles-or_return (err e) f h = Settles-return_with (f e) (h e)

pub ruleset settling_rules = (
  Settles-pure, Settles-value, Settles-return_with, Settles-if, Settles-migration, Settles-skip,
  Settles-invoke, Settles-bind, Settles-return_if_error, Settles-or_return,
)
