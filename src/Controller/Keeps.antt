-- ===== src/Controller/Keeps.antt =====
-- What a handler leaves true whichever way it ends: the rules by which a predicate on the state goes
-- through pure values, early returns, tests, calls of other handlers and sequences.
use kubernetes_controller.Base.{String, Bool, true, false, Option, none, some, if◌then◌else◌}
use kubernetes_controller.Messaging.{Result, ok, err}
use kubernetes_controller.Cluster.{Env}
use kubernetes_controller.Controller.Monad.{
  St, Flow, next, return, continue, Act, ◌>>=◌, pure, return_with, invoke, migration, skip,
}
use kubernetes_controller.Controller.Helpers.{or_return, return_if_error}

-- `P` holds after the action if it did before, on a value and on an early return alike.
pub record Keeps {W R A : Type 0} (P : St W → Type 0) (a : Act W R A) : Type 0 where
  pub at : (s : St W) → P s → P (a s).1

module _ {W R A : Type 0} {P : St W → Type 0} where
  pub Keeps-pure : (a : A) → Keeps {R = R} P (pure a)
  unfolding pure
  Keeps-pure a = record { at = λ s h. h }

  pub Keeps-return_with : (r : R) → Keeps {A = A} P (return_with r)
  unfolding return_with
  Keeps-return_with r = record { at = λ s h. h }

  pub Keeps-if : (b : Bool) (x y : Act W R A) → Keeps P x → Keeps P y → Keeps P (if b then x else y)
  Keeps-if true x y kx ky = kx
  Keeps-if false x y kx ky = ky

module _ {W R : Type 0} {P : St W → Type 0} where
  pub Keeps-migration : Keeps {R = R} P migration
  unfolding migration
  Keeps-migration = record { at = λ s h. h }

  pub Keeps-skip : Keeps {R = R} P skip
  unfolding skip
  Keeps-skip = record { at = λ s h. h }

  pub Keeps-invoke : {Q : Type 0} (a : Act W Q Q) → Keeps P a → Keeps {R = R} P (invoke a)
  unfolding invoke
  Keeps-invoke a k = record { at = λ s h. k.at s h }

module _ {W R A B : Type 0} {P : St W → Type 0} where
  Keeps-continue :
      (r : Flow R A) (f : A → Act W R B) (s : St W)
      → ((a : A) → Keeps P (f a))
      → P s
      → P (continue r f s).1
  Keeps-continue (next a) f s k h = (k a).at s h
  Keeps-continue (return r) f s k h = h

  pub Keeps-bind :
      (a : Act W R A) (f : A → Act W R B)
      → Keeps P a
      → ((x : A) → Keeps P (f x))
      → Keeps P (a >>= f)
  unfolding ◌>>=◌
  Keeps-bind a f ka kf = record {
    at = λ s h. let (r, s') = a s in Keeps-continue r f s' kf (ka.at s h);
  }

module _ (E : Env) {R : Type 0} {P : St E.World → Type 0} where
  pub Keeps-return_if_error : (e : Option String) (f : String → R) → Keeps P (return_if_error E e f)
  unfolding return_if_error
  Keeps-return_if_error none f = Keeps-pure tt
  Keeps-return_if_error (some e) f = Keeps-return_with (f e)

  pub Keeps-or_return : {A : Type 0} (r : Result A) (f : String → R) → Keeps P (or_return E r f)
  unfolding or_return
  Keeps-or_return (ok a) f = Keeps-pure a
  Keeps-or_return (err e) f = Keeps-return_with (f e)

pub ruleset keeps_rules = (
  Keeps-pure, Keeps-return_with, Keeps-if, Keeps-migration, Keeps-skip, Keeps-invoke, Keeps-bind,
  Keeps-return_if_error, Keeps-or_return,
)
