-- ===== src/Controller/Settling/Advance.antt =====
-- Each handler of a phase ends the call of the reconciler, or leaves the next phase stored.
use kubernetes_controller.Base.{
  ◌≡◌, refl, ◌⊎◌, inl, inr, ℕ, String, Option, none, some, true, arith,
}
use kubernetes_controller.Api.{StatefulMigration, Phase}
use kubernetes_controller.Messaging.{Result, ok, err, Result-cases}
use kubernetes_controller.Cluster.{Env}
use kubernetes_controller.Controller.Monad.{St, ◌>>=◌, invoke, modify}
use kubernetes_controller.Controller.Calls.{patch_status}
use kubernetes_controller.Controller.Helpers.{
  Reply, stopped, error, requeue_after, transition_phase, fail_migration, fail_with, or_fail,
  fail_if_error, polling_backoff, return_if_error,
}
use kubernetes_controller.Controller.Reconcile.{ends_reconcile}
use kubernetes_controller.Controller.PhaseOrder.{SoleWriter, next_phase}
use kubernetes_controller.Controller.Settling.{
  Settles-run, Returned, any, Settles, settling_rules, Settles-value,
}
use kubernetes_controller.Controller.Settling.Calls.{settling_calls}

-- The reply ends the call, or the phase after `p` is stored.
pub record Advances (E : Env) (L : SoleWriter E) (p : Phase) (r : Reply) (s : St E.World)
    : Type 0 where
  pub ends_or_stores : (ends_reconcile r ≡ true) ⊎ ((L.stored s.world).phase ≡ next_phase p)

module _ (E : Env) (L : SoleWriter E) {p : Phase} where
  pub error-Advances : (e : String) (s : St E.World) → Advances E L p (error e) s
  unfolding ends_reconcile
  error-Advances e s = record { ends_or_stores = inl refl }

  pub stopped-Advances : (s : St E.World) → Advances E L p stopped s
  unfolding ends_reconcile
  stopped-Advances s = record { ends_or_stores = inl refl }

  pub requeue_after-Advances : (d : ℕ) (s : St E.World) → Advances E L p (requeue_after d) s
  unfolding ends_reconcile
  requeue_after-Advances d s = record { ends_or_stores = inl (ground arith) }

  pub transition_phase-Settles :
      (base : StatefulMigration) (q : Phase)
      → q ≡ next_phase p
      → Settles E (Advances E L p) (Advances E L p) (transition_phase E base q)
  unfolding transition_phase ◌>>=◌ modify patch_status return_if_error ends_reconcile
  transition_phase-Settles base q e = record {
    at = λ s.
        let m = record s.m { status = record s.m.status { phase = q } } in
        elim (Result-cases (E.patch_status base m s.world).0) [
          | inl (m', x) ↦ ground (arith, x, e, L.patch_stores base m s.world x)
          | inr (y, x) ↦ ground (arith, x)
        ];
  }

  pub fail_migration-Settles :
      (reason : String) → Settles E (Advances E L p) (Advances E L p) (fail_migration E reason)
  unfolding fail_migration
  fail_migration-Settles reason =
      search (settling_rules, settling_calls, error-Advances, stopped-Advances) depth 12

  pub fail_with-Settles :
      {A : Type 0} {N : Returned E A} (reason : String)
      → Settles E (Advances E L p) N (fail_with E reason)
  unfolding fail_with ◌>>=◌ invoke
  fail_with-Settles reason = record {
    at = λ s.
        Settles-run E (Advances E L p) (fail_migration E reason) (fail_migration-Settles reason) s;
  }

  pub or_fail-Settles :
      {A : Type 0} (r : Result A) (f : String → String)
      → Settles E (Advances E L p) (any E) (or_fail E r f)
  unfolding or_fail
  or_fail-Settles (ok a) f = search settling_rules
  or_fail-Settles (err e) f = fail_with-Settles (f e)

  pub fail_if_error-Settles :
      (e : Option String) (f : String → String)
      → Settles E (Advances E L p) (any E) (fail_if_error E e f)
  unfolding fail_if_error
  fail_if_error-Settles none f = search settling_rules
  fail_if_error-Settles (some e) f = fail_with-Settles (f e)

  pub polling_backoff-Settles :
      (key : String) → Settles E (Advances E L p) (any E) (polling_backoff E key)
  unfolding polling_backoff
  polling_backoff-Settles key = search (settling_rules, settling_calls) depth 12

pub ruleset advance_rules = (
  settling_rules, settling_calls, error-Advances, stopped-Advances, requeue_after-Advances,
  transition_phase-Settles, fail_migration-Settles, fail_with-Settles, or_fail-Settles,
  fail_if_error-Settles, polling_backoff-Settles,
)
