-- ===== src/Controller/Helpers.antt =====
-- The reconciler's helpers: results, phase timings, transitions, failure and the polling interval.
use kubernetes_controller.Base.{
  ℕ, String, ◌*◌, Bool, true, false, Option, none, some, List, [], ◌∷◌, ◌==◌, if◌then◌else◌,
}
use kubernetes_controller.Base.Int.{ℤ, pos, sub_ℕ, ltb_ℤ}
use kubernetes_controller.Base.Dict.{lookup, insert, erase}
use kubernetes_controller.Api.{StatefulMigration, Phase, SwapSubPhase, Condition}
use kubernetes_controller.Messaging.{Result, ok, err}
use kubernetes_controller.Cluster.{Env}
use kubernetes_controller.Controller.Monad.{
  Act, ◌>>=◌, ◌>>◌, pure, return_with, invoke, modify, migration, skip,
}
use kubernetes_controller.Controller.Calls.{time_now, patch_status}

-- `ctrl.Result`, with the delay in nanoseconds.
pub record CtrlResult : Type 0 where
  pub requeue : Bool
  pub requeue_after : ℕ

-- What a phase's handler returns.
pub record Reply : Type 0 where
  pub result : CtrlResult
  pub error : Option String

-- What a swap sub-phase's handler returns.
pub record SwapReply : Type 0 where
  pub result : CtrlResult
  pub done : Bool
  pub error : Option String

abbrev pub second : ℕ
second = 1_000_000_000

abbrev no_result : CtrlResult
no_result = record { requeue = false; requeue_after = 0 }

abbrev pub stopped : Reply
stopped = record { result = no_result; error = none }

abbrev requeue : Reply
requeue = record { result = record { requeue = true; requeue_after = 0 }; error = none }

abbrev pub requeue_after : ℕ → Reply
requeue_after d = record { result = record { requeue = false; requeue_after = d }; error = none }

abbrev pub error : String → Reply
error e = record { result = no_result; error = some e }

abbrev pub swap_done : SwapReply
swap_done = record { result = no_result; done = true; error = none }

abbrev pub swap_requeue : SwapReply
swap_requeue = record {
  result = record { requeue = true; requeue_after = 0 };
  done = false;
  error = none;
}

abbrev pub swap_requeue_after : ℕ → SwapReply
swap_requeue_after d = record {
  result = record { requeue = false; requeue_after = d };
  done = false;
  error = none;
}

abbrev pub swap_error : String → SwapReply
swap_error e = record { result = no_result; done = false; error = some e }

-- `m.Status.PhaseTimings[k]`, with its presence.
abbrev pub timing : String → StatefulMigration → Option String
timing k m = lookup k m.status.phase_timings

abbrev pub set_timing : String → String → StatefulMigration → StatefulMigration
set_timing k v m = record m {
  status = record m.status { phase_timings = insert k v m.status.phase_timings };
}

abbrev pub delete_timing : String → StatefulMigration → StatefulMigration
delete_timing k m = record m {
  status = record m.status { phase_timings = erase k m.status.phase_timings };
}

abbrev pub has {ℓ} : {A : Type ℓ} → Option A → Bool
has none = false
has (some _) = true

abbrev pub set_phase : Phase → StatefulMigration → StatefulMigration
set_phase p m = record m { status = record m.status { phase = p } }

abbrev pub set_sub_phase : SwapSubPhase → StatefulMigration → StatefulMigration
set_sub_phase p m = record m { status = record m.status { swap_sub_phase = p } }

-- `meta.SetStatusCondition` for a condition that stands to be true: one of the type is replaced.
abbrev set_condition : Condition → List Condition → List Condition
set_condition c [] = c ∷ []
set_condition c (d ∷ ds) =
    let rest = set_condition c ds in if d.type == c.type then c ∷ ds else d ∷ rest

abbrev set_failed : String → StatefulMigration → StatefulMigration
set_failed reason m = record m {
  status = record m.status {
    phase = Phase.failed;
    conditions =
        set_condition (record { type = "Failed"; reason = "MigrationFailed"; message = reason })
          m.status.conditions;
  };
}

-- `var elapsed time.Duration; if t, err := time.Parse(…); err == nil { elapsed = time.Since(t) }`,
-- where a missing or unreadable stamp leaves 0.
abbrev pub since : Option ℕ → ℕ → ℤ
since none now = pos 0
since (some start) now = sub_ℕ now start

abbrev pub and_then {ℓ κ} : {A : Type ℓ} {B : Type κ} → Option A → (A → Option B) → Option B
and_then none f = none
and_then (some a) f = f a

module _ (E : Env) where
  -- The stamp under a key, if it is there and can be read.
  abbrev pub stamp : String → StatefulMigration → Option ℕ
  stamp k m = and_then (timing k m) E.parse_time

  -- `recordPhaseTiming`
  unfoldable pub record_phase_timing : String → ℤ → StatefulMigration → StatefulMigration
  record_phase_timing name d = set_timing name (E.format_millis d)

  -- `return` on an error.
  unfoldable pub return_if_error :
      {R : Type 0} → Option String → (String → R) → Act E.World R (Unit {0})
  return_if_error none f = pure tt
  return_if_error (some e) f = return_with (f e)

  -- The value of a call that must not fail.
  unfoldable pub or_return : {R A : Type 0} → Result A → (String → R) → Act E.World R A
  or_return (ok a) f = pure a
  or_return (err e) f = return_with (f e)

  -- The current time under a key.
  abbrev pub set_stamp : String → ℕ → StatefulMigration → StatefulMigration
  set_stamp k now = set_timing k (E.format_time now)

  -- The end of a sub-phase: `if err := r.Status().Patch(…)`, and a requeue with no delay.
  unfoldable pub advance : StatefulMigration → Act E.World SwapReply SwapReply
  unfolding return_if_error
  advance base = do e ← patch_status E base; return_if_error e swap_error; pure swap_requeue

  -- `transitionPhase`
  unfoldable pub transition_phase : StatefulMigration → Phase → Act E.World Reply Reply
  unfolding return_if_error
  transition_phase base p = do
    modify (set_phase p)
    e ← patch_status E base
    return_if_error e error
    pure requeue

  -- `failMigration`
  unfoldable pub fail_migration : String → Act E.World Reply Reply
  unfolding return_if_error
  fail_migration reason = do
    base ← migration
    modify (set_failed reason)
    e ← patch_status E base
    return_if_error e error
    pure stopped

  -- `return r.failMigration(…)`
  unfoldable pub fail_with : {A : Type 0} → String → Act E.World Reply A
  unfolding fail_migration
  fail_with reason = do r ← invoke (fail_migration reason); return_with r

  unfoldable pub or_fail : {A : Type 0} → Result A → (String → String) → Act E.World Reply A
  unfolding fail_with
  or_fail (ok a) f = pure a
  or_fail (err e) f = fail_with (f e)

  unfoldable pub fail_if_error : Option String → (String → String) → Act E.World Reply (Unit {0})
  unfolding fail_with
  fail_if_error none f = skip
  fail_if_error (some e) f = fail_with (f e)

  -- `pollingBackoff`: one second, two from ten seconds on, five from thirty.
  unfoldable pub backoff_of : Option ℕ → ℕ → ℕ
  backoff_of none now = second
  backoff_of (some start) now =
      let elapsed = sub_ℕ now start in
      if ltb_ℤ elapsed (pos (10 * second))
      then second
      else if ltb_ℤ elapsed (pos (30 * second))
      then 2 * second
      else 5 * second

  unfoldable pub polling_backoff : String → Act E.World Reply ℕ
  unfolding backoff_of
  polling_backoff key = do m ← migration; now ← time_now E; pure (backoff_of (stamp key m) now)
