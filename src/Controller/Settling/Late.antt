-- ===== src/Controller/Settling/Late.antt =====
-- Restoring and Replaying end the call or advance.
use kubernetes_controller.Base.{ℕ, String, Bool, true, false, Option, none, some}
use kubernetes_controller.Api.{Phase}
use kubernetes_controller.Cluster.{Env, Lookup, Pod, Created, StatefulSet}
use kubernetes_controller.Controller.PhaseOrder.{SoleWriter}
use kubernetes_controller.Controller.Settling.{any, Settles}
use kubernetes_controller.Controller.Settling.Advance.{
  Advances, advance_rules, fail_migration-Settles, fail_with-Settles,
}
use kubernetes_controller.Controller.Settling.Early.{begin_phase-Settles, end_phase-Settles}
use kubernetes_controller.Controller.Phases.Restoring.{
  scale_to_zero, scale_found, await_scale_down, target_runs, await_target, of_source, after_create,
  create_target, follow_target, handle_restoring,
}
use kubernetes_controller.Controller.Phases.Replaying.{
  note_or_fail, replay_drain_check, unbind_if_drain, begin_replay, finish_replay, check_cutoff,
  handle_replaying,
}

module _ (E : Env) (L : SoleWriter E) where
  scale_to_zero-Settles :
      {p : Phase} (x : StatefulSet) (n : Option ℕ)
      → Settles E (Advances E L p) (any E) (scale_to_zero E x n)
  unfolding scale_to_zero
  scale_to_zero-Settles x none = search advance_rules
  scale_to_zero-Settles x (some n) = search (advance_rules, L) depth 15

  scale_found-Settles :
      {p : Phase} (l : Lookup StatefulSet) → Settles E (Advances E L p) (any E) (scale_found E l)
  unfolding scale_found
  scale_found-Settles (Lookup.found x) = scale_to_zero-Settles x _
  scale_found-Settles Lookup.not_found = search advance_rules
  scale_found-Settles (Lookup.failed e) = search (advance_rules, L)

  await_target-Settles :
      (x : Pod)
      → Settles E (Advances E L Phase.restoring) (Advances E L Phase.restoring) (await_target E x)
  unfolding await_target await_scale_down target_runs
  await_target-Settles x =
      search (advance_rules, L, scale_found-Settles, end_phase-Settles) depth 15

  of_source-Settles :
      {p : Phase} (l : Lookup Pod) → Settles E (Advances E L p) (any E) (of_source E l)
  unfolding of_source
  of_source-Settles (Lookup.found x) = search advance_rules
  of_source-Settles Lookup.not_found = fail_with-Settles E L _
  of_source-Settles (Lookup.failed e) = fail_with-Settles E L _

  after_create-Settles :
      {p : Phase} (r : Created) → Settles E (Advances E L p) (Advances E L p) (after_create E r)
  unfolding after_create
  after_create-Settles Created.created = search (advance_rules, L)
  after_create-Settles Created.already_exists = search (advance_rules, L)
  after_create-Settles (Created.failed e) = fail_migration-Settles E L _

  follow_target-Settles :
      (l : Lookup Pod)
      → Settles E (Advances E L Phase.restoring) (Advances E L Phase.restoring) (follow_target E l)
  unfolding follow_target create_target
  follow_target-Settles (Lookup.found x) = await_target-Settles x
  follow_target-Settles Lookup.not_found =
      search (advance_rules, of_source-Settles, after_create-Settles) depth 12
  follow_target-Settles (Lookup.failed e) = search (advance_rules, L)

  pub handle_restoring-Settles :
      Settles E (Advances E L Phase.restoring) (Advances E L Phase.restoring) (handle_restoring E)
  unfolding handle_restoring
  handle_restoring-Settles =
      search (advance_rules, begin_phase-Settles, follow_target-Settles, L) depth 12

  note_or_fail-Settles :
      {p : Phase} (d now : ℕ) (x y : Bool) (t : Option ℕ)
      → Settles E (Advances E L p) (any E) (note_or_fail E d now x y t)
  unfolding note_or_fail
  note_or_fail-Settles d now true y t = search advance_rules
  note_or_fail-Settles d now false false t = search advance_rules
  note_or_fail-Settles d now false true t = fail_with-Settles E L _

  unbind_if_drain-Settles :
      {p : Phase} (b : Bool) (q ex : String)
      → Settles E (Advances E L p) (any E) (unbind_if_drain E b q ex)
  unfolding unbind_if_drain
  unbind_if_drain-Settles true q ex = search advance_rules depth 12
  unbind_if_drain-Settles false q ex = search advance_rules

  begin_replay-Settles : {p : Phase} → Settles E (Advances E L p) (any E) (begin_replay E)
  unfolding begin_replay
  begin_replay-Settles = search (advance_rules, unbind_if_drain-Settles, L) depth 15

  replay_drain_check-Settles :
      {p : Phase} (d : ℕ) → Settles E (Advances E L p) (Advances E L p) (replay_drain_check E d)
  unfolding replay_drain_check
  replay_drain_check-Settles d = search (advance_rules, note_or_fail-Settles, L) depth 15

  finish_replay-Settles :
      Settles E (Advances E L Phase.replaying) (Advances E L Phase.replaying) (finish_replay E)
  unfolding finish_replay
  finish_replay-Settles = search (advance_rules, L, end_phase-Settles) depth 15

  check_cutoff-Settles :
      Settles E (Advances E L Phase.replaying) (Advances E L Phase.replaying) (check_cutoff E)
  unfolding check_cutoff
  check_cutoff-Settles = search (advance_rules, L, end_phase-Settles) depth 15

  pub handle_replaying-Settles :
      Settles E (Advances E L Phase.replaying) (Advances E L Phase.replaying) (handle_replaying E)
  unfolding handle_replaying
  handle_replaying-Settles =
      search
        (
          advance_rules, begin_replay-Settles, replay_drain_check-Settles, finish_replay-Settles,
          check_cutoff-Settles, L,
        )
        depth 15
