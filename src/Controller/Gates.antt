-- ===== src/Controller/Gates.antt =====
-- What must hold for a handler to move its migration on.
use kubernetes_controller.Base.{◌≡◌, refl, ◌⊎◌, Bool, true, false, ◌||◌, List, [], ◌∷◌, arith}
use kubernetes_controller.Api.{Phase, replay_queue, is_drain}
use kubernetes_controller.Messaging.{ok}
use kubernetes_controller.Cluster.{Env, Pod, Lookup, is_running}
use kubernetes_controller.Controller.Monad.{Call, St, ◌>>=◌, run, invoke, migration, modify, skip}
use kubernetes_controller.Controller.Calls.{
  get_queue_depth, time_now, patch_status, get_stateful_set, patch_stateful_set, create_pod,
  get_pod,
}
use kubernetes_controller.Controller.Helpers.{
  has, timing, stamp, return_if_error, or_fail, fail_with, fail_migration, transition_phase,
  polling_backoff, fail_if_error, record_phase_timing,
}
use kubernetes_controller.Controller.Phases.Transferring.{begin_phase, end_phase}
use kubernetes_controller.Controller.Phases.Replaying.{
  cutoff_reached, handle_replaying, finish_replay, check_cutoff, replay_drain_check, note_or_fail,
}
use kubernetes_controller.Controller.Phases.Restoring.{
  is_ours, follow_target, await_target, await_scale_down, scale_found, scale_to_zero, target_runs,
  create_target, after_create, of_source, target_pod_name, handle_restoring,
}

abbrev pub is_replaying : Phase → Bool
is_replaying Phase.replaying = true
is_replaying _ = false

abbrev pub is_finalizing : Phase → Bool
is_finalizing Phase.finalizing = true
is_finalizing _ = false

abbrev written : (Phase → Bool) → Call → Bool
written of (Call.patch_status base m done) = of m.status.phase
written of _ = false

-- Some call writes a status with such a phase, with or without success.
abbrev pub writes : (Phase → Bool) → List Call → Bool
writes of [] = false
writes of (c ∷ calls) = written of c || writes of calls

module _ (E : Env) where
  -- A replay that has begun writes the phase Finalizing, or asks for a requeue without a delay, with
  -- which the reconciler goes on at once, only if the replay queue is read to be empty, or in the
  -- Cutoff mode when the cutoff is reached.
  pub handle_replaying_gate :
      (s : St E.World)
      → has (timing "Replaying.start" s.m) ≡ true
      → is_finalizing s.m.status.phase ≡ false
      → writes is_finalizing s.calls ≡ false
      → let (r, s') = run (handle_replaying E) s in
        (r.result.requeue || writes is_finalizing s'.calls) ≡ true
        → let (depth, w) =
            E.broker.get_queue_depth
              (replay_queue s.m.spec.message_queue_config.queue_name)
              s.world in
          (depth ≡ ok 0)
          ⊎ (is_drain s.m.spec.replay_mode ≡ false)
            × (cutoff_reached E s.m.spec.replay_cutoff_seconds
                  (stamp E "Replaying.start" s.m)
                  (E.now w)
                ≡ true)
  unfolding handle_replaying finish_replay check_cutoff replay_drain_check note_or_fail end_phase
      ◌>>=◌ migration modify skip invoke get_queue_depth time_now patch_status or_fail fail_with
      fail_migration transition_phase polling_backoff return_if_error record_phase_timing
  handle_replaying_gate s begun other before moved = ground (arith, begun, other, before, moved)

  -- Where the target pod is followed, the phase Replaying is written, or a requeue without a delay is
  -- asked for, only if that pod was found, is this migration's, is not being deleted and runs.
  follow_target_gate :
      (l : Lookup Pod) (s : St E.World)
      → is_replaying s.m.status.phase ≡ false
      → writes is_replaying s.calls ≡ false
      → let (r, s') = run (follow_target E l) s in
        (r.result.requeue || writes is_replaying s'.calls) ≡ true
        → (p : Pod) × (l ≡ Lookup.found p)
          × (is_ours s.m p ≡ true)
          × (p.deleting ≡ false)
          × (is_running p.phase ≡ true)
  unfolding follow_target await_target await_scale_down scale_found scale_to_zero target_runs
      create_target after_create of_source ◌>>=◌ migration modify skip invoke get_stateful_set
      patch_stateful_set create_pod get_pod time_now patch_status fail_if_error fail_with
      fail_migration transition_phase polling_backoff return_if_error record_phase_timing
  follow_target_gate (Lookup.found p) s other before moved = (
    p,
    refl,
    ground (arith, other, before, moved),
    ground (arith, other, before, moved),
    ground (arith, other, before, moved),
  )
  follow_target_gate Lookup.not_found s other before moved =
      absurd (ground (arith, other, before, moved))
  follow_target_gate (Lookup.failed e) s other before moved =
      absurd (ground (arith, other, before, moved))

  -- A restore that has begun writes the phase Replaying, or asks for a requeue without a delay, with
  -- which the reconciler goes on at once, only if a pod of the target's name is found, which carries
  -- the migration's label, is not being deleted, and runs.
  pub handle_restoring_gate :
      (s : St E.World)
      → has (timing "Restoring.start" s.m) ≡ true
      → is_replaying s.m.status.phase ≡ false
      → writes is_replaying s.calls ≡ false
      → let (r, s') = run (handle_restoring E) s in
        (r.result.requeue || writes is_replaying s'.calls) ≡ true
        → (p : Pod) × ((E.get_pod s.m.namespace (target_pod_name s.m) s.world).0 ≡ Lookup.found p)
          × (is_ours s.m p ≡ true)
          × (p.deleting ≡ false)
          × (is_running p.phase ≡ true)
  unfolding handle_restoring begin_phase ◌>>=◌ migration skip get_pod
  handle_restoring_gate s begun other before moved =
      let (l, w) = E.get_pod s.m.namespace (target_pod_name s.m) s.world in
      follow_target_gate l (record s { world = w }) other before (rw begun at moved)
