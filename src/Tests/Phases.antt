-- ===== src/Tests/Phases.antt =====
-- The order of the phases, and what moves a migration on, at a replay that has ended.
use kubernetes_controller.Base.{
  ◌≡◌, refl, ◌⊎◌, inl, ◌*◌, ◌<◌, ℕ, true, false, none, some, [], ◌∷◌, arith,
}
use kubernetes_controller.Base.Dict.{Dict, lookup}
use kubernetes_controller.Api.{StatefulMigration, Phase, SwapSubPhase, is_drain}
use kubernetes_controller.Messaging.{ok}
use kubernetes_controller.Messaging.Mock.{new_mock_broker_client}
use kubernetes_controller.Messaging.Mock
use kubernetes_controller.Cluster.{Pod, PodPhase, Lookup, is_running}
use kubernetes_controller.Controller.Monad.{St, ◌>>=◌, migration, modify, skip}
use kubernetes_controller.Controller.Calls.{get_queue_depth, time_now, patch_status, get_pod}
use kubernetes_controller.Controller.Phases.Transferring.{begin_phase, end_phase}
use kubernetes_controller.Controller.Helpers.{
  Reply, second, stamp, transition_phase, record_phase_timing, return_if_error, or_fail,
}
use kubernetes_controller.Controller.Reconcile.{handle, phase_loop}
use kubernetes_controller.Controller.Phases.Replaying.{
  handle_replaying, finish_replay, cutoff_reached,
}
use kubernetes_controller.Controller.Phases.Restoring.{
  handle_restoring, follow_target, await_target, target_runs, is_ours,
}
use kubernetes_controller.Controller.PhaseOrder.{InOrder, Within}
use kubernetes_controller.Controller.PhaseOrder.SubPhases
use kubernetes_controller.Controller.PhaseOrder.SubPhases.{AtMostOneStep, swap_step_moves}
use kubernetes_controller.Controller.PhaseOrder.Loop.{handle-InOrder}
use kubernetes_controller.Controller.PhaseOrder.Forward.{
  rank, NotBefore, Forward, phase_loop-Forward,
}
use kubernetes_controller.Controller.Settling.Finalizing.{RunsOut}
use kubernetes_controller.Controller.Settling.Loop.{phase_loop_returns}
use kubernetes_controller.Controller.Gates.{handle_replaying_gate, handle_restoring_gate}
use kubernetes_controller.Controller.Swap.Identity.{swap_step, identity_swap}
use kubernetes_controller.Controller.Livelock.{AnswersEmpty, identity_swap_livelock}
use kubernetes_controller.Tests.World.{
  TestWorld, test_env, test_kubelet, sole_writer, test_migration, test_world,
}

abbrev state_of : StatefulMigration → Dict ℕ → St TestWorld
state_of m queues = record { m = m; world = test_world (10 * second) queues m; calls = [] }

-- A replay that has begun, with an empty queue.
abbrev replayed : St TestWorld
replayed =
    state_of (test_migration Phase.replaying SwapSubPhase.unset (("Replaying.start", "0s") ∷ []))
      (("orders.ms2m-replay", 0) ∷ [])

handle-InOrder_example :
    InOrder sole_writer
      (λ v. NotBefore Phase.replaying v.phase)
      Phase.replaying
      (handle (test_env none) 5 Phase.replaying replayed).1
unfolding sole_writer
handle-InOrder_example =
    handle-InOrder (test_env none) sole_writer {Q = λ v. NotBefore Phase.replaying v.phase} 5
      Phase.replaying replayed (record { holds = inl refl; stores = inl refl; writes = tt })

phase_loop-Forward_example :
    Forward (test_env none) sole_writer Phase.replaying (phase_loop (test_env none) 8 5 replayed).1
unfolding rank sole_writer
phase_loop-Forward_example =
    phase_loop-Forward (test_env none) sole_writer Phase.replaying 8 5 replayed refl
      (record { stores = omega arith; writes = tt })

phase_loop_returns_example :
    let (r, t) = phase_loop (test_env none) 9 5 replayed in
    ((x : Reply) × (r ≡ some x)) ⊎ (r ≡ none) × RunsOut (test_env none) 5 t
unfolding rank sole_writer
phase_loop_returns_example =
    phase_loop_returns (test_env none) sole_writer 9 5 replayed refl (omega arith)

handle_replaying_gate_example :
    let m = replayed.m in
    ((Mock.get_queue_depth "orders.ms2m-replay" replayed.world.broker).0 ≡ ok 0)
    ⊎ (is_drain m.spec.replay_mode ≡ false)
      × (cutoff_reached
            (test_env none)
            m.spec.replay_cutoff_seconds
            (stamp (test_env none) "Replaying.start" m)
            (10 * second)
          ≡ true)
unfolding lookup handle_replaying finish_replay end_phase transition_phase record_phase_timing
    return_if_error or_fail ◌>>=◌ migration modify skip get_queue_depth time_now patch_status
    Mock.get_queue_depth new_mock_broker_client
handle_replaying_gate_example = handle_replaying_gate (test_env none) replayed refl refl refl refl

abbrev shadow : Pod
shadow = record {
  name = "consumer-0-shadow";
  namespace = "shop";
  labels = ("migration.ms2m.io/migration", "move") ∷ ("app", "consumer") ∷ [];
  annotations = [];
  owner_references = [];
  deleting = false;
  phase = PodPhase.running;
  node_name = "node-b";
  pod_ip = "10.0.0.7";
  containers = [];
}

abbrev restoring : St TestWorld
restoring =
    let s =
      state_of (test_migration Phase.restoring SwapSubPhase.unset (("Restoring.start", "0s") ∷ []))
        [] in
    record s { world = record s.world { pods = ("consumer-0-shadow", shadow) ∷ [] } }

handle_restoring_gate_example :
    (p : Pod) × ((test_env none).get_pod "shop" "consumer-0-shadow" restoring.world).0
      ≡ Lookup.found p
    × (is_ours restoring.m p ≡ true)
    × (p.deleting ≡ false)
    × (is_running p.phase ≡ true)
unfolding lookup handle_restoring begin_phase follow_target await_target target_runs end_phase
    transition_phase record_phase_timing return_if_error ◌>>=◌ migration modify skip time_now
    patch_status get_pod
handle_restoring_gate_example = handle_restoring_gate (test_env none) restoring refl refl refl refl

abbrev swapping : St TestWorld
swapping = state_of (test_migration Phase.finalizing SwapSubPhase.re_checkpoint []) []

no_archive : AnswersEmpty (test_env (some (test_kubelet []))) (test_kubelet []) (λ w. w.migration)
no_archive = record {
  kubelet = refl;
  empty = λ node ns pod c w. refl;
  checkpoint_leaves = λ node ns pod c w. refl;
  get_reads = λ ns n w. refl;
  get_leaves = λ ns n w. refl;
}

-- The kubelet answers with no archive, and a thousand rounds are not enough.
identity_swap_livelock_example :
    (identity_swap (test_env (some (test_kubelet []))) 1000 swapping).0 ≡ none
identity_swap_livelock_example =
    identity_swap_livelock (test_env (some (test_kubelet []))) (test_kubelet []) (λ w. w.migration)
      no_archive 1000 swapping refl refl

-- The round that begins a fence.
abbrev at_fence : St TestWorld
at_fence = state_of (test_migration Phase.finalizing SwapSubPhase.exchange_fence []) []

swap_step_moves_example :
    let s' = (swap_step (test_env none) SwapSubPhase.exchange_fence at_fence).1 in
    let y = s'.m.status.swap_sub_phase in
    Within sole_writer (AtMostOneStep SwapSubPhase.exchange_fence) (λ v. ⊥) s'
    × ((y ≡ SwapSubPhase.exchange_fence)
        ⊎ (y ≡ SwapSubPhase.unset)
        ⊎ (SubPhases.rank SwapSubPhase.exchange_fence < SubPhases.rank y))
unfolding sole_writer
swap_step_moves_example =
    swap_step_moves (test_env none) sole_writer {Q = λ v. ⊥} SwapSubPhase.exchange_fence at_fence
      (record { holds = inl refl; stores = inl refl; writes = tt })
