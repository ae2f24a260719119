-- ===== src/Controller/Phases/Finalizing.antt =====
-- `handleFinalizing`: the end of the replay, the removal of the source or the identity swap, and the
-- completion. The swap's loop runs on fuel; `none` means that the fuel ran out.
use kubernetes_controller.Base.{
  ℕ, String, ◌==◌, Bool, not, Option, none, some, List, [], ◌∷◌, ◌||◌, ◌&&◌, ltb, nat_eq, suc,
  if◌then◌else◌,
}
use kubernetes_controller.Messaging.{ControlMessageType}
use kubernetes_controller.Api.{
  StatefulMigration, Phase, SwapSubPhase, replay_queue, is_sequential, is_shadow_pod, wants_swap,
}
use kubernetes_controller.Cluster.{
  Pod, StatefulSet, Deployment, NodeRequirement, OwnerReference, Lookup, Env,
}
use kubernetes_controller.Controller.Monad.{
  next, Act, ◌>>=◌, ◌>>◌, pure, return_with, modify, migration, skip,
}
use kubernetes_controller.Controller.Calls.{
  time_now, close, delete_secondary_queue, send_control_message, patch_status, get_pod,
  get_stateful_set, get_deployment, delete_pod, patch_pod, patch_stateful_set, patch_deployment,
}
use kubernetes_controller.Controller.Helpers.{
  Reply, SwapReply, stopped, error, timing, delete_timing, set_stamp, has, stamp, since,
  set_sub_phase, set_phase, return_if_error, record_phase_timing,
}
use kubernetes_controller.Controller.Swap.Cutover.{is_below}
use kubernetes_controller.Controller.Swap.Identity.{identity_swap}

-- The target node, as the one host on which the Deployment's pods may run.
abbrev node_requirement : String → NodeRequirement
node_requirement node = record {
  key = "kubernetes.io/hostname";
  operator = "In";
  values = node ∷ [];
}

-- The owners but for the migration.
unfoldable pub without_migration : List OwnerReference → List OwnerReference
without_migration [] = []
without_migration (r ∷ refs) =
    let rest = without_migration refs in if r.kind == "StatefulMigration" then rest else r ∷ rest

-- `len(refs)`
unfoldable pub length : List OwnerReference → ℕ
length [] = 0
length (r ∷ refs) = suc (length refs)

-- `len(filtered) != len(targetPod.OwnerReferences)`
unfoldable pub is_shorter : List OwnerReference → Bool
unfolding without_migration length
is_shorter refs = not (nat_eq (length (without_migration refs)) (length refs))

abbrev completed : StatefulMigration → StatefulMigration
completed m = set_sub_phase SwapSubPhase.unset (set_phase Phase.completed m)

module _ (E : Env) where
  abbrev Step : Type 0 → Type 0
  Step = Act E.World (Option Reply)

  unfoldable pub stamp_finalizing : Step (Unit {0})
  stamp_finalizing = do
    m ← migration
    if has (timing "Finalizing.start" m) then skip else (do
      now ← time_now E
      modify (set_stamp E "Finalizing.start" now)
      patch_status E m
      skip)

  -- Outside of a swap: END_REPLAY is sent, and the replay queue deleted. Errors are logged.
  unfoldable pub tear_down_replay : SwapSubPhase → Step (Unit {0})
  tear_down_replay SwapSubPhase.unset = do
    m ← migration
    let cfg = m.spec.message_queue_config
    send_control_message E m.status.target_pod ControlMessageType.end_replay []
    delete_secondary_queue E (replay_queue cfg.queue_name) cfg.queue_name cfg.exchange_name
    skip
  tear_down_replay _ = skip

  -- What the swap returned: an error and an unfinished swap end the handler.
  unfoldable pub after_swap : Option SwapReply → Step (Unit {0})
  after_swap none = return_with none
  after_swap (some r) =
      if has r.error || not r.done
      then return_with (some (record { result = r.result; error = r.error }))
      else skip

  unfoldable pub swap : ℕ → Step (Option SwapReply)
  swap fuel s = let (r, s') = identity_swap E fuel s in (next r, s')

  unfoldable pub delete_source : Lookup Pod → Step (Unit {0})
  delete_source (Lookup.found p) = do delete_pod E p none; skip
  delete_source Lookup.not_found = skip
  delete_source (Lookup.failed e) = return_with (some (error e))

  -- The source of a ShadowPod migration: it is swapped, or deleted.
  unfoldable pub retire_source : ℕ → Step (Unit {0})
  unfolding swap after_swap delete_source
  retire_source fuel = do
    m ← migration
    if is_shadow_pod m.spec.migration_strategy
        then (if not (m.status.stateful_set_name == "") && wants_swap m.spec.identity_swap_mode
            then (do r ← swap fuel; after_swap r)
            else (do p ← get_pod E m.namespace m.spec.source_pod; delete_source p))
        else skip

  unfoldable pub pin_deployment : Lookup Deployment → Step (Unit {0})
  pin_deployment (Lookup.found d) = do
    m ← migration
    patch_deployment E d (record d { node_affinity = some (node_requirement m.spec.target_node) })
    skip
  pin_deployment Lookup.not_found = skip
  pin_deployment (Lookup.failed e) = return_with (some (error e))

  unfoldable pub settle_deployment : Step (Unit {0})
  unfolding pin_deployment
  settle_deployment = do
    m ← migration
    if m.status.deployment_name == ""
        then skip
        else (do d ← get_deployment E m.namespace m.status.deployment_name; pin_deployment d)

  unfoldable pub disown : Lookup Pod → Step (Unit {0})
  unfolding without_migration is_shorter
  disown (Lookup.found p) =
      if is_shorter p.owner_references
      then (do
        patch_pod E p (record p { owner_references = without_migration p.owner_references })
        skip)
      else skip
  disown Lookup.not_found = skip
  disown (Lookup.failed e) = return_with (some (error e))

  unfoldable pub scale_back : Lookup StatefulSet → Step (Unit {0})
  scale_back (Lookup.found sts) = do
    m ← migration
    if is_below sts.replicas m.status.original_replicas
        then (do
          patch_stateful_set E sts (record sts { replicas = some m.status.original_replicas })
          skip)
        else skip
  scale_back Lookup.not_found = skip
  scale_back (Lookup.failed e) = return_with (some (error e))

  -- A Sequential migration hands its pod back to the StatefulSet.
  unfoldable pub hand_back : Step (Unit {0})
  unfolding disown scale_back
  hand_back = do
    m ← migration
    if is_sequential m.spec.migration_strategy
          && not (m.status.stateful_set_name == "")
          && ltb 0 m.status.original_replicas
        then (do
          if m.status.target_pod == ""
              then skip
              else (do p ← get_pod E m.namespace m.status.target_pod; disown p)
          sts ← get_stateful_set E m.namespace m.status.stateful_set_name
          scale_back sts)
        else skip

  unfoldable pub complete : StatefulMigration → Step (Option Reply)
  unfolding return_if_error record_phase_timing
  complete base = do
    close E
    m ← migration
    now ← time_now E
    let duration = since (stamp E "Finalizing.start" m) now
    modify (λ x. record_phase_timing E "Finalizing" duration (delete_timing "Finalizing.start" x))
    modify completed
    e ← patch_status E base
    return_if_error E e (λ x. some (error x))
    pure (some stopped)

  unfoldable pub handle_finalizing : ℕ → Step (Option Reply)
  unfolding stamp_finalizing tear_down_replay retire_source settle_deployment hand_back complete
  handle_finalizing fuel = do
    base ← migration
    stamp_finalizing
    m ← migration
    tear_down_replay m.status.swap_sub_phase
    retire_source fuel
    settle_deployment
    hand_back
    complete base
