-- ===== src/Controller/Swap/Cutover.antt =====
-- `handleSwapFenceCutover`: the end of the Exchange-Fence protocol.
use kubernetes_controller.Base.{
  ℕ, ◌+◌, String, ◌<>◌, Bool, true, false, Option, none, some, [], ◌∷◌, if◌then◌else◌,
}
use kubernetes_controller.Base.{ltb}
use kubernetes_controller.Base.Int.{pos, ltb_ℤ}
use kubernetes_controller.Messaging.{Result, ok, err, ControlMessageType}
use kubernetes_controller.Api.{StatefulMigration, SwapSubPhase, replay_queue, fence_buffer}
use kubernetes_controller.Cluster.{Pod, StatefulSet, Lookup, Env}
use kubernetes_controller.Controller.Monad.{
  Act, ◌>>=◌, ◌>>◌, pure, return_with, modify, migration, skip,
}
use kubernetes_controller.Controller.Calls.{
  time_now, get_pod, delete_pod, bind_queue, unbind_queue, get_queue_stats, send_control_message,
  patch_status, delete_secondary_queue, delete_queue, get_stateful_set, patch_stateful_set,
}
use kubernetes_controller.Controller.Helpers.{
  SwapReply, swap_error, swap_requeue_after, swap_done, second, timing, delete_timing, set_stamp,
  has, since, return_if_error,
}
use kubernetes_controller.Controller.Swap.Drain.{stall_timeout}

-- `sts.Spec.Replicas == nil || *sts.Spec.Replicas < n`
abbrev pub is_below : Option ℕ → ℕ → Bool
is_below none n = true
is_below (some k) n = ltb k n

-- The object after the swap: the replacement is the target, and the sub-phase is cleared.
abbrev pub swapped : StatefulMigration → StatefulMigration
swapped m = record m {
  status = record m.status {
    target_pod = m.status.replacement_pod;
    swap_sub_phase = SwapSubPhase.unset;
  };
}

abbrev total_or_zero : Result (ℕ × ℕ) → ℕ
total_or_zero (ok (ready, unacked)) = ready + unacked
total_or_zero (err e) = 0

module _ (E : Env) where
  -- The patch that sets the replica count, if the set has fewer; its error is logged.
  unfoldable pub scale_up : ℕ → StatefulSet → Act E.World SwapReply (Unit {0})
  scale_up n sts =
      if is_below sts.replicas n
      then (do patch_stateful_set E sts (record sts { replicas = some n }); skip)
      else skip

  -- Errors of the lookup are passed over.
  unfoldable pub scale_up_if_found : ℕ → Lookup StatefulSet → Act E.World SwapReply (Unit {0})
  unfolding scale_up
  scale_up_if_found n (Lookup.found sts) = scale_up n sts
  scale_up_if_found n _ = skip

  unfoldable pub delete_now : Lookup Pod → Act E.World SwapReply (Unit {0})
  delete_now (Lookup.found p) = do delete_pod E p (some 0); skip
  delete_now _ = skip

  -- The first time that the buffer is found to hold messages.
  unfoldable pub begin_buffer_drain : String → Act E.World SwapReply (Unit {0})
  begin_buffer_drain buffer = do
    m ← migration
    if has (timing "Swap.BufferDrain.start" m) then skip else (do
      send_control_message E m.status.replacement_pod ControlMessageType.start_replay
          (("queue", buffer) ∷ [])
      base ← migration
      now ← time_now E
      modify (set_stamp E "Swap.BufferDrain.start" now)
      patch_status E base
      skip)

  -- Whether to wait on: yes if there is no stamp, no if it cannot be read or is too old.
  still_draining : Option String → ℕ → Bool
  still_draining none now = true
  still_draining (some s) now = elim (E.parse_time s) [
    | none ↦ false
    | some t ↦ if ltb_ℤ (pos stall_timeout) (since (some t) now) then false else true
  ]

  unfoldable pub await_buffer : String → ℕ → Act E.World SwapReply (Unit {0})
  unfolding begin_buffer_drain still_draining
  await_buffer buffer total =
      if ltb 0 total
      then (do
        begin_buffer_drain buffer
        m ← migration
        now ← time_now E
        if still_draining (timing "Swap.BufferDrain.start" m) now
            then return_with (swap_requeue_after second)
            else skip)
      else skip

  -- Steps 2 and 3: the primary queue is bound again before the buffer is unbound.
  unfoldable pub restore_primary : String → String → Act E.World SwapReply (Unit {0})
  unfolding return_if_error
  restore_primary primary exchange = do
    e ← bind_queue E primary exchange
    return_if_error E e (λ x. swap_error ("rebind primary queue: " <> x))
    unbind_queue E (fence_buffer primary) exchange
    skip

  -- The buffer is drained or given up.
  unfoldable pub clean_up : String → String → Act E.World SwapReply SwapReply
  unfolding scale_up_if_found return_if_error
  clean_up primary exchange = do
    m ← migration
    send_control_message E m.status.replacement_pod ControlMessageType.end_replay []
    delete_secondary_queue E (replay_queue primary) primary exchange
    delete_queue E (fence_buffer primary)
    if ltb 0 m.status.original_replicas
        then (do
          sts ← get_stateful_set E m.namespace m.status.stateful_set_name
          scale_up_if_found m.status.original_replicas sts)
        else skip
    base ← migration
    modify (λ x. delete_timing "Swap.BufferDrain.start" (swapped x))
    e ← patch_status E base
    return_if_error E e swap_error
    pure swap_done

  -- Step 4, and the end: the buffer is drained before it goes.
  unfoldable pub drain_and_clean_up : String → String → Act E.World SwapReply SwapReply
  unfolding await_buffer clean_up
  drain_and_clean_up primary exchange = do
    stats ← get_queue_stats E (fence_buffer primary)
    await_buffer (fence_buffer primary) (total_or_zero stats)
    clean_up primary exchange

  unfoldable pub fence_cutover : Act E.World SwapReply SwapReply
  unfolding delete_now restore_primary drain_and_clean_up
  fence_cutover = do
    m ← migration
    let primary = m.spec.message_queue_config.queue_name
    let exchange = m.spec.message_queue_config.exchange_name
    shadow ← get_pod E m.namespace m.status.target_pod
    delete_now shadow
    restore_primary primary exchange
    drain_and_clean_up primary exchange
