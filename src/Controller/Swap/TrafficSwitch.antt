-- ===== src/Controller/Swap/TrafficSwitch.antt =====
-- `handleSwapTrafficSwitch`: the end of the Cutoff swap.
use kubernetes_controller.Base.{ℕ, some, [], if◌then◌else◌}
use kubernetes_controller.Base.{ltb}
use kubernetes_controller.Messaging.{ControlMessageType}
use kubernetes_controller.Api.{replay_queue}
use kubernetes_controller.Cluster.{Pod, StatefulSet, Lookup, Env}
use kubernetes_controller.Controller.Monad.{
  Act, ◌>>=◌, ◌>>◌, pure, return_with, modify, migration, skip,
}
use kubernetes_controller.Controller.Calls.{
  get_pod, delete_pod, send_control_message, patch_status, delete_secondary_queue, get_stateful_set,
}
use kubernetes_controller.Controller.Helpers.{SwapReply, swap_error, swap_done, return_if_error}
use kubernetes_controller.Controller.Swap.Cutover.{scale_up, swapped}

module _ (E : Env) where
  -- The shadow pod is deleted if it is there; its absence is no error.
  unfoldable pub delete_shadow : Lookup Pod → Act E.World SwapReply (Unit {0})
  delete_shadow (Lookup.found p) = do delete_pod E p (some 0); skip
  delete_shadow Lookup.not_found = skip
  delete_shadow (Lookup.failed e) = return_with (swap_error e)

  unfoldable pub scale_up_for_adoption : ℕ → Lookup StatefulSet → Act E.World SwapReply (Unit {0})
  unfolding scale_up
  scale_up_for_adoption n (Lookup.found sts) = scale_up E n sts
  scale_up_for_adoption n Lookup.not_found = skip
  scale_up_for_adoption n (Lookup.failed e) = return_with (swap_error e)

  unfoldable pub traffic_switch : Act E.World SwapReply SwapReply
  unfolding delete_shadow scale_up_for_adoption return_if_error
  traffic_switch = do
    m ← migration
    let cfg = m.spec.message_queue_config
    send_control_message E m.status.replacement_pod ControlMessageType.end_replay []
    delete_secondary_queue E (replay_queue cfg.queue_name) cfg.queue_name cfg.exchange_name
    shadow ← get_pod E m.namespace m.status.target_pod
    delete_shadow shadow
    if ltb 0 m.status.original_replicas
        then (do
          sts ← get_stateful_set E m.namespace m.status.stateful_set_name
          scale_up_for_adoption m.status.original_replicas sts)
        else skip
    base ← migration
    modify swapped
    e ← patch_status E base
    return_if_error E e swap_error
    pure swap_done
