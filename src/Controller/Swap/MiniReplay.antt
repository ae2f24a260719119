-- ===== src/Controller/Swap/MiniReplay.antt =====
-- `handleSwapMiniReplay`: the drain of the unbound swap queue, cut off after fifteen seconds.
use kubernetes_controller.Base.{ℕ, ◌*◌, String, ◌<>◌, [], ◌∷◌, ◌||◌, if◌then◌else◌}
use kubernetes_controller.Base.{nat_eq}
use kubernetes_controller.Base.Int.{pos, ltb_ℤ}
use kubernetes_controller.Messaging.{ControlMessageType}
use kubernetes_controller.Api.{StatefulMigration, SwapSubPhase, replay_queue}
use kubernetes_controller.Cluster.{Env}
use kubernetes_controller.Controller.Monad.{Act, ◌>>=◌, ◌>>◌, pure, modify, migration, skip}
use kubernetes_controller.Controller.Calls.{
  time_now, unbind_queue, get_queue_depth, send_control_message, patch_status,
}
use kubernetes_controller.Controller.Helpers.{
  SwapReply, swap_error, swap_requeue_after, second, timing, delete_timing, set_stamp, has, stamp,
  since, set_sub_phase, or_return, return_if_error, advance,
}

abbrev mini_replay_cutoff : ℕ
mini_replay_cutoff = 15 * second

abbrev replayed : StatefulMigration → StatefulMigration
replayed m = set_sub_phase SwapSubPhase.traffic_switch (delete_timing "Swap.MiniReplay.start" m)

module _ (E : Env) where
  -- The first entry: the queue is unbound, and the replacement told to replay it.
  unfoldable pub begin_mini_replay : String → String → Act E.World SwapReply (Unit {0})
  unfolding return_if_error
  begin_mini_replay swap exchange = do
    unbind_queue E swap exchange
    base ← migration
    now ← time_now E
    modify (set_stamp E "Swap.MiniReplay.start" now)
    e ←
        send_control_message E base.status.replacement_pod ControlMessageType.start_replay
          (("queue", swap) ∷ [])
    return_if_error E e (λ x. swap_error ("send START_REPLAY to replacement: " <> x))
    patch_status E base
    skip

  unfoldable pub mini_replay : Act E.World SwapReply SwapReply
  unfolding begin_mini_replay or_return advance
  mini_replay = do
    m ← migration
    let swap = replay_queue m.spec.message_queue_config.queue_name
    if has (timing "Swap.MiniReplay.start" m)
        then skip
        else begin_mini_replay swap m.spec.message_queue_config.exchange_name
    r ← get_queue_depth E swap
    depth ← or_return E r (λ e. swap_error ("get swap queue depth: " <> e))
    base ← migration
    now ← time_now E
    let elapsed = since (stamp E "Swap.MiniReplay.start" base) now
    if nat_eq depth 0 || ltb_ℤ (pos mini_replay_cutoff) elapsed
        then (do modify replayed; advance E base)
        else pure (swap_requeue_after second)
