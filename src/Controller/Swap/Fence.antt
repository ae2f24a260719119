-- ===== src/Controller/Swap/Fence.antt =====
-- `handleSwapExchangeFence`: the change of the topology by which the queues that are being drained
-- stop receiving messages, while a buffer queue catches what is published.
use kubernetes_controller.Base.{ℕ, ◌<>◌, if◌then◌else◌}
use kubernetes_controller.Api.{
  StatefulMigration, MessageQueueConfig, SwapSubPhase, replay_queue, fence_buffer,
}
use kubernetes_controller.Cluster.{Env}
use kubernetes_controller.Controller.Monad.{Act, ◌>>=◌, ◌>>◌, modify, migration}
use kubernetes_controller.Controller.Calls.{
  time_now, get_queue_depth, declare_and_bind_queue, unbind_queue,
}
use kubernetes_controller.Controller.Helpers.{
  SwapReply, swap_error, timing, set_timing, set_stamp, has, set_sub_phase, or_return,
  return_if_error, advance,
}

module _ (E : Env) where
  -- The fence was applied before the controller was restarted.
  already_fenced : Act E.World SwapReply SwapReply
  unfolding advance
  already_fenced = do
    base ← migration
    modify (set_sub_phase SwapSubPhase.parallel_drain)
    advance E base

  -- The fence and the depths before it, as they are recorded.
  abbrev fenced : ℕ → ℕ → ℕ → StatefulMigration → StatefulMigration
  fenced now primary_depth swap_depth m = set_sub_phase SwapSubPhase.parallel_drain (
      set_timing "Swap.Fence.swapDepth" (E.format_int swap_depth) (
        set_timing "Swap.Fence.primaryDepth" (E.format_int primary_depth)
          (set_stamp E "Swap.Fence.time" now m)))

  -- The three changes of the topology, the first of them before the others.
  unfoldable pub apply_fence : MessageQueueConfig → Act E.World SwapReply (Unit {0})
  unfolding return_if_error
  apply_fence cfg = do
    let primary = cfg.queue_name
    let exchange = cfg.exchange_name
    e1 ← declare_and_bind_queue E (fence_buffer primary) exchange
    return_if_error E e1 (λ e. swap_error ("create buffer queue: " <> e))
    e2 ← unbind_queue E primary exchange
    return_if_error E e2 (λ e. swap_error ("unbind primary queue for fence: " <> e))
    e3 ← unbind_queue E (replay_queue primary) exchange
    return_if_error E e3 (λ e. swap_error ("unbind swap queue for fence: " <> e))

  fence_now : MessageQueueConfig → Act E.World SwapReply SwapReply
  unfolding or_return apply_fence advance
  fence_now cfg = do
    let primary = cfg.queue_name
    r1 ← get_queue_depth E primary
    primary_depth ← or_return E r1 (λ e. swap_error ("get primary depth before fence: " <> e))
    r2 ← get_queue_depth E (replay_queue primary)
    swap_depth ← or_return E r2 (λ e. swap_error ("get swap depth before fence: " <> e))
    apply_fence cfg
    base ← migration
    now ← time_now E
    modify (fenced now primary_depth swap_depth)
    advance E base

  unfoldable pub exchange_fence : Act E.World SwapReply SwapReply
  unfolding already_fenced fence_now
  exchange_fence = do
    m ← migration
    if has (timing "Swap.Fence.time" m)
        then already_fenced
        else fence_now m.spec.message_queue_config
