-- ===== src/Controller/Swap/Rollback.antt =====
-- `handleSwapFenceRollback`: what follows a parallel drain that stalled or took too long.
use kubernetes_controller.Base.{ℕ, String}
use kubernetes_controller.Api.{StatefulMigration, SwapSubPhase, replay_queue, fence_buffer}
use kubernetes_controller.Cluster.{Env}
use kubernetes_controller.Controller.Monad.{Act, ◌>>=◌, ◌>>◌, modify, migration, skip}
use kubernetes_controller.Controller.Calls.{
  time_now, get_queue_depth, bind_queue, unbind_queue, delete_queue,
}
use kubernetes_controller.Controller.Helpers.{
  SwapReply, delete_timing, set_stamp, set_sub_phase, advance,
}

module _ (E : Env) where
  abbrev forget_fence : StatefulMigration → StatefulMigration
  forget_fence m = delete_timing "Swap.ParallelDrain.lastCheck" (
      delete_timing "Swap.ParallelDrain.lastDepth" (
        delete_timing "Swap.Fence.swapDepth"
          (delete_timing "Swap.Fence.primaryDepth" (delete_timing "Swap.Fence.time" m))))

  abbrev rolled_back : ℕ → StatefulMigration → StatefulMigration
  rolled_back now m =
      set_sub_phase SwapSubPhase.mini_replay
        (set_stamp E "Swap.MiniReplay.start" now (forget_fence m))

  -- The calls of the broker. Each error is logged and passed over.
  unfoldable pub restore_routing : String → String → Act E.World SwapReply (Unit {0})
  restore_routing primary exchange = do
    bind_queue E primary exchange
    bind_queue E (replay_queue primary) exchange
    get_queue_depth E (fence_buffer primary)
    unbind_queue E (fence_buffer primary) exchange
    delete_queue E (fence_buffer primary)
    skip

  unfoldable pub fence_rollback : Act E.World SwapReply SwapReply
  unfolding restore_routing advance
  fence_rollback = do
    m ← migration
    restore_routing m.spec.message_queue_config.queue_name m.spec.message_queue_config.exchange_name
    base ← migration
    now ← time_now E
    modify (rolled_back now)
    advance E base
