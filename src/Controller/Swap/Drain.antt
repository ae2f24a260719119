-- ===== src/Controller/Swap/Drain.antt =====
-- `handleSwapParallelDrain`: the wait for the fenced queues, with its stall detection and time limit.
use kubernetes_controller.Base.{
  ℕ, ◌*◌, ◌+◌, String, ◌<>◌, ◌==◌, Bool, true, false, Option, none, some, if◌then◌else◌,
}
use kubernetes_controller.Base.{nat_eq}
use kubernetes_controller.Base.Int.{ℤ, pos, ltb_ℤ}
use kubernetes_controller.Api.{StatefulMigration, SwapSubPhase, replay_queue}
use kubernetes_controller.Cluster.{Env}
use kubernetes_controller.Controller.Monad.{
  Act, ◌>>=◌, ◌>>◌, pure, return_with, invoke, modify, migration, skip,
}
use kubernetes_controller.Controller.Calls.{time_now, get_queue_stats, patch_status}
use kubernetes_controller.Controller.Helpers.{
  SwapReply, swap_error, swap_requeue_after, second, timing, set_timing, delete_timing, set_stamp,
  set_sub_phase, stamp, since, or_return, advance,
}
use kubernetes_controller.Controller.Swap.Rollback.{fence_rollback}

abbrev pub stall_timeout : ℕ
stall_timeout = 30 * second

abbrev drain_max_timeout : ℕ
drain_max_timeout = 120 * second

abbrev drained : StatefulMigration → StatefulMigration
drained m = set_sub_phase SwapSubPhase.fence_cutover (
    delete_timing "Swap.Fence.swapDepth"
      (delete_timing "Swap.Fence.primaryDepth" (delete_timing "Swap.Fence.time" m)))

abbrev last_depth_key : String
last_depth_key = "Swap.ParallelDrain.lastDepth"

abbrev last_check_key : String
last_check_key = "Swap.ParallelDrain.lastCheck"

abbrev forget_progress : StatefulMigration → StatefulMigration
forget_progress m = delete_timing last_check_key (delete_timing last_depth_key m)

-- What the recorded depths say of the current ones.
pub data Progress : Type 0 where
  -- there is no record, or it is of other depths
  moved : Progress
  -- the same depths as at the last check, not yet for too long or with an unreadable stamp
  waiting : Progress
  stalled : Progress

-- The stamp of the last check against the time.
abbrev waiting_since : Option ℕ → ℕ → Progress
waiting_since none now = waiting
waiting_since (some t) now =
    if ltb_ℤ (pos stall_timeout) (since (some t) now) then stalled else waiting

unfoldable pub progress : Option String → String → Option ℕ → ℕ → Progress
progress none current last_check now = moved
progress (some last) current last_check now =
    if last == current then waiting_since last_check now else moved

module _ (E : Env) where
  abbrev note_progress : String → ℕ → StatefulMigration → StatefulMigration
  note_progress current now m = set_stamp E last_check_key now (set_timing last_depth_key current m)

  -- What follows from the progress: a stall is rolled back, and ends the handler.
  unfoldable pub follow : Progress → String → Act E.World SwapReply (Unit {0})
  follow moved current = do
    base ← migration
    now ← time_now E
    modify (note_progress current now)
    patch_status E base
    skip
  follow waiting current = skip
  follow stalled current = do modify forget_progress; r ← invoke (fence_rollback E); return_with r

  unfoldable pub finish_drain : Act E.World SwapReply SwapReply
  unfolding advance
  finish_drain = do base ← migration; modify drained; advance E base

  -- The time limit, by the time since the fence that was read before.
  unfoldable pub limit_drain : Bool → Act E.World SwapReply SwapReply
  limit_drain true = fence_rollback E
  limit_drain false = pure (swap_requeue_after (2 * second))

  unfoldable pub await_drain : ℕ → ℕ → ℤ → Act E.World SwapReply SwapReply
  unfolding follow limit_drain progress
  await_drain primary_total swap_total elapsed = do
    let current = E.format_int primary_total <> "," <> E.format_int swap_total
    m ← migration
    now ← time_now E
    follow (progress (timing last_depth_key m) current (stamp E last_check_key m) now) current
    limit_drain (ltb_ℤ (pos drain_max_timeout) elapsed)

  unfoldable pub parallel_drain : Act E.World SwapReply SwapReply
  unfolding or_return finish_drain await_drain
  parallel_drain = do
    m ← migration
    let primary = m.spec.message_queue_config.queue_name
    r1 ← get_queue_stats E primary
    primary_stats ← or_return E r1 (λ e. swap_error ("get primary queue stats: " <> e))
    r2 ← get_queue_stats E (replay_queue primary)
    swap_stats ← or_return E r2 (λ e. swap_error ("get swap queue stats: " <> e))
    now ← time_now E
    let primary_total = primary_stats.0 + primary_stats.1
    let swap_total = swap_stats.0 + swap_stats.1
    if nat_eq swap_total 0
        then finish_drain
        else await_drain primary_total swap_total (since (stamp E "Swap.Fence.time" m) now)
