-- ===== src/Controller/Swap/PreFence.antt =====
-- `handleSwapPreFenceDrain`: the observation of the swap queue, and the choice between the fence and
-- the cutoff.
use kubernetes_controller.Base.{
  ℕ, ◌*◌, String, ◌<>◌, Bool, true, false, not, Option, none, some, [], ◌∷◌, if◌then◌else◌,
}
use kubernetes_controller.Base.{ltb}
use kubernetes_controller.Base.Int.{ℤ, pos, ltb_ℤ, sub_ℕ}
use kubernetes_controller.Messaging.{Result, ok, err, ControlMessageType}
use kubernetes_controller.Api.{StatefulMigration, MessageQueueConfig, SwapSubPhase, replay_queue}
use kubernetes_controller.Cluster.{Env, Float64}
use kubernetes_controller.Controller.Monad.{Act, ◌>>=◌, ◌>>◌, pure, modify, migration, skip}
use kubernetes_controller.Controller.Calls.{
  time_now, unbind_queue, get_queue_depth, send_control_message, patch_status,
}
use kubernetes_controller.Controller.Helpers.{
  SwapReply, swap_error, swap_requeue_after, second, timing, set_timing, delete_timing, set_stamp,
  has, stamp, since, and_then, set_sub_phase, or_return, return_if_error, advance,
}

abbrev observation_window : ℕ
observation_window = 3 * second

-- seconds
abbrev fence_time_threshold : ℕ
fence_time_threshold = 60

abbrev pub max_depth : ℕ → ℕ → ℕ
max_depth primary current = if ltb primary current then current else primary

-- The adaptive decision, on the depth of the swap queue at the start and now, the depth of the
-- primary queue, and the time between in nanoseconds.
unfoldable pub use_fence : Float64 → ℕ → ℕ → ℕ → ℤ → Bool
use_fence F initial current primary elapsed =
    let elapsed_sec = F.seconds elapsed in
    let net_drain_rate = F.div (F.of_int (sub_ℕ initial current)) elapsed_sec in
    let estimated = F.div (F.of_int (pos (max_depth primary current))) net_drain_rate in
    if F.lt (F.of_int (pos 0)) elapsed_sec
    then if F.le net_drain_rate (F.of_int (pos 0))
      then false
      else if ltb 0 (max_depth primary current)
      then not (F.lt (F.of_int (pos fence_time_threshold)) estimated)
      else true
    else true

abbrev value_or_zero : Option ℕ → ℕ
value_or_zero none = 0
value_or_zero (some n) = n

abbrev ok_or_zero : Result ℕ → ℕ
ok_or_zero (ok n) = n
ok_or_zero (err e) = 0

abbrev observed : StatefulMigration → StatefulMigration
observed m = delete_timing "Swap.PreFence.initialDepth" (delete_timing "Swap.PreFence.start" m)

module _ (E : Env) where
  abbrev begun : ℕ → ℕ → StatefulMigration → StatefulMigration
  begun now depth m =
      set_timing "Swap.PreFence.initialDepth" (E.format_int depth)
        (set_stamp E "Swap.PreFence.start" now m)

  unfoldable pub begin_pre_fence : String → Act E.World SwapReply (Unit {0})
  unfolding or_return return_if_error
  begin_pre_fence swap = do
    r ← get_queue_depth E swap
    depth ← or_return E r (λ e. swap_error ("get initial swap depth: " <> e))
    m ← migration
    x ←
        send_control_message E m.status.replacement_pod ControlMessageType.start_replay
          (("queue", swap) ∷ [])
    return_if_error E x (λ e. swap_error ("send START_REPLAY for pre-fence: " <> e))
    base ← migration
    now ← time_now E
    modify (begun now depth)
    patch_status E base
    skip

  -- The sub-phase that the decision leads to. For the cutoff the swap queue is unbound, and the
  -- stamp of MiniReplay is set so that it does not begin anew.
  unfoldable pub choose : Bool → MessageQueueConfig → Act E.World SwapReply (Unit {0})
  choose true cfg = modify (set_sub_phase SwapSubPhase.exchange_fence)
  choose false cfg = do
    unbind_queue E (replay_queue cfg.queue_name) cfg.exchange_name
    now ← time_now E
    modify (λ m. set_sub_phase SwapSubPhase.mini_replay (set_stamp E "Swap.MiniReplay.start" now m))

  unfoldable pub decide : ℕ → ℤ → MessageQueueConfig → Act E.World SwapReply SwapReply
  unfolding choose use_fence advance
  decide current elapsed cfg = do
    m ← migration
    let initial = value_or_zero (and_then (timing "Swap.PreFence.initialDepth" m) E.scan_int)
    primary ← get_queue_depth E cfg.queue_name
    base ← migration
    modify observed
    choose (use_fence E.float initial current (ok_or_zero primary) elapsed) cfg
    advance E base

  unfoldable pub pre_fence_drain : Act E.World SwapReply SwapReply
  unfolding begin_pre_fence or_return decide
  pre_fence_drain = do
    m ← migration
    let cfg = m.spec.message_queue_config
    let swap = replay_queue cfg.queue_name
    if has (timing "Swap.PreFence.start" m) then skip else begin_pre_fence swap
    r ← get_queue_depth E swap
    current ← or_return E r (λ e. swap_error ("get swap queue depth for pre-fence: " <> e))
    now ← time_now E
    m' ← migration
    let elapsed = since (stamp E "Swap.PreFence.start" m') now
    if ltb_ℤ elapsed (pos observation_window)
        then pure (swap_requeue_after second)
        else decide current elapsed cfg
