-- ===== src/Controller/Phases/Replaying.antt =====
-- `handleReplaying` and `replayDrainCheck`: the replay of the secondary queue, by Cutoff or Drain.
use kubernetes_controller.Base.{
  ℕ, ◌*◌, String, ◌<>◌, ◌==◌, Bool, true, false, Option, none, some, [], ◌∷◌, ◌||◌, ◌&&◌, ltb,
  nat_eq, if◌then◌else◌,
}
use kubernetes_controller.Base.Int.{ℤ, pos, sub_ℕ, ltb_ℤ, pos_part}
use kubernetes_controller.Messaging.{ControlMessageType}
use kubernetes_controller.Api.{StatefulMigration, Phase, replay_queue, is_drain}
use kubernetes_controller.Cluster.{Env}
use kubernetes_controller.Controller.Monad.{Act, ◌>>=◌, ◌>>◌, pure, modify, migration, skip}
use kubernetes_controller.Controller.Calls.{
  time_now, unbind_queue, get_queue_depth, send_control_message, patch_status,
}
use kubernetes_controller.Controller.Helpers.{
  Reply, requeue_after, second, timing, set_timing, delete_timing, set_stamp, has, stamp, since,
  transition_phase, fail_with, or_fail, fail_if_error, polling_backoff,
}
use kubernetes_controller.Controller.Phases.Transferring.{end_phase}

abbrev last_depth_key : String
last_depth_key = "Replaying.lastDepth"

abbrev last_decrease_key : String
last_decrease_key = "Replaying.lastDecrease"

abbrev replay_stall_timeout : ℕ
replay_stall_timeout = 30 * second

abbrev value_or_zero : Option ℕ → ℕ
value_or_zero none = 0
value_or_zero (some n) = n

module _ (E : Env) where
  -- `lastDepthStr == "" || depth < lastDepth`, with 0 for a text that is no number.
  depth_decreased : Option String → ℕ → Bool
  depth_decreased none depth = true
  depth_decreased (some s) depth = s == "" || ltb depth (value_or_zero (E.scan_int s))

  -- Whether the last decrease is too long ago; an unreadable stamp counts as recent.
  replay_stalled : Option ℕ → ℕ → Bool
  replay_stalled none now = false
  replay_stalled (some t) now = ltb_ℤ (pos replay_stall_timeout) (sub_ℕ now t)

  unfoldable pub note_or_fail : ℕ → ℕ → Bool → Bool → Option ℕ → Act E.World Reply (Unit {0})
  unfolding fail_with
  note_or_fail depth now true stalled last = modify (set_stamp E last_decrease_key now)
  note_or_fail depth now false false last = skip
  note_or_fail depth now false true last = fail_with E (
      "replay stalled: queue depth "
      <> E.format_int depth
      <> " unchanged for "
      <> E.format_seconds (since last now))

  unfoldable pub replay_drain_check : ℕ → Act E.World Reply Reply
  unfolding note_or_fail depth_decreased replay_stalled
  replay_drain_check depth = do
    base ← migration
    now ← time_now E
    let decreased = depth_decreased (timing last_depth_key base) depth
    let last = stamp E last_decrease_key base
    modify (set_timing last_depth_key (E.format_int depth))
    note_or_fail depth now decreased (replay_stalled last now) last
    patch_status E base
    pure (requeue_after (2 * second))

  unfoldable pub unbind_if_drain : Bool → String → String → Act E.World Reply (Unit {0})
  unbind_if_drain true queue exchange = do unbind_queue E queue exchange; skip
  unbind_if_drain false queue exchange = skip

  unfoldable pub begin_replay : Act E.World Reply (Unit {0})
  unfolding unbind_if_drain fail_if_error
  begin_replay = do
    m ← migration
    let cfg = m.spec.message_queue_config
    let queue = replay_queue cfg.queue_name
    unbind_if_drain (is_drain m.spec.replay_mode) queue cfg.exchange_name
    now ← time_now E
    modify (set_stamp E "Replaying.start" now)
    e ←
        send_control_message E m.status.target_pod ControlMessageType.start_replay
          (("queue", queue) ∷ [])
    fail_if_error E e (λ x. "send START_REPLAY: " <> x)
    patch_status E m
    skip

  abbrev forget_drain : StatefulMigration → StatefulMigration
  forget_drain m = delete_timing last_decrease_key (delete_timing last_depth_key m)

  unfoldable pub finish_replay : Act E.World Reply Reply
  unfolding end_phase transition_phase
  finish_replay = do
    base ← migration
    end_phase E "Replaying.start" "Replaying"
    modify forget_drain
    transition_phase E base Phase.finalizing

  -- The time limit of the Cutoff mode, in seconds; one of zero or less sets no limit.
  unfoldable pub cutoff_reached : ℤ → Option ℕ → ℕ → Bool
  cutoff_reached limit none now = false
  cutoff_reached limit (some start) now =
      ltb_ℤ (pos 0) limit && ltb_ℤ (pos (pos_part limit * second)) (sub_ℕ now start)

  unfoldable pub check_cutoff : Act E.World Reply Reply
  unfolding cutoff_reached end_phase transition_phase polling_backoff
  check_cutoff = do
    m ← migration
    now ← time_now E
    if cutoff_reached m.spec.replay_cutoff_seconds (stamp E "Replaying.start" m) now
        then (do end_phase E "Replaying.start" "Replaying"; transition_phase E m Phase.finalizing)
        else (do d ← polling_backoff E "Replaying.start"; pure (requeue_after d))

  unfoldable pub handle_replaying : Act E.World Reply Reply
  unfolding begin_replay or_fail finish_replay replay_drain_check check_cutoff
  handle_replaying = do
    m ← migration
    if has (timing "Replaying.start" m) then skip else begin_replay
    r ← get_queue_depth E (replay_queue m.spec.message_queue_config.queue_name)
    depth ← or_fail E r (λ e. "get queue depth: " <> e)
    if nat_eq depth 0
        then finish_replay
        else if is_drain m.spec.replay_mode
        then replay_drain_check depth
        else check_cutoff
