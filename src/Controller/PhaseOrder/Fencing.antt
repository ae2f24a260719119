-- ===== src/Controller/PhaseOrder/Fencing.antt =====
-- The sub-phases from the creation of the replacement on move the sub-phase only as they are allowed to.
use kubernetes_controller.Base.{Option, none, some, String, ℕ, Bool, true, false, if◌then◌else◌}
use kubernetes_controller.Api.{SwapSubPhase, MessageQueueConfig}
use kubernetes_controller.Cluster.{Env, Lookup, Pod, StatefulSet, Created}
use kubernetes_controller.Controller.Monad.{modify}
use kubernetes_controller.Controller.Helpers.{SwapReply, set_sub_phase}
use kubernetes_controller.Controller.Keeps.{Keeps, keeps_rules}
use kubernetes_controller.Controller.PhaseOrder.{Stored, SoleWriter, Within, Allows}
use kubernetes_controller.Controller.PhaseOrder.Rules.{call_rules}
use kubernetes_controller.Controller.PhaseOrder.Swap.{advance-Within, evict-Within}
use kubernetes_controller.Controller.Swap.Replacement.{
  replacement_runs, save_replicas, scale_down_original, scale_down_found, remove_original,
  replacement_exists, adopt, after_create, create_pod_now, follow_replacement, create_replacement,
}
use kubernetes_controller.Controller.Swap.MiniReplay.{begin_mini_replay, mini_replay}
use kubernetes_controller.Controller.Swap.TrafficSwitch.{
  delete_shadow, scale_up_for_adoption, traffic_switch,
}
use kubernetes_controller.Controller.Swap.PreFence.{
  begin_pre_fence, choose, decide, pre_fence_drain,
}
use kubernetes_controller.Controller.Swap.Fence.{apply_fence, exchange_fence}
use kubernetes_controller.Controller.Swap.Rollback.{restore_routing, fence_rollback}
use kubernetes_controller.Controller.Swap.Drain.{
  Progress, follow, finish_drain, limit_drain, await_drain, parallel_drain,
}
use kubernetes_controller.Controller.Swap.Cutover.{
  scale_up, scale_up_if_found, delete_now, begin_buffer_drain, await_buffer, restore_primary,
  clean_up, drain_and_clean_up, fence_cutover,
}

module _ (E : Env) (L : SoleWriter E) {H Q : Stored → Type 0} where
  scale_up-Within : (n : ℕ) (x : StatefulSet) → Keeps (Within L H Q) (scale_up E n x)
  unfolding scale_up
  scale_up-Within n x = search call_rules depth 12

  scale_up_if_found-Within :
      (n : ℕ) (l : Lookup StatefulSet) → Keeps (Within L H Q) (scale_up_if_found E n l)
  unfolding scale_up_if_found
  scale_up_if_found-Within n (Lookup.found x) = scale_up-Within n x
  scale_up_if_found-Within n Lookup.not_found = search keeps_rules
  scale_up_if_found-Within n (Lookup.failed e) = search keeps_rules

  save_replicas-Within : (n : ℕ) → Keeps (Within L H Q) (save_replicas E n)
  unfolding save_replicas
  save_replicas-Within n = search (call_rules, L) depth 12

  scale_down_original-Within :
      (x : StatefulSet) (n : Option ℕ) → Keeps (Within L H Q) (scale_down_original E x n)
  unfolding scale_down_original
  scale_down_original-Within x none = search keeps_rules
  scale_down_original-Within x (some n) = search (call_rules, save_replicas-Within) depth 12

  scale_down_found-Within : (l : Lookup StatefulSet) → Keeps (Within L H Q) (scale_down_found E l)
  unfolding scale_down_found
  scale_down_found-Within (Lookup.found x) = scale_down_original-Within x _
  scale_down_found-Within Lookup.not_found = search keeps_rules
  scale_down_found-Within (Lookup.failed e) = search keeps_rules

  -- The choice of the mode after the replacement.
  set_mode-Within :
      (b : Bool)
      → Allows H SwapSubPhase.pre_fence_drain
      → Allows H SwapSubPhase.mini_replay
      → Keeps {R = SwapReply} (Within L H Q) (
          modify
            (set_sub_phase (if b then SwapSubPhase.pre_fence_drain else SwapSubPhase.mini_replay)))
  set_mode-Within true k1 k2 = search (call_rules, L) depth 12
  set_mode-Within false k1 k2 = search (call_rules, L) depth 12

  replacement_exists-Within :
      (x : Pod)
      → Allows H SwapSubPhase.pre_fence_drain
      → Allows H SwapSubPhase.mini_replay
      → Keeps (Within L H Q) (replacement_exists E x)
  unfolding replacement_exists replacement_runs remove_original
  replacement_exists-Within x k1 k2 =
      search (call_rules, advance-Within, evict-Within, scale_down_found-Within, set_mode-Within, L)
        depth 15

  after_create-Within : (r : Created) → Keeps (Within L H Q) (after_create E r)
  unfolding after_create adopt
  after_create-Within Created.created = search (call_rules, scale_up_if_found-Within, L) depth 15
  after_create-Within Created.already_exists = search keeps_rules
  after_create-Within (Created.failed e) = search keeps_rules

  follow_replacement-Within :
      (l : Lookup Pod)
      → Allows H SwapSubPhase.pre_fence_drain
      → Allows H SwapSubPhase.mini_replay
      → Keeps (Within L H Q) (follow_replacement E l)
  unfolding follow_replacement create_pod_now
  follow_replacement-Within (Lookup.found x) k1 k2 = replacement_exists-Within x k1 k2
  follow_replacement-Within Lookup.not_found k1 k2 =
      search (call_rules, after_create-Within) depth 12
  follow_replacement-Within (Lookup.failed e) k1 k2 = search keeps_rules

  pub create_replacement-Within :
      Allows H SwapSubPhase.pre_fence_drain
      → Allows H SwapSubPhase.mini_replay
      → Keeps (Within L H Q) (create_replacement E)
  unfolding create_replacement
  create_replacement-Within k1 k2 = search (call_rules, follow_replacement-Within) depth 12

  pub mini_replay-Within :
      Allows H SwapSubPhase.traffic_switch → Keeps (Within L H Q) (mini_replay E)
  unfolding mini_replay begin_mini_replay
  mini_replay-Within k1 = search (call_rules, advance-Within, L) depth 20

  delete_shadow-Within : (l : Lookup Pod) → Keeps (Within L H Q) (delete_shadow E l)
  unfolding delete_shadow
  delete_shadow-Within (Lookup.found x) = search call_rules depth 12
  delete_shadow-Within Lookup.not_found = search keeps_rules
  delete_shadow-Within (Lookup.failed e) = search keeps_rules

  scale_up_for_adoption-Within :
      (n : ℕ) (l : Lookup StatefulSet) → Keeps (Within L H Q) (scale_up_for_adoption E n l)
  unfolding scale_up_for_adoption
  scale_up_for_adoption-Within n (Lookup.found x) = scale_up-Within n x
  scale_up_for_adoption-Within n Lookup.not_found = search keeps_rules
  scale_up_for_adoption-Within n (Lookup.failed e) = search keeps_rules

  pub traffic_switch-Within : Allows H SwapSubPhase.unset → Keeps (Within L H Q) (traffic_switch E)
  unfolding traffic_switch
  traffic_switch-Within k1 =
      search (call_rules, delete_shadow-Within, scale_up_for_adoption-Within, L) depth 20

  choose-Within :
      (b : Bool) (c : MessageQueueConfig)
      → Allows H SwapSubPhase.exchange_fence
      → Allows H SwapSubPhase.mini_replay
      → Keeps (Within L H Q) (choose E b c)
  unfolding choose
  choose-Within true c k1 k2 = search call_rules depth 12
  choose-Within false c k1 k2 = search call_rules depth 12

  pub pre_fence_drain-Within :
      Allows H SwapSubPhase.exchange_fence
      → Allows H SwapSubPhase.mini_replay
      → Keeps (Within L H Q) (pre_fence_drain E)
  unfolding pre_fence_drain begin_pre_fence decide
  pre_fence_drain-Within k1 k2 = search (call_rules, choose-Within, advance-Within, L) depth 20

  pub exchange_fence-Within :
      Allows H SwapSubPhase.parallel_drain → Keeps (Within L H Q) (exchange_fence E)
  unfolding exchange_fence apply_fence
  exchange_fence-Within k1 = search (call_rules, advance-Within, L) depth 20

  fence_rollback-Within :
      Allows H SwapSubPhase.mini_replay → Keeps (Within L H Q) (fence_rollback E)
  unfolding fence_rollback restore_routing
  fence_rollback-Within k1 = search (call_rules, advance-Within, L) depth 20

  follow-Within :
      (x : Progress) (c : String)
      → Allows H SwapSubPhase.mini_replay
      → Keeps (Within L H Q) (follow E x c)
  unfolding follow
  follow-Within Progress.moved c k1 = search (call_rules, L) depth 12
  follow-Within Progress.waiting c k1 = search keeps_rules
  follow-Within Progress.stalled c k1 = search (call_rules, fence_rollback-Within) depth 12

  limit_drain-Within :
      (b : Bool) → Allows H SwapSubPhase.mini_replay → Keeps (Within L H Q) (limit_drain E b)
  unfolding limit_drain
  limit_drain-Within true k1 = fence_rollback-Within k1
  limit_drain-Within false k1 = search keeps_rules

  pub parallel_drain-Within :
      Allows H SwapSubPhase.fence_cutover
      → Allows H SwapSubPhase.mini_replay
      → Keeps (Within L H Q) (parallel_drain E)
  unfolding parallel_drain finish_drain await_drain
  parallel_drain-Within k1 k2 =
      search (call_rules, follow-Within, limit_drain-Within, advance-Within, L) depth 20

  delete_now-Within : (l : Lookup Pod) → Keeps (Within L H Q) (delete_now E l)
  unfolding delete_now
  delete_now-Within (Lookup.found x) = search call_rules depth 12
  delete_now-Within Lookup.not_found = search keeps_rules
  delete_now-Within (Lookup.failed e) = search keeps_rules

  await_buffer-Within : (q : String) (n : ℕ) → Keeps (Within L H Q) (await_buffer E q n)
  unfolding await_buffer begin_buffer_drain
  await_buffer-Within q n = search (call_rules, L) depth 20

  clean_up-Within :
      (q ex : String) → Allows H SwapSubPhase.unset → Keeps (Within L H Q) (clean_up E q ex)
  unfolding clean_up
  clean_up-Within q ex k1 = search (call_rules, scale_up_if_found-Within, L) depth 20

  pub fence_cutover-Within : Allows H SwapSubPhase.unset → Keeps (Within L H Q) (fence_cutover E)
  unfolding fence_cutover restore_primary drain_and_clean_up
  fence_cutover-Within k1 =
      search (call_rules, delete_now-Within, await_buffer-Within, clean_up-Within, L) depth 20
