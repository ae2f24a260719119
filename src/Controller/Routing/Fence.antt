-- ===== src/Controller/Routing/Fence.antt =====
-- At every moment of the fence, a published message has a queue to go to.
use kubernetes_controller.Base.{◌≡◌, Bool, true, false, none, Always, arith}
use kubernetes_controller.Api.{replay_queue, fence_buffer}
use kubernetes_controller.Cluster.{Env}
use kubernetes_controller.Controller.Helpers.{has, timing}
use kubernetes_controller.Controller.Monad.{St, ◌>>=◌, migration, modify, run}
use kubernetes_controller.Controller.Calls.{
  declare_and_bind_queue, unbind_queue, patch_status, get_queue_depth, time_now,
}
use kubernetes_controller.Controller.Swap.Fence.{exchange_fence}
use kubernetes_controller.Controller.Routing.{
  effect_on, is_bound, possible_effect_on, may_be_bound, IsRouted,
}
use kubernetes_controller.Controller.Routing.Names.{names}

module _ (E : Env) where
  -- If the primary queue is bound when the fence begins, then after each of its calls, errors
  -- included, a message that is published goes to the primary queue or to the buffer.
  pub exchange_fence-IsRouted :
      (s : St E.World) (start : Bool)
      → let p = s.m.spec.message_queue_config.queue_name in
        let ex = s.m.spec.message_queue_config.exchange_name in
        is_bound p ex start s.calls ≡ true
        → Always (IsRouted p ex start) s.calls
        → Always (IsRouted p ex start) (exchange_fence E s).1.calls
  unfolding exchange_fence ◌>>=◌ migration modify declare_and_bind_queue unbind_queue patch_status
      get_queue_depth time_now is_bound effect_on
  exchange_fence-IsRouted s start bound before = ground (
    arith,
    names s.m.spec.message_queue_config.queue_name s.m.spec.message_queue_config.exchange_name,
  )

  -- A fence that was not applied before, and that returns without an error, leaves the buffer bound
  -- to the exchange, by a bind that succeeded, and neither the primary queue nor the replay queue: the
  -- last that happened to each of these is an unbind that succeeded.
  pub exchange_fence_isolates :
      (s : St E.World) (start : Bool)
      → let p = s.m.spec.message_queue_config.queue_name in
        let ex = s.m.spec.message_queue_config.exchange_name in
        has (timing "Swap.Fence.time" s.m) ≡ false
        → (run (exchange_fence E) s).0.error ≡ none
        → let calls = (exchange_fence E s).1.calls in
          (is_bound (fence_buffer p) ex start calls ≡ true)
          × (may_be_bound p ex start calls ≡ false)
          × (may_be_bound (replay_queue p) ex start calls ≡ false)
  unfolding exchange_fence ◌>>=◌ migration modify declare_and_bind_queue unbind_queue patch_status
      get_queue_depth time_now is_bound effect_on may_be_bound possible_effect_on
  exchange_fence_isolates s start new done = ground (
    arith,
    new,
    done,
    names s.m.spec.message_queue_config.queue_name s.m.spec.message_queue_config.exchange_name,
  )
