-- ===== src/Tests/Routing.antt =====
-- The routing of messages at a fence, its rollback and its cutover, for a migration whose replacement
-- drains both queues.
use kubernetes_controller.Base.{◌≡◌, ◌≢◌, refl, ◌⊎◌, ◌*◌, true, false, Always, none, some, [], ◌∷◌}
use kubernetes_controller.Base.Dict.{lookup}
use kubernetes_controller.Api.{Phase, SwapSubPhase}
use kubernetes_controller.Messaging.Mock.{new_mock_broker_client}
use kubernetes_controller.Messaging.Mock
use kubernetes_controller.Cluster.{Env}
use kubernetes_controller.Controller.Monad.{Call, St, run, ◌>>=◌, migration, modify}
use kubernetes_controller.Controller.Calls.{
  declare_and_bind_queue, unbind_queue, get_queue_depth, time_now, patch_status,
}
use kubernetes_controller.Controller.Helpers.{second}
use kubernetes_controller.Controller.Swap.Fence.{exchange_fence}
use kubernetes_controller.Controller.Swap.Rollback.{fence_rollback}
use kubernetes_controller.Controller.Swap.Cutover.{fence_cutover}
use kubernetes_controller.Controller.Routing.{may_be_bound, is_bound, effect_on, IsRouted}
use kubernetes_controller.Controller.Routing.Fence.{
  exchange_fence-IsRouted, exchange_fence_isolates,
}
use kubernetes_controller.Controller.Routing.Rollback.{fence_rollback-IsRouted}
use kubernetes_controller.Controller.Routing.Cutover.{fence_cutover-IsRouted}
use kubernetes_controller.Tests.World.{TestWorld, test_env, test_migration, test_world}

abbrev fencing : SwapSubPhase → St TestWorld
fencing sub = record {
  m = test_migration Phase.finalizing sub [];
  world =
      test_world (10 * second) (("orders", 3) ∷ ("orders.ms2m-replay", 8) ∷ [])
        (test_migration Phase.finalizing sub []);
  calls = [];
}

abbrev before_fence : St TestWorld
before_fence = fencing SwapSubPhase.exchange_fence

exchange_fence-IsRouted_example :
    Always (IsRouted "orders" "events" true) (exchange_fence (test_env none) before_fence).1.calls
unfolding is_bound
exchange_fence-IsRouted_example =
    exchange_fence-IsRouted (test_env none) before_fence true refl refl

exchange_fence_isolates_example :
    let calls = (exchange_fence (test_env none) before_fence).1.calls in
    (is_bound "orders.ms2m-fence-buffer" "events" true calls ≡ true)
    × (may_be_bound "orders" "events" true calls ≡ false)
    × (may_be_bound "orders.ms2m-replay" "events" true calls ≡ false)
unfolding lookup exchange_fence ◌>>=◌ migration modify declare_and_bind_queue unbind_queue
    get_queue_depth time_now patch_status Mock.declare_and_bind_queue Mock.unbind_queue
    Mock.get_queue_depth new_mock_broker_client
exchange_fence_isolates_example =
    exchange_fence_isolates (test_env none) before_fence true refl refl

-- After the fence: the buffer is bound, and nothing else.
abbrev fenced : St TestWorld
fenced = record (fencing SwapSubPhase.parallel_drain) {
  calls =
      Call.unbind_queue "orders.ms2m-replay" "events" true
      ∷ Call.unbind_queue "orders" "events" true
      ∷ Call.declare_and_bind_queue "orders.ms2m-fence-buffer" "events" true
      ∷ [];
}

fence_rollback-IsRouted_example :
    Always (IsRouted "orders" "events" true) (fence_rollback (test_env none) fenced).1.calls
unfolding is_bound effect_on Mock.bind_queue
fence_rollback-IsRouted_example =
    fence_rollback-IsRouted (test_env none) fenced true refl refl (refl, (refl, (refl, refl)))

abbrev no_rebind : Env
no_rebind = record (test_env none) {
  broker = record ((test_env none).broker) {
    bind_queue = λ q ex key w. (some "channel closed", w);
  };
}

fence_cutover-IsRouted_example :
    let (r, s) = run (fence_cutover (test_env none)) fenced in
    Always (IsRouted "orders" "events" true) s.calls
    × ((r.error ≢ none) ⊎ (is_bound "orders" "events" true s.calls ≡ true))
unfolding is_bound effect_on
fence_cutover-IsRouted_example =
    fence_cutover-IsRouted (test_env none) true fenced refl (refl, (refl, (refl, refl)))
