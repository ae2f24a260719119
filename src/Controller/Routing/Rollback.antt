-- ===== src/Controller/Routing/Rollback.antt =====
-- What the rollback of a fence leaves bound.
use kubernetes_controller.Base.{◌≡◌, Bool, true, false, Always, arith}
use kubernetes_controller.Api.{fence_buffer}
use kubernetes_controller.Cluster.{Env}
use kubernetes_controller.Controller.Monad.{St, ◌>>=◌, migration, modify, skip}
use kubernetes_controller.Controller.Calls.{
  bind_queue, unbind_queue, delete_queue, patch_status, get_queue_depth, time_now, succeeded,
}
use kubernetes_controller.Controller.Swap.Rollback.{fence_rollback}
use kubernetes_controller.Controller.Routing.{effect_on, is_bound, IsRouted}
use kubernetes_controller.Controller.Routing.Names.{names}

module _ (E : Env) where
  -- If the buffer is bound when the rollback begins, and the first call, the one that binds the
  -- primary queue again, succeeds, then after each of the rollback's calls a published message goes
  -- to the primary queue or to the buffer.
  pub fence_rollback-IsRouted :
      (s : St E.World) (start : Bool)
      → let p = s.m.spec.message_queue_config.queue_name in
        let ex = s.m.spec.message_queue_config.exchange_name in
        is_bound (fence_buffer p) ex false s.calls ≡ true
        → succeeded (E.broker.bind_queue p ex "" s.world).0 ≡ true
        → Always (IsRouted p ex start) s.calls
        → Always (IsRouted p ex start) (fence_rollback E s).1.calls
  unfolding fence_rollback ◌>>=◌ migration modify skip bind_queue unbind_queue delete_queue
      patch_status get_queue_depth time_now is_bound effect_on
  fence_rollback-IsRouted s start bound rebound before = ground (
    arith,
    bound,
    rebound,
    before,
    names s.m.spec.message_queue_config.queue_name s.m.spec.message_queue_config.exchange_name,
  )
