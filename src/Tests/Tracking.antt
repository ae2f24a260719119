-- ===== src/Tests/Tracking.antt =====
-- The fence with the RabbitMQ client and a broker of bindings behind it.
use kubernetes_controller.Base.{
  String, ◌≡◌, ◌≢◌, ◌⊎◌, refl, true, none, [], ◌∷◌, eq_iff, ◌==◌, ◌&&◌, arith, Bool,
}
use kubernetes_controller.Api.{Phase, SwapSubPhase, fence_buffer}
use kubernetes_controller.Messaging.{err}
use kubernetes_controller.Messaging.Rabbitmq.{RabbitClient, rabbitmq}
use kubernetes_controller.Cluster.{Env}
use kubernetes_controller.Controller.Monad.{St, run, Call}
use kubernetes_controller.Controller.Swap.Fence.{exchange_fence}
use kubernetes_controller.Controller.Swap.Cutover.{fence_cutover}
use kubernetes_controller.Controller.Routing.{is_bound, effect_on}
use kubernetes_controller.Controller.Tracking.{LeavesBindings, RunsOn}
use kubernetes_controller.Controller.Tracking.Calls.{Bindings}
use kubernetes_controller.Controller.Tracking.Fencing.{
  Follows, Reaches, exchange_fence_delivers, fence_cutover_delivers,
}
use kubernetes_controller.Tests.Amqp.{test_amqp, bound, test_amqp-BindsAsDocumented, open_client}
use kubernetes_controller.Tests.Quiet.{quiet_env}
use kubernetes_controller.Tests.World.{test_migration}

abbrev env : Env
env = quiet_env (rabbitmq test_amqp) (λ url body w. (err "no agent", w))

abbrev served : RunsOn env test_amqp
served = record {
  client = λ w. w;
  bind_queue = λ q ex key w. (refl, refl);
  unbind_queue = λ q ex w. (refl, refl);
  declare_and_bind_queue = λ q ex w. (refl, refl);
  delete_queue = λ q w. (refl, refl);
  delete_secondary_queue = λ q p ex w. (refl, refl);
  get_queue_depth = λ q w. (refl, refl);
  get_queue_stats = λ q w. (refl, refl);
  send_control_message = λ pod t pl w. (refl, refl);
  get_pod = λ ns n w. refl;
  delete_pod = λ x g w. refl;
  get_stateful_set = λ ns n w. refl;
  patch_stateful_set = λ b x w. refl;
  patch_status = λ b m w. refl;
}

unbind_test :
    (ch : Unit {0}) (j key x q ex : String) (b : String → String → Bool)
    → x ≢ ex
    → b q ex ≡ true
    → (test_amqp.queue_unbind ch j key x b).1 q ex ≡ true
unbind_test ch j key x q ex b ne h = ground (arith, h, ne, eq_iff ex x)

abbrev documented : LeavesBindings test_amqp bound
documented = record {
  dial_keeps = λ url q ex b h. h;
  open_channel_keeps = λ cn q ex b h. h;
  close_connection_keeps = λ cn q ex b h. h;
  close_channel_keeps = λ ch q ex b h. h;
  exchange_declare_keeps = λ ch name kind q ex b h. h;
  queue_declare_keeps = λ ch name q ex b h. h;
  queue_inspect_keeps = λ ch name q ex b h. h;
  publish_keeps = λ ch name key q ex t pl b h. h;
  unbind_keeps_others = unbind_test;
}

abbrev bindings : Bindings test_amqp
bindings = record { bound = bound; binds = test_amqp-BindsAsDocumented; keeps = documented }

-- The primary queue is bound, and the log is empty.
abbrev before : St (RabbitClient test_amqp)
before = record {
  m = test_migration Phase.finalizing SwapSubPhase.exchange_fence [];
  world = open_client (λ q ex. q == "orders" && ex == "events");
  calls = [];
}

before-Follows : Follows env test_amqp served bindings "orders" "events" true before
unfolding is_bound
before-Follows = record {
  primary = record { sound = λ h. refl };
  buffer = record { sound = λ h. cc };
}

exchange_fence_delivers_example :
    Reaches env test_amqp served bindings "orders" "events" (exchange_fence env before).1
unfolding is_bound
exchange_fence_delivers_example =
    exchange_fence_delivers env test_amqp served bindings before true before-Follows refl refl

-- The buffer was bound, and then the primary queue unbound.
abbrev fenced : St (RabbitClient test_amqp)
fenced = record {
  m = test_migration Phase.finalizing SwapSubPhase.fence_cutover [];
  world = open_client (λ q ex. q == fence_buffer "orders" && ex == "events");
  calls =
      Call.unbind_queue "orders" "events" true
      ∷ Call.declare_and_bind_queue "orders.ms2m-fence-buffer" "events" true
      ∷ [];
}

fenced-Follows : Follows env test_amqp served bindings "orders" "events" true fenced
unfolding is_bound effect_on
fenced-Follows = record {
  primary = record { sound = λ h. cc };
  buffer = record { sound = λ h. refl };
}

fence_cutover_delivers_example :
    let (r, s') = run (fence_cutover env) fenced in
    Reaches env test_amqp served bindings "orders" "events" s'
    × ((r.error ≢ none) ⊎ (s'.world.broker "orders" "events" ≡ true))
unfolding is_bound effect_on
fence_cutover_delivers_example =
    fence_cutover_delivers env test_amqp served bindings fenced true fenced-Follows refl
      (refl, (refl, refl))
