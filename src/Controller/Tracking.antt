-- ===== src/Controller/Tracking.antt =====
-- The bindings that the log of calls promises, against the broker behind the RabbitMQ client.
pub mod Client
pub mod Calls
pub mod Fencing
use kubernetes_controller.Base.{String, ◌≡◌, ◌≢◌, true, Bool, Option, ℕ}
use kubernetes_controller.Api.{StatefulMigration}
use kubernetes_controller.Messaging.{ControlMessageType, Payload}
use kubernetes_controller.Messaging.Rabbitmq
use kubernetes_controller.Messaging.Rabbitmq.{Amqp, RabbitClient}
use kubernetes_controller.Cluster.{Env, Pod, StatefulSet}
use kubernetes_controller.Controller.Monad.{St}
use kubernetes_controller.Controller.Routing.{is_bound}

-- What AMQP 0-9-1 documents of the operations that are not about the binding of a durable queue: they
-- leave it, and the unbinding from one exchange leaves the bindings to the others.
pub record LeavesBindings (A : Amqp) (bound : A.Broker → String → String → Bool) : Type 0 where
  pub dial_keeps :
      (url q ex : String) (b : A.Broker) → bound b q ex ≡ true → bound (A.dial url b).1 q ex ≡ true
  pub open_channel_keeps :
      (cn : A.Connection) (q ex : String) (b : A.Broker)
      → bound b q ex ≡ true
      → bound (A.open_channel cn b).1 q ex ≡ true
  pub close_connection_keeps :
      (cn : A.Connection) (q ex : String) (b : A.Broker)
      → bound b q ex ≡ true
      → bound (A.close_connection cn b).1 q ex ≡ true
  pub close_channel_keeps :
      (ch : A.Channel) (q ex : String) (b : A.Broker)
      → bound b q ex ≡ true
      → bound (A.close_channel ch b).1 q ex ≡ true
  pub exchange_declare_keeps :
      (ch : A.Channel) (name kind q ex : String) (b : A.Broker)
      → bound b q ex ≡ true
      → bound (A.exchange_declare ch name kind b).1 q ex ≡ true
  pub queue_declare_keeps :
      (ch : A.Channel) (name q ex : String) (b : A.Broker)
      → bound b q ex ≡ true
      → bound (A.queue_declare ch name b).1 q ex ≡ true
  pub queue_inspect_keeps :
      (ch : A.Channel) (name q ex : String) (b : A.Broker)
      → bound b q ex ≡ true
      → bound (A.queue_inspect ch name b).1 q ex ≡ true
  pub publish_keeps :
      (ch : A.Channel) (name key q ex : String) (t : ControlMessageType) (pl : Payload)
      (b : A.Broker)
      → bound b q ex ≡ true
      → bound (A.publish ch name key t pl b).1 q ex ≡ true
  pub unbind_keeps_others :
      (ch : A.Channel) (j key x q ex : String) (b : A.Broker)
      → x ≢ ex
      → bound b q ex ≡ true
      → bound (A.queue_unbind ch j key x b).1 q ex ≡ true

-- The operation answers as the client's method does, and does to the client what the method does.
abbrev Serves : {W C X : Type 0} → (W → C) → (W → X × W) → (C → X × C) → Type 0
Serves {W} client f g = (w : W) → ((f w).0 ≡ (g (client w)).0) × (client (f w).1 ≡ (g (client w)).1)

-- The call has nothing to do with the client.
abbrev Spares : {W C X : Type 0} → (W → C) → (W → X × W) → Type 0
Spares {W} client f = (w : W) → client (f w).1 ≡ client w

-- The controller's broker is the RabbitMQ client, with the operations that the fence uses; the API
-- server has nothing to do with it.
pub record RunsOn (E : Env) (A : Amqp) : Type 0 where
  pub client : E.World → RabbitClient A
  pub bind_queue :
      (q ex key : String)
      → Serves client (E.broker.bind_queue q ex key) (Rabbitmq.bind_queue A q ex key)
  pub unbind_queue :
      (q ex : String) → Serves client (E.broker.unbind_queue q ex) (Rabbitmq.unbind_queue A q ex)
  pub declare_and_bind_queue :
      (q ex : String)
      → Serves client
          (E.broker.declare_and_bind_queue q ex)
          (Rabbitmq.declare_and_bind_queue A q ex)
  pub delete_queue :
      (q : String) → Serves client (E.broker.delete_queue q) (Rabbitmq.delete_queue A q)
  pub delete_secondary_queue :
      (q p ex : String)
      → Serves client
          (E.broker.delete_secondary_queue q p ex)
          (Rabbitmq.delete_secondary_queue A q p ex)
  pub get_queue_depth :
      (q : String) → Serves client (E.broker.get_queue_depth q) (Rabbitmq.get_queue_depth A q)
  pub get_queue_stats :
      (q : String) → Serves client (E.broker.get_queue_stats q) (Rabbitmq.get_queue_stats A q)
  pub send_control_message :
      (pod : String) (t : ControlMessageType) (pl : Payload)
      → Serves client
          (E.broker.send_control_message pod t pl)
          (Rabbitmq.send_control_message A pod t pl)
  pub get_pod : (ns n : String) → Spares client (E.get_pod ns n)
  pub delete_pod : (x : Pod) (g : Option ℕ) → Spares client (E.delete_pod x g)
  pub get_stateful_set : (ns n : String) → Spares client (E.get_stateful_set ns n)
  pub patch_stateful_set : (b x : StatefulSet) → Spares client (E.patch_stateful_set b x)
  pub patch_status : (b m : StatefulMigration) → Spares client (E.patch_status b m)

-- If the log counts the queue as bound, so has the broker.
pub record Tracks {E : Env} {A : Amqp} (T : RunsOn E A) (bound : A.Broker → String → String → Bool)
    (q ex : String) (start : Bool) (s : St E.World) : Type 0 where
  pub sound : is_bound q ex start s.calls ≡ true → bound (T.client s.world).broker q ex ≡ true
